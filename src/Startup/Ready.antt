-- ===== src/Startup/Ready.antt =====
-- `config_init` when no call refuses anything.
use tcp_dpdk.Base.{ℕ, ◌+◌, ◌≡◌, false, ◌⊎◌, List, [], ◌∷◌, none, some, All}
use tcp_dpdk.Connection.{Quad}
use tcp_dpdk.Dpdk.{Dpdk}
use tcp_dpdk.Tcp.{Core}
use tcp_dpdk.Config.{Settings}
use tcp_dpdk.Cli.{Control}
use tcp_dpdk.Startup.{Boot, IsBoot}

abbrev pub lcore_ids : {T : Type 0} → List (ℕ × Core T) → List ℕ
lcore_ids [] = []
lcore_ids ((lcore, memory) ∷ lcores) = lcore ∷ lcore_ids lcores

module _ {T : Type 0} (d : Dpdk T) (b : Boot T) (boot : IsBoot d b) where
  -- `mac` is the address in a text, or the one before, of a text that is no address.
  abbrev pub Takes : List ℕ → ℕ → ℕ → Type 0
  Takes text old mac =
      (b.unformat_addr text ≡ some mac) ⊎ ((b.unformat_addr text ≡ none) × (mac ≡ old))

  -- A core that can take its first packet: its addresses are those of the file, its table is empty,
  -- and it has counted nothing.
  pub record IsReady (c : Settings) (ip lcore i : ℕ) (s : Core T) : Type 0 where
    pub id : s.tcp.core_id ≡ lcore
    pub queue : s.tcp.queue_id ≡ i
    pub runs : s.tcp.dp_quit ≡ false
    pub no_entry : (q : Quad) → d.hash_lookup_data s.tcp.rte_hash q ≡ none
    pub address : s.tcp.nic.ip ≡ d.cpu_to_be_32 ip
    pub source : Takes c.src_mac b.eth s.tcp.nic.mac
    pub destination : Takes c.dst_mac s.tcp.nic.mac s.tcp.nic.dst_mac
    pub uncounted : s.tcp.stats.connection_count ≡ 0

  -- One core for each lcore, in order, with the queues numbered from `i`.
  abbrev pub AreReady : Settings → ℕ → ℕ → List (ℕ × Core T) → List (Core T) → Type 0
  AreReady c ip i [] [] = Unit
  AreReady c ip i ((lcore, memory) ∷ lcores) (s ∷ ss) =
      IsReady c ip lcore i s × AreReady c ip (i + 1) lcores ss
  AreReady c ip i _ _ = ⊥

  -- The table of each lcore is created.
  abbrev pub AreCreated : List (ℕ × Core T) → Type 0
  AreCreated lcores = All (λ l. (t : T) × (b.hash_create l.0 ≡ some t)) lcores

  -- What the command line gets: it runs, and each core is ready and launched.
  abbrev pub IsUp : Settings → ℕ → List (ℕ × Core T) → Control T → Type 0
  IsUp c ip lcores s =
      AreReady c ip 0 lcores s.tcp_list × (s.launched ≡ lcore_ids lcores) × (s.cp_quit ≡ false)
