-- ===== src/Startup.antt =====
-- `initialize_tcp` of src/tcp/tcp.c and `config_init` of src/config/config.c: from the
-- configuration file to the cores. The calls of the device set-up whose results `config_init` does
-- not look at are left out, that of `port_init` among them.
pub mod Safety
pub mod Ready
use tcp_dpdk.Base.{
  ℕ, ◌+◌, ◌≡◌, ◌==◌, Bool, true, false, List, [], ◌∷◌, Option, none, some, Outcome, ok, fault,
  null_pointer, exited, ◌>>=◌, drop, if◌then◌else◌,
}
use tcp_dpdk.Connection.{Quad}
use tcp_dpdk.Dpdk.{Dpdk}
use tcp_dpdk.Tcp.{Nic, Tcp, Core}
use tcp_dpdk.Cli.{Control, core_ids}
use tcp_dpdk.Config.{Settings, parse_args, read_argv}
use tcp_dpdk.Utility.{string_to_ip}

-- What the set-up calls of DPDK, and what their memory holds.
pub record Boot (T : Type 0) : Type 0 where
  -- `rte_eal_init`: how many of the arguments it takes; `none` is a negative result
  pub eal_init : List (List ℕ) → Option ℕ
  pub count_ports : ℕ
  -- `rte_hash_create`, for the name "hash %d"; `none` is NULL
  pub hash_create : ℕ → Option T
  -- `rte_malloc` of a `struct nic`; `none` is NULL
  pub malloc_nic : Option Nic
  -- `rte_ether_unformat_addr`; `none` leaves the address alone
  pub unformat_addr : List ℕ → Option ℕ
  -- the variable `eth` on the stack, and the texts of `struct config`, before they are written
  pub eth : ℕ
  pub settings : Settings

-- The documented behaviour: a new table is empty.
pub record IsBoot {T : Type 0} (d : Dpdk T) (b : Boot T) : Type 0 where
  pub created_empty :
      (lcore : ℕ) (t : T) (q : Quad) → b.hash_create lcore ≡ some t → d.hash_lookup_data t q ≡ none

module _ {T : Type 0} (d : Dpdk T) (b : Boot T) where
  -- The address in `eth` after a call.
  abbrev pub unformat : List ℕ → ℕ → ℕ
  unformat text eth = elim (b.unformat_addr text) [ none ↦ eth | some mac ↦ mac ]

  abbrev pub with_nic : Settings → Tcp T → Option Nic → Option ℕ → Outcome (Tcp T)
  with_nic c tcp nic none = fault exited
  with_nic c tcp none (some ip) = fault null_pointer
  with_nic c tcp (some nic) (some ip) =
      let src = unformat c.src_mac b.eth in
      ok (record tcp {
        nic = record { ip = d.cpu_to_be_32 ip; mac = src; dst_mac = unformat c.dst_mac src };
      })

  abbrev pub with_hash : Settings → Tcp T → Option T → Outcome (Tcp T)
  with_hash c tcp none = fault exited
  with_hash c tcp (some t) =
      with_nic c (record tcp { rte_hash = t }) b.malloc_nic (string_to_ip c.src_ip)

  -- `last_connection` is not set.
  unfoldable pub initialize_tcp : Settings → Tcp T → ℕ → Outcome (Tcp T)
  initialize_tcp c tcp lcore =
      with_hash c
        (record tcp { stats = record tcp.stats { first_connection = 0; connection_count = 0 } })
        (b.hash_create lcore)

  -- The loop over the lcores; `memory` is what `malloc` left of each core.
  unfoldable pub initialize_cores : Settings → ℕ → List (ℕ × Core T) → Outcome (List (Core T))
  initialize_cores c i [] = ok []
  initialize_cores c i ((lcore, memory) ∷ lcores) = do
    tcp ←
        initialize_tcp c
          (record memory.tcp {
            core_id = lcore;
            rxn = 0;
            txn = 0;
            dp_quit = false;
            max_pkt_burst = 256;
            queue_id = i;
          })
          lcore
    list ← initialize_cores c (i + 1) lcores
    ok (record memory { tcp = tcp } ∷ list)

  abbrev pub launch_all : Outcome (List (Core T)) → Outcome (Control T)
  launch_all list = do
    cores ← list
    ok (record { tcp_list = cores; launched = core_ids d cores; cp_quit = false; out = [] })

  -- With the arguments that DPDK leaves.
  abbrev pub with_args : Option ℕ → List (List ℕ) → List (ℕ × Core T) → Outcome (Control T)
  with_args none argv lcores = fault exited
  with_args (some ret) argv lcores = do
    (c, place) ← parse_args b.settings (drop ret argv)
    if b.count_ports == 0 then fault exited else launch_all (initialize_cores c 0 lcores)

  -- `none` is a file that does not open.
  unfoldable pub config_init : Option (List ℕ) → List (ℕ × Core T) → Outcome (Control T)
  config_init none lcores = fault exited
  config_init (some file) lcores = do argv ← read_argv file; with_args (b.eal_init argv) argv lcores
