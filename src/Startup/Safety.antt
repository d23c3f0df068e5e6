-- ===== src/Startup/Safety.antt =====
-- The set-up, `initialize_tcp` and `config_init`, and the invariant of a core.
use tcp_dpdk.Base.{
  ℕ, ◌+◌, ◌==◌, exited, c_string, inl, inr, Bool-cases, ltb, length, ◌≡◌, refl, false, List, [],
  ◌∷◌, Option, none, some, Outcome, ok, fault, ◌>>=◌, NoStale, IsFresh, bind-Within, Within-if, All,
  arith, drop,
}
use tcp_dpdk.Connection.{Quad}
use tcp_dpdk.Dpdk.{Dpdk, IsDpdk}
use tcp_dpdk.Tcp.{Nic, Tcp, Core}
use tcp_dpdk.Invariant.{IsWellFormed}
use tcp_dpdk.Utility.{string_to_ip}
use tcp_dpdk.Config.{
  Settings, Field, Kind, kind, end_mark, skipped, option, assign, at_kind, args_loop, parse_args,
  read_argv, lines_from, copy_lines,
}
use tcp_dpdk.Cli.{Control}
use tcp_dpdk.Startup.{
  Boot, IsBoot, with_nic, with_hash, initialize_tcp, initialize_cores, launch_all, with_args,
  config_init,
}

module _ {T : Type 0} (d : Dpdk T) (b : Boot T) (laws : IsDpdk d) (boot : IsBoot d b) where
  abbrev IsEmpty : Tcp T → Type 0
  IsEmpty tcp = (q : Quad) → d.hash_lookup_data tcp.rte_hash q ≡ none

  with_nic-IsEmpty :
      (c : Settings) (tcp : Tcp T) (nic : Option Nic) (ip : Option ℕ)
      → IsEmpty tcp
      → NoStale (with_nic d b c tcp nic ip) IsEmpty
  with_nic-IsEmpty c tcp nic none empty = tt
  with_nic-IsEmpty c tcp none (some ip) empty = tt
  with_nic-IsEmpty c tcp (some nic) (some ip) empty = empty

  with_hash-IsEmpty :
      (c : Settings) (tcp : Tcp T) (lcore : ℕ) (o : Option T)
      → b.hash_create lcore ≡ o
      → NoStale (with_hash d b c tcp o) IsEmpty
  with_hash-IsEmpty c tcp lcore none e = tt
  with_hash-IsEmpty c tcp lcore (some t) e =
      with_nic-IsEmpty c (record tcp { rte_hash = t }) b.malloc_nic (string_to_ip c.src_ip)
        (λ q. boot.created_empty lcore t q e)

  -- A core whose table is empty.
  empty-IsWellFormed : (s : Core T) → IsEmpty s.tcp → IsWellFormed d s
  empty-IsWellFormed s empty q p found = absurd (ground (arith, empty q))

  initialize_cores-AreWellFormed :
      (c : Settings) (i : ℕ) (lcores : List (ℕ × Core T))
      → NoStale (initialize_cores d b c i lcores) (All (IsWellFormed d))
  unfolding initialize_cores initialize_tcp
  initialize_cores-AreWellFormed c i [] = tt
  initialize_cores-AreWellFormed c i ((lcore, memory) ∷ lcores) =
      let started : Tcp T = record memory.tcp {
        core_id = lcore;
        rxn = 0;
        txn = 0;
        dp_quit = false;
        max_pkt_burst = 256;
        queue_id = i;
        stats = record memory.tcp.stats { first_connection = 0; connection_count = 0 };
      } in
      bind-Within IsFresh (with_hash d b c started (b.hash_create lcore))
        (λ tcp.
          initialize_cores d b c (i + 1) lcores >>= λ list. ok (record memory { tcp = tcp } ∷ list))
        IsEmpty (All (IsWellFormed d))
        (with_hash-IsEmpty c started lcore (b.hash_create lcore) refl)
        (λ tcp empty.
          bind-Within IsFresh (initialize_cores d b c (i + 1) lcores)
            (λ list. ok (record memory { tcp = tcp } ∷ list)) (All (IsWellFormed d))
            (All (IsWellFormed d)) (initialize_cores-AreWellFormed c (i + 1) lcores)
            (λ list wf. (empty-IsWellFormed (record memory { tcp = tcp }) empty, wf)))

  at_kind-NoStale :
      (i : ℕ) (c : Settings) (more : Option Field → Outcome (Settings × Option ℕ))
      → ((o : Option Field) → NoStale (more o) (λ r. Unit))
      → (k : Kind) → NoStale (at_kind i c more k) (λ r. Unit)
  at_kind-NoStale i c more h end_mark = tt
  at_kind-NoStale i c more h skipped = h none
  at_kind-NoStale i c more h (option f) = h (some f)

  args_loop-NoStale :
      (i : ℕ) (o : Option Field) (c : Settings) (argv : List (List ℕ))
      → NoStale (args_loop i o c argv) (λ r. Unit)
  unfolding args_loop
  args_loop-NoStale i none c [] = tt
  args_loop-NoStale i (some f) c [] = tt
  args_loop-NoStale i (some f) c (v ∷ argv) = elim (Bool-cases (ltb (length v) 50)) [
    | inl fits ↦ rw fits (args_loop-NoStale (i + 1) none (assign f v c) argv)
    | inr long ↦ rw long tt
  ]
  args_loop-NoStale i none c (arg ∷ argv) =
      at_kind-NoStale i c (λ o. args_loop (i + 1) o c argv)
        (λ o. args_loop-NoStale (i + 1) o c argv) (kind arg)

  copy_lines-NoStale : (lines : List (List ℕ)) → NoStale (copy_lines lines) (λ argv. Unit)
  unfolding copy_lines
  copy_lines-NoStale [] = tt
  copy_lines-NoStale (line ∷ lines) = elim (Bool-cases (ltb (length (c_string line)) 100)) [
    | inl fits ↦ rw fits (
        bind-Within IsFresh (copy_lines lines) (λ argv. ok (c_string line ∷ argv)) (λ argv. Unit)
          (λ argv. Unit) (copy_lines-NoStale lines) (λ argv k. tt))
    | inr long ↦ rw long tt
  ]

  abbrev pub Started : Control T → Type 0
  Started s = All (IsWellFormed d) s.tcp_list

  launch_all-Started :
      (list : Outcome (List (Core T)))
      → NoStale list (All (IsWellFormed d))
      → NoStale (launch_all d b list) Started
  launch_all-Started (ok cores) wf = wf
  launch_all-Started (fault e) wf = wf

  parse_args-NoStale :
      (c : Settings) (argv : List (List ℕ)) → NoStale (parse_args c argv) (λ r. Unit)
  unfolding parse_args
  parse_args-NoStale c [] = tt
  parse_args-NoStale c (name ∷ argv) = args_loop-NoStale 1 none c argv

  with_args-Started :
      (o : Option ℕ) (argv : List (List ℕ)) (lcores : List (ℕ × Core T))
      → NoStale (with_args d b o argv lcores) Started
  with_args-Started none argv lcores = tt
  with_args-Started (some ret) argv lcores =
      bind-Within IsFresh (parse_args b.settings (drop ret argv)) _ (λ r. Unit) Started
        (parse_args-NoStale b.settings (drop ret argv))
        (λ r k.
          Within-if IsFresh (b.count_ports == 0) (fault exited)
            (launch_all d b (initialize_cores d b r.0 0 lcores)) Started (λ e. tt)
            (λ e.
              launch_all-Started (initialize_cores d b r.0 0 lcores)
                (initialize_cores-AreWellFormed r.0 0 lcores)))

  pub config_init-Started :
      (file : Option (List ℕ)) (lcores : List (ℕ × Core T))
      → NoStale (config_init d b file lcores) Started
  unfolding config_init read_argv
  config_init-Started none lcores = tt
  config_init-Started (some file) lcores =
      bind-Within IsFresh (copy_lines (lines_from [] file))
        (λ argv. with_args d b (b.eal_init argv) argv lcores) (λ argv. Unit) Started
        (copy_lines-NoStale (lines_from [] file))
        (λ argv k. with_args-Started (b.eal_init argv) argv lcores)
