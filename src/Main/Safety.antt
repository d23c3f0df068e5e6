-- ===== src/Main/Safety.antt =====
-- `main` of src/main.c and the invariants of its parts.
use tcp_dpdk.Base.{
  ℕ, zero, suc, Bool, List, [], ◌∷◌, Option, none, some, ok, NoStale, IsFresh, bind-Within,
  Within-if, OrNull-NoStale, All,
}
use tcp_dpdk.Dpdk.{Dpdk, IsDpdk}
use tcp_dpdk.Tcp.{Core}
use tcp_dpdk.Rx.{Packet, rx_packet}
use tcp_dpdk.Invariant.{IsWellFormed}
use tcp_dpdk.Invariant.Cases.{IsSane}
use tcp_dpdk.Invariant.Calls.{rx_packet-OrNull}
use tcp_dpdk.Cli.{Control, cli_process}
use tcp_dpdk.Cli.Safety.{AreWellFormed, cli_process-NoStale, quit_all-AreWellFormed}
use tcp_dpdk.Conn.{conn_poll_for_conn, conn_poll_for_msg}
use tcp_dpdk.Conn.Arrivals.{conn_poll_for_conn-IsKept}
use tcp_dpdk.Conn.Bounds.{IsBounded, conn_poll_for_msg-Within}
use tcp_dpdk.Conn.Setup.{System, nothing, Outcomes, Ledger, conn_init, conn_init-Outcomes}
use tcp_dpdk.Startup.{Boot, IsBoot, config_init}
use tcp_dpdk.Main.{
  Turn, Event, turn, packet, terminate, World, msg_handle, main_turn, core_packet, exit_stats, step,
  run, run_from, main,
}
use tcp_dpdk.Startup.Safety.{config_init-Started}

module _ {T : Type 0} (d : Dpdk T) (padding : ℕ) (write_ok : ℕ → Bool) (laws : IsDpdk d) where
  -- Only a sane packet reaches a core.
  abbrev pub IsSaneEvent : Event → Type 0
  IsSaneEvent (turn t) = Unit
  IsSaneEvent (packet i pkt) = IsSane d pkt
  IsSaneEvent terminate = Unit

  -- The connection is bounded, and every core well-formed.
  abbrev pub IsSafe : World d → Type 0
  IsSafe w = IsBounded w × All (IsWellFormed d) w.state.tcp_list

  core_packet-AreWellFormed :
      (i : ℕ) (pkt : Packet) (ss : List (Core T))
      → IsSane d pkt
      → All (IsWellFormed d) ss
      → NoStale (core_packet d i pkt ss) (All (IsWellFormed d))
  unfolding core_packet
  core_packet-AreWellFormed i pkt [] sane wf = tt
  core_packet-AreWellFormed zero pkt (s ∷ ss) sane wf =
      bind-Within IsFresh (rx_packet d s pkt) (λ s'. ok (s' ∷ ss)) (IsWellFormed d)
        (All (IsWellFormed d))
        (OrNull-NoStale _ (IsWellFormed d) (rx_packet-OrNull d laws s pkt wf.0 sane))
        (λ s' wf'. (wf', wf.1))
  core_packet-AreWellFormed (suc i) pkt (s ∷ ss) sane wf =
      bind-Within IsFresh (core_packet d i pkt ss) (λ ss'. ok (s ∷ ss')) (All (IsWellFormed d))
        (All (IsWellFormed d)) (core_packet-AreWellFormed i pkt ss sane wf.1)
        (λ ss' wf'. (wf.0, wf'))

  pub msg_handle-NoStale :
      (s : Control T) (line : List ℕ)
      → AreWellFormed d laws 0 s
      → NoStale (msg_handle d padding s line) (λ r. AreWellFormed d laws 0 r.0)
  msg_handle-NoStale s line wf =
      bind-Within IsFresh (cli_process d 1048576 (record s { out = [] }) line padding) _
        (AreWellFormed d laws 0) (λ r. AreWellFormed d laws 0 r.0)
        (cli_process-NoStale d laws 1048576 (record s { out = [] }) line padding wf) (λ u wf'. wf')

  main_turn-IsSafe :
      (w : World d) (t : Turn) → IsSafe w → NoStale (main_turn d padding write_ok w t) IsSafe
  unfolding main_turn
  main_turn-IsSafe w t safe =
      let polled = (conn_poll_for_conn write_ok w t.accept t.added).0 in
      let kept = conn_poll_for_conn-IsKept write_ok w t.accept t.added safe.0 in
      Within-if IsFresh w.state.cp_quit (ok w) _ IsSafe (λ e. safe)
        (λ e.
          bind-Within IsFresh
            (conn_poll_for_msg write_ok (msg_handle d padding) polled t.wait t.read t.removed
              t.close_ok)
            (λ r. ok r.0) (λ r. IsSafe r.0) IsSafe
            (conn_poll_for_msg-Within write_ok (msg_handle d padding) IsFresh
              (AreWellFormed d laws 0) msg_handle-NoStale polled t.wait t.read t.removed t.close_ok
              kept.bounded (rw kept.state safe.1))
            (λ r k. k))

  step-IsSafe :
      (w : World d) (e : Event)
      → IsSaneEvent e
      → IsSafe w
      → NoStale (step d padding write_ok w e) IsSafe
  unfolding step exit_stats
  step-IsSafe w (turn t) sane safe = main_turn-IsSafe w t safe
  step-IsSafe w (packet i pkt) sane safe =
      bind-Within IsFresh (core_packet d i pkt w.state.tcp_list) _ (All (IsWellFormed d)) IsSafe
        (core_packet-AreWellFormed i pkt w.state.tcp_list sane safe.1)
        (λ list wf. (record { size = safe.0.size; used = safe.0.used }, wf))
  step-IsSafe w terminate sane safe = (
    record { size = safe.0.size; used = safe.0.used },
    quit_all-AreWellFormed d laws 0 w.state.tcp_list safe.1,
  )

  run-IsSafe :
      (w : World d) (es : List Event)
      → All IsSaneEvent es
      → IsSafe w
      → NoStale (run d padding write_ok w es) IsSafe
  unfolding run
  run-IsSafe w [] sane safe = safe
  run-IsSafe w (e ∷ es) sane safe =
      bind-Within IsFresh (step d padding write_ok w e) (λ w'. run d padding write_ok w' es) IsSafe
        IsSafe (step-IsSafe w e sane.0 safe) (λ w' safe'. run-IsSafe w' es sane.1 safe')

  abbrev pub IsSafeStart : Option (World d) → Type 0
  IsSafeStart none = Unit
  IsSafeStart (some w) = IsSafe w

  run_from-IsSafe :
      (o : Option (World d)) (es : List Event)
      → All IsSaneEvent es
      → IsSafeStart o
      → NoStale (run_from d padding write_ok o es) IsSafeStart
  run_from-IsSafe none es sane safe = tt
  run_from-IsSafe (some w) es sane safe =
      bind-Within IsFresh (run d padding write_ok w es) (λ w'. ok (some w')) IsSafe IsSafeStart
        (run-IsSafe w es sane safe) (λ w' safe'. safe')

  conn_init-IsSafe :
      (s : Control T) (r : Option (World d) × Ledger) (sys : System)
      → AreWellFormed d laws 0 s
      → Outcomes sys s r
      → IsSafeStart r.0
  conn_init-IsSafe s (none, l) sys wf outcomes = tt
  conn_init-IsSafe s (some w, l) sys wf outcomes = (outcomes.0, rw outcomes.2 wf)

  -- DPDK is taken to behave as documented, and a new table to be empty. The whole program, from any
  -- configuration file, whatever the system calls return, on any sequence of turns of the loop,
  -- packets for the cores and signals, each of which is one step, and with the same padding bytes,
  -- any, in the quad of each command: if it gets through them, every core is well-formed and the
  -- message and its NUL fit in the buffer; if it does not, it ends by `exit`, a NULL pointer or an
  -- overrun, and not by a pointer to a connection that was freed or by `rte_panic`. The packets are
  -- sane: the IPv4 length covers the headers, the data lie in the buffer, and they are at most 100
  -- bytes. That `send_p` gives a buffer back which the driver has is no fault of the model.
  pub main-IsSafe :
      (b : Boot T) (boot : IsBoot d b) (file : Option (List ℕ)) (lcores : List (ℕ × Core T))
      (sys : System) (events : List Event)
      → All IsSaneEvent events
      → NoStale (main d padding write_ok b file lcores sys events) IsSafeStart
  unfolding main
  main-IsSafe b boot file lcores sys events sane =
      bind-Within IsFresh (config_init d b file lcores)
        (λ s. run_from d padding write_ok (conn_init sys s nothing).0 events)
        (λ s. All (IsWellFormed d) s.tcp_list) IsSafeStart
        (config_init-Started d b laws boot file lcores)
        (λ s wf.
          run_from-IsSafe (conn_init sys s nothing).0 events sane
            (conn_init-IsSafe s (conn_init sys s nothing) sys wf (conn_init-Outcomes sys s)))
