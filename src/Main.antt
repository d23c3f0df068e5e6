-- ===== src/Main.antt =====
-- `main` and `exit_stats` of src/main.c: the loop over the control connection, and the cores beside
-- it. One event is one turn of the loop, a packet for a core, or a signal.
pub mod Safety
pub mod Exit
use tcp_dpdk.Base.{
  ℕ, zero, suc, Bool, true, false, List, [], ◌∷◌, Option, none, some, Outcome, ok, fault, ◌>>=◌,
  if◌then◌else◌,
}
use tcp_dpdk.Dpdk.{Dpdk}
use tcp_dpdk.Tcp.{Core}
use tcp_dpdk.Rx.{Packet, rx_packet}
use tcp_dpdk.Cli.{Control, cli_process, quit_all}
use tcp_dpdk.Conn.{Conn, Accept, Wait, Read, conn_poll_for_conn, conn_poll_for_msg}
use tcp_dpdk.Conn.Setup.{System, nothing, conn_init}
use tcp_dpdk.Startup.{Boot, config_init}

-- What the system calls of one turn return.
pub record Turn : Type 0 where
  pub accept : Accept
  pub added : Bool
  pub wait : Wait
  pub read : Read
  pub removed : Bool
  pub close_ok : Bool

pub data Event : Type 0 where
  turn : Turn → Event
  packet : ℕ → Packet → Event
  terminate : Event

module _ {T : Type 0} (d : Dpdk T) where
  -- The control connection, with the cores behind it.
  abbrev pub World : Type 0
  World = Conn (Control T)

  -- The i-th core takes a packet, maybe of a burst that it got before `dp_quit` was set; there is no
  -- core behind the last one.
  unfoldable pub core_packet : ℕ → Packet → List (Core T) → Outcome (List (Core T))
  core_packet i pkt [] = ok []
  core_packet zero pkt (s ∷ ss) = do s' ← rx_packet d s pkt; ok (s' ∷ ss)
  core_packet (suc i) pkt (s ∷ ss) = do ss' ← core_packet i pkt ss; ok (s ∷ ss')

  -- The signal handler.
  unfoldable pub exit_stats : Control T → Control T
  exit_stats s = record s { cp_quit = true; tcp_list = quit_all d s.tcp_list }

  -- `padding` is what the stack holds in the padding of a command's quad.
  module _ (padding : ℕ) where
    -- `msg_out` is empty before the call.
    abbrev pub msg_handle : Control T → List ℕ → Outcome (Control T × List ℕ)
    msg_handle s line = do
      u ← cli_process d 1048576 (record s { out = [] }) line padding
      ok (u, u.out)

    -- `write_ok` tells which calls of `write` succeed.
    module _ (write_ok : ℕ → Bool) where
      -- One turn of `while (!(c->cp_quit))`; the results of the two polls are not looked at.
      unfoldable pub main_turn : World → Turn → Outcome World
      main_turn w t = if w.state.cp_quit then ok w else (do
        r ←
            conn_poll_for_msg write_ok msg_handle (conn_poll_for_conn write_ok w t.accept t.added).0
              t.wait t.read t.removed t.close_ok
        ok r.0)

      unfoldable pub step : World → Event → Outcome World
      step w (turn t) = main_turn w t
      step w (packet i pkt) = do
        list ← core_packet i pkt w.state.tcp_list
        ok (record w { state = record w.state { tcp_list = list } })
      step w terminate = ok (record w { state = exit_stats w.state })

      unfoldable pub run : World → List Event → Outcome World
      run w [] = ok w
      run w (e ∷ es) = do w' ← step w e; run w' es

      -- `none` is the return after a NULL from `conn_init`.
      abbrev pub run_from : Option World → List Event → Outcome (Option World)
      run_from none events = ok none
      run_from (some w) events = do w' ← run w events; ok (some w')

      unfoldable pub main :
          Boot T
          → Option (List ℕ)
          → List (ℕ × Core T)
          → System
          → List Event
          → Outcome (Option World)
      main b file lcores sys events = do
        s ← config_init d b file lcores
        run_from (conn_init sys s nothing).0 events
