-- ===== src/Tests/Witnesses.antt =====
-- The theorems at concrete inputs that meet their hypotheses.
use tcp_dpdk.Base.{
  ℕ, ◌≡◌, ◌≢◌, ◌<◌, ◌↔◌, ◌⊎◌, refl, true, false, [], ◌∷◌, none, some, sub32, OrNull, Returns, arith,
}
use tcp_dpdk.Flags.{has_flag, set_flag, clear_flag}
use tcp_dpdk.Seq.{is_between_wrapped}
use tcp_dpdk.Seq.Order.{is_between_wrapped_iff}
use tcp_dpdk.Segment.{segment_check}
use tcp_dpdk.Segment.Window.{segment_check_empty_iff}
use tcp_dpdk.Connection.{Connection, fin_wait2, close, close_wait, time_wait, closing}
use tcp_dpdk.Tcp.{Core}
use tcp_dpdk.Tx.{tcp_tx_packets}
use tcp_dpdk.Handlers.{handle_tcp_listen, listen_at, open_and_send, init_listen}
use tcp_dpdk.Rx.{rx_packet, receive_segment, receive_at, tcp_rx_packets, quad_of}
use tcp_dpdk.Invariant.{IsWellFormed}
use tcp_dpdk.Invariant.Calls.{rx_packet-IsWellFormed}
use tcp_dpdk.Invariant.Moves.{Moves, rx_packet-Moves}
use tcp_dpdk.Invariant.Reach.{Reach, here, next, receives, tcp_rx_packets-OrNull, reachable_states}
use tcp_dpdk.Tests.Platform.{Table, platform, platform-IsDpdk, blank}
use tcp_dpdk.Tests.Traffic.{idle_core, syn, ack, push, fin, last, result_or}

is_between_wrapped_example :
    (is_between_wrapped 0xffff_fff0 3 5 ≡ true)
    ↔ ((0 < sub32 3 0xffff_fff0) × (sub32 3 0xffff_fff0 < sub32 5 0xffff_fff0))
is_between_wrapped_example =
    is_between_wrapped_iff 0xffff_fff0 3 5 (omega arith) (omega arith) (omega arith) (omega arith)

segment_check_empty_example : (segment_check blank 0 0 ≡ true) ↔ (◌≡◌ {A = ℕ} 0 0 ⊎ (sub32 0 0 < 0))
segment_check_empty_example =
    segment_check_empty_iff blank 0 (omega arith) (omega arith) (omega arith)

pub idle-IsWellFormed : IsWellFormed platform idle_core
idle-IsWellFormed q p e = cc

rx_packet-IsWellFormed_example : Returns (rx_packet platform idle_core syn) (IsWellFormed platform)
rx_packet-IsWellFormed_example =
    rx_packet-IsWellFormed platform platform-IsDpdk idle_core syn idle-IsWellFormed
      ((7, blank), refl) (omega arith)

rx_packet-Moves_example :
    Returns (rx_packet platform idle_core syn) (Moves platform (quad_of syn) idle_core)
rx_packet-Moves_example =
    rx_packet-Moves platform platform-IsDpdk idle_core syn idle-IsWellFormed ((7, blank), refl)
      (omega arith)

tcp_rx_packets-OrNull_example :
    OrNull
      (tcp_rx_packets platform idle_core
        ((false, syn ∷ ack ∷ push ∷ []) ∷ (false, fin ∷ last ∷ []) ∷ []))
      (IsWellFormed platform)
tcp_rx_packets-OrNull_example =
    tcp_rx_packets-OrNull platform platform-IsDpdk idle_core
      ((false, syn ∷ ack ∷ push ∷ []) ∷ (false, fin ∷ last ∷ []) ∷ []) idle-IsWellFormed
      (omega arith)

-- The core after a SYN.
abbrev half_open : Core Table
unfolding rx_packet receive_segment receive_at handle_tcp_listen listen_at open_and_send init_listen
    tcp_tx_packets has_flag set_flag clear_flag
half_open = result_or idle_core (rx_packet platform idle_core syn)

abbrev half_open_connection : Connection
unfolding rx_packet receive_segment receive_at handle_tcp_listen listen_at open_and_send init_listen
    tcp_tx_packets has_flag set_flag clear_flag
half_open_connection = elim (half_open.heap 7) [ none ↦ blank | some c ↦ c ]

half_open-Reach : Reach platform idle_core half_open
unfolding rx_packet receive_segment receive_at handle_tcp_listen listen_at open_and_send init_listen
    tcp_tx_packets has_flag set_flag clear_flag
half_open-Reach = next here (receives syn (omega arith) refl)

reachable_states_example :
    (half_open_connection.tcp_state ≢ fin_wait2)
    × (half_open_connection.tcp_state ≢ close)
    × (half_open_connection.tcp_state ≢ close_wait)
    × (half_open_connection.tcp_state ≢ time_wait)
    × (half_open_connection.tcp_state ≢ closing)
unfolding rx_packet receive_segment receive_at handle_tcp_listen listen_at open_and_send init_listen
    tcp_tx_packets has_flag set_flag clear_flag
reachable_states_example =
    reachable_states platform platform-IsDpdk (quad_of syn) 7 half_open_connection (λ k. refl)
      half_open-Reach refl refl
