-- ===== src/Tests/Runs.antt =====
-- Runs of the receive loop.
use tcp_dpdk.Base.{ℕ, ◌≡◌, refl, List, [], ◌∷◌, Option, none, some, Outcome, ok, fault}
use tcp_dpdk.Flags.{has_flag, set_flag, clear_flag}
use tcp_dpdk.Seq.{is_between_wrapped}
use tcp_dpdk.Segment.{segment_check}
use tcp_dpdk.Connection.{Connection, TcpState, established, syn_recv, last_ack}
use tcp_dpdk.Tcp.{Core}
use tcp_dpdk.Tx.{tcp_tx_packets}
use tcp_dpdk.Handlers.{
  handle_tcp_listen, listen_at, open_and_send, init_listen, handle_tcp_syn_recv, acks_sent,
  count_connection, print_data, handle_tcp_establish, reply, handle_tcp_last_ack,
}
use tcp_dpdk.Rx.{
  rx_packet, receive_segment, receive_at, dispatch_at, dispatch, finish_last_ack, rx_burst, quad_of,
}
use tcp_dpdk.Tests.Platform.{platform, find}
use tcp_dpdk.Tests.Traffic.{idle_core, syn, ack, push, fin, last}

-- What a run leaves of the state of the packets' connection, and what it has sent: the flags of
-- each segment.
abbrev states : Outcome (Core (List (tcp_dpdk.Connection.Quad × ℕ))) → Option (Option TcpState)
states (ok s) = some (elim (find s.tcp.rte_hash (quad_of syn)) [
  | none ↦ none
  | some p ↦ elim (s.heap p) [ none ↦ none | some c ↦ some c.tcp_state ]
])
states (fault e) = none

passive_open : states (rx_burst platform idle_core (syn ∷ ack ∷ [])) ≡ some (some established)
unfolding rx_burst rx_packet receive_segment receive_at dispatch_at dispatch handle_tcp_listen
    listen_at open_and_send init_listen handle_tcp_syn_recv acks_sent count_connection
    tcp_tx_packets is_between_wrapped segment_check has_flag set_flag clear_flag
passive_open = refl

passive_close :
    states (rx_burst platform idle_core (syn ∷ ack ∷ push ∷ fin ∷ [])) ≡ some (some last_ack)
unfolding rx_burst rx_packet receive_segment receive_at dispatch_at dispatch handle_tcp_listen
    listen_at open_and_send init_listen handle_tcp_syn_recv acks_sent count_connection
    tcp_tx_packets is_between_wrapped segment_check has_flag set_flag clear_flag
    handle_tcp_establish print_data reply
passive_close = refl

closed : states (rx_burst platform idle_core (syn ∷ ack ∷ push ∷ fin ∷ last ∷ [])) ≡ some none
unfolding rx_burst rx_packet receive_segment receive_at dispatch_at dispatch handle_tcp_listen
    listen_at open_and_send init_listen handle_tcp_syn_recv acks_sent count_connection
    tcp_tx_packets is_between_wrapped segment_check has_flag set_flag clear_flag
    handle_tcp_establish print_data reply finish_last_ack handle_tcp_last_ack
closed = refl
