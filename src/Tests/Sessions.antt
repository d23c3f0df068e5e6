-- ===== src/Tests/Sessions.antt =====
-- The theorems on single connections at concrete inputs.
use tcp_dpdk.Base.{
  ◌+◌, ◌<◌, ◌≡◌, ◌⊎◌, ◌↔◌, refl, inl, true, false, [], ◌∷◌, ◌++◌, add32, Returns, codes, ◌==◌,
  arith,
}
use tcp_dpdk.Flags.{has_flag}
use tcp_dpdk.Seq.{is_between_wrapped}
use tcp_dpdk.Segment.{segment_check}
use tcp_dpdk.Connection.{
  Connection, TcpState, established, syn_recv, syn_sent, fin_wait1, fin_wait2,
}
use tcp_dpdk.Tcp.{Session, Frame}
use tcp_dpdk.Tx.{tcp_tx_packets}
use tcp_dpdk.Tx.Frames.{Carries, tcp_tx_packets-Carries}
use tcp_dpdk.Handlers.{
  handle_tcp_syn_recv, handle_tcp_syn_sent, handle_tcp_establish, handle_tcp_fin_wait1, seq_of,
  ackn_of,
}
use tcp_dpdk.Conn.{client, conn_poll_for_conn}
use tcp_dpdk.Conn.Clients.{conn_poll_for_conn_cases}
use tcp_dpdk.Invariant.{IsSound}
use tcp_dpdk.Invariant.Handshake.{Acks, handle_tcp_syn_recv_iff, handle_tcp_syn_sent_iff}
use tcp_dpdk.Invariant.FinWait.{handle_tcp_fin_wait1_iff}
use tcp_dpdk.Invariant.Data.{Acknowledges, handle_tcp_establish-Acknowledges}
use tcp_dpdk.Tests.Platform.{Table, platform, platform-IsDpdk, blank}
use tcp_dpdk.Tests.Traffic.{idle_core, ack, push}
use tcp_dpdk.Tests.Console.{idle_conn}

abbrev connection_in : TcpState → Connection
connection_in state = record blank {
  tcp_state = state;
  send = record blank.send { una = 0; nxt = 1 };
  recv = record blank.recv { nxt = 0; wnd = 64240 };
  tcp_hdr = record blank.tcp_hdr { tcp_flags = 0x10 };
}

abbrev session_in : TcpState → Session Table
session_in state = record { tcp = idle_core.tcp; connection = connection_in state }

half_open-IsSound : IsSound (connection_in syn_recv)
half_open-IsSound = record {
  live = (refl, refl, inl refl);
  una_range = omega arith;
  nxt_range = omega arith;
  expected_range = omega arith;
  window_range = omega arith;
  payload_room = refl;
}

asking-IsSound : IsSound (connection_in syn_sent)
asking-IsSound = record {
  live = (refl, refl);
  una_range = omega arith;
  nxt_range = omega arith;
  expected_range = omega arith;
  window_range = omega arith;
  payload_room = refl;
}

tcp_tx_packets-Carries_example :
    Returns (tcp_tx_packets platform (session_in established) (codes "hello") 5) (λ t.
      (f : Frame) × (t.tcp.sent ≡ (session_in established).tcp.sent ++ f ∷ [])
      × Carries platform (session_in established) (codes "hello") 5 f)
tcp_tx_packets-Carries_example =
    tcp_tx_packets-Carries platform platform-IsDpdk (session_in established) (codes "hello") 5
      (omega arith) refl (omega arith) (omega arith)

handle_tcp_syn_recv_example :
    Returns (handle_tcp_syn_recv platform (session_in syn_recv) ack.tcp_hdr [] 0 1000) (λ t.
      (t.connection.tcp_state ≡ established) ↔ (
        (segment_check (connection_in syn_recv) 0 (seq_of platform ack.tcp_hdr) ≡ true)
        × ((ackn_of platform ack.tcp_hdr ≡ 0) ⊎ (ackn_of platform ack.tcp_hdr ≡ 1))))
handle_tcp_syn_recv_example =
    handle_tcp_syn_recv_iff platform platform-IsDpdk (session_in syn_recv) ack.tcp_hdr [] 0 1000
      refl half_open-IsSound (omega arith)

handle_tcp_syn_sent_example :
    Returns (handle_tcp_syn_sent platform (session_in syn_sent) ack.tcp_hdr [] 0) (λ t.
      (t.tcp.mbuf_calls ≡ (session_in syn_sent).tcp.mbuf_calls + 1)
      × Acks platform platform-IsDpdk
          (session_in syn_sent)
          t
          (add32 (seq_of platform ack.tcp_hdr) 1)
      × (t.connection.recv.nxt ≡ add32 (seq_of platform ack.tcp_hdr) 1)
      × ((t.connection.tcp_state ≡ established)
          ↔ ((ackn_of platform ack.tcp_hdr ≡ 0) ⊎ (ackn_of platform ack.tcp_hdr ≡ 1)))
      × ((t.connection.tcp_state ≡ syn_sent)
          ⊎ (t.connection.send.una ≡ add32 (ackn_of platform ack.tcp_hdr) 1)))
handle_tcp_syn_sent_example =
    handle_tcp_syn_sent_iff platform platform-IsDpdk (session_in syn_sent) ack.tcp_hdr [] 0 refl
      asking-IsSound (omega arith)

handle_tcp_establish-Acknowledges_example :
    Returns
      (handle_tcp_establish platform (session_in established) push.tcp_hdr push.bytes 2)
      (λ t. Acknowledges platform (session_in established) t push.tcp_hdr push.bytes 2)
unfolding segment_check has_flag
handle_tcp_establish-Acknowledges_example =
    handle_tcp_establish-Acknowledges platform platform-IsDpdk (session_in established) push.tcp_hdr
      push.bytes 2 (omega arith) refl (omega arith) (omega arith, omega arith) refl

handle_tcp_fin_wait1_iff_example :
    Returns
      (handle_tcp_fin_wait1 platform (session_in fin_wait1) ack.tcp_hdr 0)
      (λ t. (t.connection.tcp_state ≡ fin_wait2) ↔ (1 + 1 < 0 + 0x8000_0000))
unfolding segment_check is_between_wrapped
handle_tcp_fin_wait1_iff_example =
    handle_tcp_fin_wait1_iff platform platform-IsDpdk (session_in fin_wait1) ack.tcp_hdr 0 refl
      (omega arith) (omega arith) refl refl

conn_poll_for_conn_example :
    (((conn_poll_for_conn (λ n. n == 0) idle_conn (client 5) true).1 ≡ true)
      × ((conn_poll_for_conn (λ n. n == 0) idle_conn (client 5) true).0.closed ≡ idle_conn.closed)
      × ((conn_poll_for_conn (λ n. n == 0) idle_conn (client 5) true).0.written
          ≡ (idle_conn.written ++ (5, idle_conn.welcome) ∷ []) ++ (5, idle_conn.prompt) ∷ []))
    ⊎ (((conn_poll_for_conn (λ n. n == 0) idle_conn (client 5) true).1 ≡ false)
        × ((conn_poll_for_conn (λ n. n == 0) idle_conn (client 5) true).0.closed
            ≡ idle_conn.closed ++ 5 ∷ []))
conn_poll_for_conn_example = conn_poll_for_conn_cases (λ n. n == 0) idle_conn 5 true
