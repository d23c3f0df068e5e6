-- ===== src/Active.antt =====
-- `active_connect`, `active_close` and `active_send_data` of src/tcp/tcp.c: what the command line
-- does to a connection.
use tcp_dpdk.Base.{
  ℕ, false, List, [], Option, none, some, Outcome, ok, fault, null_pointer, dangling, overrun,
  guard, leb, length, drop, ◌++◌, ◌>>=◌, ◌>>◌,
}
use tcp_dpdk.Flags.{fin_flag, syn_flag, psh_flag, ack_flag, set_flag}
use tcp_dpdk.Connection.{Connection, Quad, syn_sent, fin_wait1}
use tcp_dpdk.Dpdk.{Dpdk}
use tcp_dpdk.Tcp.{Session, Core}
use tcp_dpdk.Tx.{tcp_tx_packets, payload_size}
use tcp_dpdk.Handlers.{initial_window, open_and_send, enter}
use tcp_dpdk.Rx.{register, at_connection}

abbrev pub closing : Connection → Connection
closing c = record c { tcp_hdr = record c.tcp_hdr { tcp_flags = set_flag fin_flag ack_flag } }

abbrev pub loaded : Connection → List ℕ → Connection
loaded c bytes = record c {
  tcp_hdr = record c.tcp_hdr { tcp_flags = set_flag ack_flag psh_flag };
  payload = bytes ++ drop (length bytes) c.payload;
}

module _ {T : Type 0} (d : Dpdk T) where
  -- The assignments of `active_connect`, to memory that holds `garbage`.
  unfoldable pub init_connect : Connection → Quad → Connection
  init_connect garbage q = record garbage {
    q = q;
    tcp_state = syn_sent;
    send = record { una = 0; nxt = 0; wnd = initial_window; up = false; wl1 = 0; wl2 = 0; iss = 0 };
    recv = record { irs = 0; nxt = 0; wnd = initial_window; up = false };
    ipv4_hdr = record garbage.ipv4_hdr { src_addr = q.dip; dst_addr = q.sip };
    tcp_hdr = record garbage.tcp_hdr {
      src_port = q.dport;
      dst_port = q.sport;
      sent_seq = 0;
      rx_win = d.cpu_to_be_16 initial_window;
      tcp_flags = syn_flag;
    };
  }

  unfoldable pub connect_at : Core T → Quad → Option (ℕ × Connection) → Outcome (Core T)
  connect_at s q none = fault null_pointer
  connect_at s q (some (p, garbage)) = do
    s' ← open_and_send d s p (init_connect garbage q) [] 0
    ok (register d q (some p) s')

  -- The quad of the connection, as the peer's segments will show it.
  abbrev pub connect_quad : Core T → ℕ → ℕ → ℕ → ℕ → Quad
  connect_quad s dip dport sport padding = record {
    sport = dport;
    sip = dip;
    dport = sport;
    dip = s.tcp.nic.ip;
    padding = padding;
  }

  unfoldable pub connect_unless : Core T → Quad → Option ℕ → Outcome (Core T)
  connect_unless s q none = connect_at s q (d.malloc s.heap)
  connect_unless s q (some p) = ok s

  -- `padding` is what the stack holds in the padding of `q`.
  unfoldable pub active_connect : Core T → ℕ → ℕ → ℕ → ℕ → Outcome (Core T)
  active_connect s dip dport sport padding =
      let q = connect_quad s dip dport sport padding in
      connect_unless s q (d.hash_lookup_data s.tcp.rte_hash q)

  unfoldable pub close_session : Session T → Outcome (Session T)
  close_session s = do
    t ← tcp_tx_packets d (record s { connection = closing s.connection }) [] 0
    ok (enter fin_wait1 t)

  -- A call through a pointer that the caller found in the table.
  abbrev pub through :
      Core T → ℕ → Option Connection → (Session T → Outcome (Session T)) → Outcome (Core T)
  through s p none handler = fault dangling
  through s p (some c) handler = at_connection d s p c handler

  unfoldable pub active_close : Core T → ℕ → Outcome (Core T)
  active_close s p = through s p (s.heap p) close_session

  -- The bytes go to the front of `payload`, one by one; the struct has room for 100.
  unfoldable pub send_session : List ℕ → Session T → Outcome (Session T)
  send_session bytes s = do
    guard (leb (length bytes) payload_size) overrun
    tcp_tx_packets d (record s { connection = loaded s.connection bytes }) bytes (length bytes)

  unfoldable pub active_send_data : Core T → ℕ → List ℕ → Outcome (Core T)
  active_send_data s p bytes = through s p (s.heap p) (send_session bytes)
