-- ===== src/Rx.antt =====
-- `tcp_rx_packets` of src/tcp/tcp.c: the receive loop of a core, and its dispatch on the state.
use tcp_dpdk.Base.{
  ℕ, ◌+◌, ◌-◌, ◌%◌, Bool, true, false, not, List, [], ◌∷◌, ◌++◌, ◌==◌, Option, none, some, u32_mod,
  Outcome, ok, fault, dangling, ◌>>=◌, if◌then◌else◌,
}
use tcp_dpdk.Connection.{
  Connection, Quad, Ipv4Hdr, TcpHdr, TcpState, established, syn_sent, syn_recv, fin_wait1,
  fin_wait2, last_ack,
}
use tcp_dpdk.Dpdk.{Dpdk}
use tcp_dpdk.Tcp.{Session, Core}
use tcp_dpdk.Tx.{ipv4_hdr_size, header_bytes}
use tcp_dpdk.Handlers.{
  store, handle_tcp_listen, handle_tcp_syn_recv, handle_tcp_establish, handle_tcp_last_ack,
  handle_tcp_syn_sent, handle_tcp_fin_wait1, handle_tcp_fin_wait2,
}

-- A received buffer: its headers, and the bytes of the buffer from `data` on. `mbuf` tells the
-- buffers apart; `padding` is what the stack holds where `struct quad q` has its padding, and
-- `now` is what `clock()` returns.
pub record Packet : Type 0 where
  pub mbuf : ℕ
  pub d_addr : ℕ
  pub ether_type : ℕ
  pub ipv4_hdr : Ipv4Hdr
  pub tcp_hdr : TcpHdr
  pub bytes : List ℕ
  pub padding : ℕ
  pub now : ℕ

abbrev pub quad_of : Packet → Quad
quad_of pkt = record {
  sip = pkt.ipv4_hdr.src_addr;
  dip = pkt.ipv4_hdr.dst_addr;
  sport = pkt.tcp_hdr.src_port;
  dport = pkt.tcp_hdr.dst_port;
  padding = pkt.padding;
}

module _ {T : Type 0} (d : Dpdk T) where
  -- `int size`: a size_t, converted.
  abbrev pub size_of : Packet → ℕ
  size_of pkt =
      (d.be_to_cpu_16 pkt.ipv4_hdr.total_length
        + u32_mod
        - ipv4_hdr_size
        - header_bytes pkt.tcp_hdr.data_off)
      % u32_mod

  -- A handler that works on the connection at `p`.
  abbrev pub write_back : Core T → ℕ → Session T → Core T
  write_back s p t = record s { tcp = t.tcp; heap = store s.heap p (some t.connection) }

  abbrev pub at_connection :
      Core T → ℕ → Connection → (Session T → Outcome (Session T)) → Outcome (Core T)
  at_connection s p c handler = do
    t ← handler (record { tcp = s.tcp; connection = c })
    ok (write_back s p t)

  -- `case TCP_LAST_ACK`: the connection is freed, and its key deleted once more.
  unfoldable pub finish_last_ack : Core T → ℕ → Connection → Quad → Core T
  finish_last_ack s p c q =
      let t = handle_tcp_last_ack d (record { tcp = s.tcp; connection = c }) in
      record s {
        tcp = record t.tcp { rte_hash = d.hash_del_key t.tcp.rte_hash q };
        heap = store s.heap p none;
      }

  -- `switch (connection->tcpState)`
  unfoldable pub dispatch : TcpState → Core T → ℕ → Connection → Packet → Outcome (Core T)
  dispatch syn_recv s p c pkt =
      at_connection s p c λ t. handle_tcp_syn_recv d t pkt.tcp_hdr pkt.bytes (size_of pkt) pkt.now
  dispatch established s p c pkt =
      at_connection s p c λ t. handle_tcp_establish d t pkt.tcp_hdr pkt.bytes (size_of pkt)
  dispatch last_ack s p c pkt = ok (finish_last_ack s p c (quad_of pkt))
  dispatch syn_sent s p c pkt =
      at_connection s p c λ t. handle_tcp_syn_sent d t pkt.tcp_hdr pkt.bytes (size_of pkt)
  dispatch fin_wait1 s p c pkt =
      at_connection s p c λ t. handle_tcp_fin_wait1 d t pkt.tcp_hdr (size_of pkt)
  dispatch fin_wait2 s p c pkt =
      at_connection s p c λ t. handle_tcp_fin_wait2 d t pkt.tcp_hdr pkt.bytes (size_of pkt)
  dispatch _ s p c pkt = ok s

  unfoldable pub dispatch_at : Core T → ℕ → Option Connection → Packet → Outcome (Core T)
  dispatch_at s p none pkt = fault dangling
  dispatch_at s p (some c) pkt = dispatch c.tcp_state s p c pkt

  -- `rte_hash_add_key_data`, whose result is not looked at
  abbrev pub add_key : T → Quad → ℕ → Option T → T
  add_key t q p none = t
  add_key t q p (some u) = u

  abbrev pub register : Quad → Option ℕ → Core T → Core T
  register q none s = s
  register q (some p) s = record s {
    tcp = record s.tcp {
      rte_hash = add_key s.tcp.rte_hash q p (d.hash_add_key_data s.tcp.rte_hash q p);
    };
  }

  -- The segment's connection, or `none` for -ENOENT.
  unfoldable pub receive_at : Core T → Packet → Option ℕ → Outcome (Core T)
  receive_at s pkt none = do
    (p, s') ← handle_tcp_listen d s (quad_of pkt) pkt.tcp_hdr pkt.bytes (size_of pkt)
    ok (register (quad_of pkt) p s')
  receive_at s pkt (some p) = dispatch_at s p (s.heap p) pkt

  unfoldable pub receive_segment : Core T → Packet → Outcome (Core T)
  receive_segment s pkt = receive_at s pkt (d.hash_lookup_data s.tcp.rte_hash (quad_of pkt))

  abbrev pub free_mbuf : Core T → ℕ → Core T
  free_mbuf s mbuf = record s { freed = s.freed ++ mbuf ∷ [] }

  -- One round of the loop over a burst. A `continue` leaves the buffer unfreed.
  unfoldable pub rx_packet : Core T → Packet → Outcome (Core T)
  rx_packet s pkt =
      if not (pkt.d_addr == s.tcp.nic.mac)
      then ok s
      else if pkt.ether_type == d.be_to_cpu_16 0x0800
      then (if not (s.tcp.nic.ip == pkt.ipv4_hdr.dst_addr)
          then ok s
          else if pkt.ipv4_hdr.next_proto_id == 6
          then (do s' ← receive_segment s pkt; ok (free_mbuf s' pkt.mbuf))
          else ok (free_mbuf s pkt.mbuf))
      else ok (free_mbuf s pkt.mbuf)

  unfoldable pub rx_burst : Core T → List Packet → Outcome (Core T)
  rx_burst s [] = ok s
  rx_burst s (pkt ∷ pkts) = do s' ← rx_packet s pkt; rx_burst s' pkts

  -- `while (!(_tcp->dp_quit))`: what the loop reads from `dp_quit` before each burst, and the
  -- burst. Another thread sets the flag.
  unfoldable pub tcp_rx_packets : Core T → List (Bool × List Packet) → Outcome (Core T)
  tcp_rx_packets s [] = ok s
  tcp_rx_packets s ((quit, pkts) ∷ rounds) =
      let s' = record s { tcp = record s.tcp { dp_quit = quit } } in
      elim quit [ true ↦ ok s' | false ↦ (do s'' ← rx_burst s' pkts; tcp_rx_packets s'' rounds) ]
