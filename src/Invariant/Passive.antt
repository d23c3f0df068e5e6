-- ===== src/Invariant/Passive.antt =====
-- A peer opens a connection: its SYN, our answer, and its acknowledgement.
use tcp_dpdk.Base.{
  ℕ, ◌+◌, ◌%◌, ◌==◌, ◌≡◌, refl, ap, sym, ◌∙◌, inr, true, [], ◌∷◌, ◌++◌, Option, none, some, ok,
  add32, int_to_size, u16_mod, ◌<◌, u64_mod, Returns, bind-Within, ◌>>=◌, arith,
}
use tcp_dpdk.Flags.{syn_flag, ack_flag, has_flag, set_flag, clear_flag}
use tcp_dpdk.Connection.{Connection, Quad, quad_eq, Heap, syn_recv, established}
use tcp_dpdk.Dpdk.{Dpdk, IsDpdk}
use tcp_dpdk.Segment.{segment_check}
use tcp_dpdk.Tcp.{Frame, Tcp, Session, Core}
use tcp_dpdk.Tx.{fill_headers, frame_of}
use tcp_dpdk.Tx.Effects.{burst, counted, tcp_tx_packets-ok, transmitted_syn}
use tcp_dpdk.Handlers.{
  store, acks_sent, seq_of, ackn_of, init_listen, open_and_send, listen_at, handle_tcp_listen,
  handle_tcp_syn_recv, count_connection,
}
use tcp_dpdk.Rx.{
  Packet, size_of, quad_of, dispatch, dispatch_at, receive_at, receive_segment, free_mbuf,
  rx_packet, rx_burst,
}
use tcp_dpdk.Invariant.{quad_eq_iff}
use tcp_dpdk.Invariant.Cases.{IsSane}
use tcp_dpdk.Invariant.Handshake.{acks_sent_handshake, segment_check_next}

module _ {T : Type 0} (d : Dpdk T) where
  -- A TCP segment in a frame for the core.
  pub record IsForUs (tcp : Tcp T) (pkt : Packet) : Type 0 where
    pub mac : pkt.d_addr ≡ tcp.nic.mac
    pub ipv4 : pkt.ether_type ≡ d.be_to_cpu_16 0x0800
    pub ip : tcp.nic.ip ≡ pkt.ipv4_hdr.dst_addr
    pub tcp_proto : pkt.ipv4_hdr.next_proto_id ≡ 6

  -- Such a frame goes to the segment's connection, and its buffer is given back.
  rx_packet_ours :
      (s : Core T) (pkt : Packet)
      → IsForUs s.tcp pkt
      → rx_packet d s pkt ≡ (receive_segment d s pkt >>= λ u. ok (free_mbuf d u pkt.mbuf))
  unfolding rx_packet
  rx_packet_ours s pkt ours =
      let a : (pkt.d_addr == s.tcp.nic.mac) ≡ true = ground (arith, ours.mac) in
      let b : (pkt.ether_type == d.be_to_cpu_16 0x0800) ≡ true = ground (arith, ours.ipv4) in
      let c : (s.tcp.nic.ip == pkt.ipv4_hdr.dst_addr) ≡ true = ground (arith, ours.ip) in
      let e : (pkt.ipv4_hdr.next_proto_id == 6) ≡ true = ground (arith, ours.tcp_proto) in
      rw (a, b, c, e) refl

  pub rx_packet-IsForUs :
      (s u : Core T) (pkt : Packet)
      → IsForUs s.tcp pkt
      → receive_segment d s pkt ≡ ok u
      → rx_packet d s pkt ≡ ok (free_mbuf d u pkt.mbuf)
  rx_packet-IsForUs s u pkt ours received = rx_packet_ours s pkt ours ∙ rw received refl

  -- Giving the buffer back changes neither the state nor the memory.
  pub Returns-IsForUs :
      (s : Core T) (pkt : Packet) (P : Tcp T → Heap → Type 0)
      → IsForUs s.tcp pkt
      → Returns (receive_segment d s pkt) (λ u. P u.tcp u.heap)
      → Returns (rx_packet d s pkt) (λ u. P u.tcp u.heap)
  Returns-IsForUs s pkt P ours received = rw (rx_packet_ours s pkt ours) (
      bind-Within (λ x. ⊥) (receive_segment d s pkt) (λ u. ok (free_mbuf d u pkt.mbuf))
        (λ u. P u.tcp u.heap) (λ u. P u.tcp u.heap) received (λ u h. h))

  -- The connection that a SYN opens in memory that holds `garbage`, once it is answered.
  abbrev pub opened : Connection → Packet → Connection
  opened garbage pkt = counted d syn_flag (
      fill_headers d (init_listen d garbage (quad_of pkt) pkt.tcp_hdr)
        (int_to_size (size_of d pkt)))

  -- The core with that connection at `p`, in the table `u`.
  abbrev pub with_opened : Core T → Packet → ℕ → Connection → T → Core T
  with_opened s pkt p garbage u =
      let size = int_to_size (size_of d pkt) in
      let t : Session T = record {
        tcp = s.tcp;
        connection = init_listen d garbage (quad_of pkt) pkt.tcp_hdr;
      } in
      record s {
        tcp = record (burst d t pkt.bytes size) { rte_hash = u };
        heap = store s.heap p (some (opened garbage pkt));
      }

  module _ (laws : IsDpdk d) where
    pub receive_segment-opened :
        (s : Core T) (pkt : Packet) (p : ℕ) (garbage : Connection) (u : T)
        → d.hash_lookup_data s.tcp.rte_hash (quad_of pkt) ≡ none
        → d.malloc s.heap ≡ some (p, garbage)
        → d.hash_add_key_data s.tcp.rte_hash (quad_of pkt) p ≡ some u
        → pkt.tcp_hdr.tcp_flags ≡ syn_flag
        → IsSane d pkt
        → receive_segment d s pkt ≡ ok (with_opened s pkt p garbage u)
    unfolding receive_segment receive_at handle_tcp_listen listen_at open_and_send init_listen
        has_flag clear_flag set_flag
    receive_segment-opened s pkt p garbage u no_entry from added syn sane =
        let is_syn : (pkt.tcp_hdr.tcp_flags == syn_flag) ≡ true = ground (arith, syn) in
        let size = int_to_size (size_of d pkt) in
        let c = init_listen d garbage (quad_of pkt) pkt.tcp_hdr in
        rw
          (
            no_entry,
            is_syn,
            from,
            tcp_tx_packets-ok d laws (record { tcp = s.tcp; connection = c }) pkt.bytes size sane,
            transmitted_syn d c size refl refl,
          )
          (rw added refl)

    -- The core once the connection `c` at `p` is established, at the time `now`.
    abbrev pub with_established : Core T → ℕ → Connection → ℕ → Core T
    with_established s p c now = record s {
      tcp = count_connection s.tcp now;
      heap = store s.heap p (some (record c { tcp_state = established }));
    }

    pub receive_segment-established :
        (s : Core T) (pkt : Packet) (p : ℕ) (c : Connection)
        → d.hash_lookup_data s.tcp.rte_hash (quad_of pkt) ≡ some p
        → s.heap p ≡ some c
        → c.tcp_state ≡ syn_recv
        → c.send.una ≡ 0
        → c.send.nxt ≡ 1
        → c.recv.wnd < u16_mod
        → c.recv.nxt ≡ seq_of d pkt.tcp_hdr
        → ackn_of d pkt.tcp_hdr ≡ 1
        → size_of d pkt ≡ 0
        → receive_segment d s pkt ≡ ok (with_established s p c pkt.now)
    unfolding receive_segment receive_at dispatch_at dispatch handle_tcp_syn_recv
    receive_segment-established s pkt p c entry at_p state una nxt window next acks empty =
        let passes : segment_check c 0 (seq_of d pkt.tcp_hdr) ≡ true =
          segment_check_next d laws c (seq_of d pkt.tcp_hdr) next
            (laws.be_to_cpu_32-lt pkt.tcp_hdr.sent_seq) window in
        let taken : acks_sent c (ackn_of d pkt.tcp_hdr) ≡ true =
          (acks_sent_handshake c (ackn_of d pkt.tcp_hdr) una nxt
              (laws.be_to_cpu_32-lt pkt.tcp_hdr.recv_ack)).1
            (inr acks) in
        rw (entry, at_p)
          (ap (λ st. dispatch d st s p c pkt) state ∙ (rw (empty, passes, taken) refl))

    -- What `t` has that `s` has not: the connection at `p`, one more that is counted, and a frame.
    pub record IsConnected (s t : Core T) (syn : Packet) (p : ℕ) : Type 0 where
      pub connection : Connection
      pub frame : Frame
      pub entry : d.hash_lookup_data t.tcp.rte_hash (quad_of syn) ≡ some p
      pub at_p : t.heap p ≡ some connection
      pub state : connection.tcp_state ≡ established
      pub expected : connection.recv.nxt ≡ add32 (seq_of d syn.tcp_hdr) 1
      pub sent_one : connection.send.nxt ≡ 1
      pub counted_one : t.tcp.stats.connection_count ≡ (s.tcp.stats.connection_count + 1) % u64_mod
      pub answered : t.tcp.sent ≡ s.tcp.sent ++ frame ∷ []
      pub flags : frame.tcp_hdr.tcp_flags ≡ set_flag syn_flag ack_flag
      pub seqn : d.be_to_cpu_32 frame.tcp_hdr.sent_seq ≡ 0
      pub ackn : d.be_to_cpu_32 frame.tcp_hdr.recv_ack ≡ add32 (seq_of d syn.tcp_hdr) 1

    pub entry_added :
        (t u : T) (q k : Quad) (p : ℕ)
        → d.hash_add_key_data t q p ≡ some u
        → k ≡ q
        → d.hash_lookup_data u k ≡ some p
    entry_added t u q k p added same =
        let eq : quad_eq q k ≡ true = (quad_eq_iff q k).1 (sym same) in
        laws.lookup-add t u q k p added ∙ rw eq refl

    pub stored : (h : Heap) (p : ℕ) (o : Option Connection) → store h p o p ≡ o
    stored h p o = ground arith

    -- DPDK is taken to behave as documented. A core without a connection for a quad, with memory, a
    -- place in its table and a buffer to spare, gets two segments of that quad in one burst: a SYN,
    -- and behind it the segment without data that has the number behind the SYN and acknowledges 1.
    -- The burst is handled, the connection is then in the table and established, expecting the
    -- number behind the SYN and with 1 to send next; one more connection is counted; and one frame
    -- has gone out, SYN and ACK with number 0, which acknowledges the SYN.
    pub rx_burst-IsConnected :
        (s : Core T) (syn ack : Packet) (p : ℕ) (garbage : Connection) (u : T)
        → IsForUs s.tcp syn
        → IsForUs s.tcp ack
        → quad_of ack ≡ quad_of syn
        → d.hash_lookup_data s.tcp.rte_hash (quad_of syn) ≡ none
        → d.malloc s.heap ≡ some (p, garbage)
        → d.hash_add_key_data s.tcp.rte_hash (quad_of syn) p ≡ some u
        → d.mbuf_raw_alloc s.tcp.mbuf_calls ≡ true
        → syn.tcp_hdr.tcp_flags ≡ syn_flag
        → IsSane d syn
        → seq_of d ack.tcp_hdr ≡ add32 (seq_of d syn.tcp_hdr) 1
        → ackn_of d ack.tcp_hdr ≡ 1
        → size_of d ack ≡ 0
        → Returns (rx_burst d s (syn ∷ ack ∷ [])) (λ t. IsConnected s t syn p)
    unfolding rx_burst fill_headers init_listen count_connection
    rx_burst-IsConnected s syn ack p garbage u syn_ours ack_ours same no_entry from added free
          is_syn sane next acks empty =
        let t1 = free_mbuf d (with_opened s syn p garbage u) syn.mbuf in
        let c = opened garbage syn in
        let t2 = with_established t1 p c ack.now in
        let number = laws.be_to_cpu_32-lt syn.tcp_hdr.sent_seq in
        let first =
          rx_packet-IsForUs s (with_opened s syn p garbage u) syn syn_ours
            (receive_segment-opened s syn p garbage u no_entry from added is_syn sane) in
        let ours : IsForUs t1.tcp ack = record {
          mac = ack_ours.mac;
          ipv4 = ack_ours.ipv4;
          ip = ack_ours.ip;
          tcp_proto = ack_ours.tcp_proto;
        } in
        let second = rx_packet-IsForUs t1 t2 ack ours (
          receive_segment-established t1 ack p c
            (entry_added s.tcp.rte_hash u (quad_of syn) (quad_of ack) p added same)
            (stored s.heap p (some c)) refl refl refl (laws.be_to_cpu_16-lt syn.tcp_hdr.rx_win)
            (sym next) acks empty) in
        rw (first, second)
          (record {
            connection = record c { tcp_state = established };
            frame =
                frame_of d
                  (record {
                    tcp = s.tcp;
                    connection =
                        fill_headers d (init_listen d garbage (quad_of syn) syn.tcp_hdr)
                          (int_to_size (size_of d syn));
                  })
                  syn.bytes (int_to_size (size_of d syn));
            entry = entry_added s.tcp.rte_hash u (quad_of syn) (quad_of syn) p added refl;
            at_p = stored t1.heap p (some (record c { tcp_state = established }));
            state = refl;
            expected = refl;
            sent_one = refl;
            counted_one = refl;
            answered = rw free refl;
            flags = refl;
            seqn = laws.be_to_cpu_32-cpu_to_be_32 0 (omega arith);
            ackn = laws.be_to_cpu_32-cpu_to_be_32 (add32 (seq_of d syn.tcp_hdr) 1) (omega arith);
          })
