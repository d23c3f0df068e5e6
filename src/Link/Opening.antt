-- ===== src/Link/Opening.antt =====
-- The segments of a handshake, on each side.
use tcp_dpdk.Base.{
  ℕ, ◌+◌, ◌≡◌, ◌<◌, refl, ap, sym, ◌∙◌, inr, true, [], u32_mod, add32, take, int_to_size, Returns,
  subst, arith,
}
use tcp_dpdk.Flags.{syn_flag, ack_flag, has_flag, set_flag, clear_flag}
use tcp_dpdk.Connection.{Quad, established, syn_sent, syn_recv}
use tcp_dpdk.Dpdk.{Dpdk, IsDpdk}
use tcp_dpdk.Segment.{segment_check}
use tcp_dpdk.Tcp.{Session, Core}
use tcp_dpdk.Tx.{fill_headers}
use tcp_dpdk.Tx.Effects.{IsSized, counted, tcp_tx_packets-ok, transmitted_syn}
use tcp_dpdk.Handlers.{
  initial_window, seq_of, ackn_of, acks_sent, take_syn_ack, answering, reply, handle_tcp_syn_sent,
  init_listen, open_and_send, count_connection,
}
use tcp_dpdk.Rx.{Packet, size_of, quad_of, dispatch, receive_segment}
use tcp_dpdk.Active.{init_connect, connect_at, connect_quad, active_connect, connect_unless}
use tcp_dpdk.Invariant.Handshake.{acks_sent_handshake, segment_check_next}
use tcp_dpdk.Invariant.Passive.{
  entry_added, stored, opened, receive_segment-opened, receive_segment-established,
}
use tcp_dpdk.Link.{IsAmple}
use tcp_dpdk.Link.Ends.{HasEnd, Reads, IsQuiet, SentBy, HasRoom}
use tcp_dpdk.Link.Sending.{plain-SentBy}
use tcp_dpdk.Link.Packets.{burst-SentBy, receive_segment-dispatch}

module _ {T : Type 0} (d : Dpdk T) (laws : IsDpdk d) (ample : IsAmple d) where
  connect_unless-SentBy :
      (s : Core T) (q : Quad)
      → HasRoom d q s
      → Returns
          (connect_unless d s q (d.hash_lookup_data s.tcp.rte_hash q))
          (λ t. HasEnd d q syn_sent 0 1 0 t × SentBy d s.tcp t.tcp q 0 0 syn_flag 0 [])
  unfolding connect_unless connect_at init_connect open_and_send has_flag clear_flag fill_headers
  connect_unless-SentBy s q room =
      let c = init_connect d room.garbage q in
      let t : Session T = record { tcp = s.tcp; connection = c } in
      rw
        (
          room.no_entry,
          room.from,
          tcp_tx_packets-ok d laws t [] 0 (omega arith, omega arith),
          transmitted_syn d c 0 refl refl,
          room.added,
        )
        (
          record {
            place = room.place;
            connection = counted d syn_flag (fill_headers d c 0);
            entry = entry_added d laws s.tcp.rte_hash room.table q q room.place room.added refl;
            at_p = stored d laws s.heap room.place _;
            is_in = refl;
            addressed = (refl, refl, refl, refl, refl, refl);
            numbers = (refl, refl, refl, refl);
          },
          burst-SentBy d laws ample t q [] [] 0 0 syn_flag 0 0 (omega arith)
              (refl, refl, refl, refl, refl, refl) refl refl refl refl refl,
        )

  -- The SYN of `active_connect`.
  pub active_connect-SentBy :
      (s : Core T) (q : Quad) (padding : ℕ)
      → padding ≡ q.padding
      → s.tcp.nic.ip ≡ q.dip
      → HasRoom d q s
      → Returns
          (active_connect d s q.sip q.sport q.dport padding)
          (λ t. HasEnd d q syn_sent 0 1 0 t × SentBy d s.tcp t.tcp q 0 0 syn_flag 0 [])
  unfolding active_connect
  active_connect-SentBy s q padding keyed ours room =
      let is_q : connect_quad d s q.sip q.sport q.dport padding ≡ q =
        ap (λ ip. record q { dip = ip; padding = padding }) ours
        ∙ ap (λ x. record q { padding = x }) keyed in
      subst
        (λ k.
          Returns (connect_unless d s k (d.hash_lookup_data s.tcp.rte_hash k))
            (λ t. HasEnd d q syn_sent 0 1 0 t × SentBy d s.tcp t.tcp q 0 0 syn_flag 0 []))
        (sym is_q) (connect_unless-SentBy s q room)

  segment-SynSent :
      (s : Core T) (pkt : Packet) (n : ℕ)
      → seq_of d pkt.tcp_hdr ≡ n
      → pkt.tcp_hdr.tcp_flags ≡ syn_flag
      → size_of d pkt ≡ 0
      → d.be_to_cpu_16 pkt.tcp_hdr.rx_win ≡ initial_window
      → n + 1 < u32_mod
      → HasRoom d (quad_of pkt) s
      → Returns (receive_segment d s pkt) (λ t.
        HasEnd d (quad_of pkt) syn_recv 0 1 (n + 1) t
        × SentBy d s.tcp t.tcp (quad_of pkt) 0 (n + 1) (set_flag syn_flag ack_flag) 0 [])
  unfolding init_listen has_flag clear_flag fill_headers
  segment-SynSent s pkt n number syn empty window range room =
      let c = init_listen d room.garbage (quad_of pkt) pkt.tcp_hdr in
      let size = int_to_size (size_of d pkt) in
      let behind : add32 (seq_of d pkt.tcp_hdr) 1 ≡ n + 1 =
        ap (λ x. add32 x 1) number ∙ omega (arith, range) in
      let none_there : size ≡ 0 = ap int_to_size empty in
      let sized : IsSized pkt.bytes size = (omega (arith, none_there), omega (arith, none_there)) in
      rw
        (receive_segment-opened d laws s pkt room.place room.garbage room.table room.no_entry
          room.from room.added syn sized)
        (
          record {
            place = room.place;
            connection = opened d room.garbage pkt;
            entry =
                entry_added d laws s.tcp.rte_hash room.table (quad_of pkt) (quad_of pkt) room.place
                  room.added refl;
            at_p = stored d laws s.heap room.place _;
            is_in = refl;
            addressed = (refl, refl, refl, refl, refl, refl);
            numbers = (refl, refl, behind, window);
          },
          burst-SentBy d laws ample (record { tcp = s.tcp; connection = c }) (quad_of pkt) pkt.bytes
              [] 0 (n + 1) (set_flag syn_flag ack_flag) size 0 sized.1
              (refl, refl, refl, refl, refl, refl) refl behind refl none_there
              (ap (λ k. take k pkt.bytes) none_there),
        )

  -- A SYN gets SYN and ACK as its answer.
  pub receive_segment-SynSent :
      (s : Core T) (q : Quad) (pkt : Packet) (n : ℕ)
      → Reads d q n 0 syn_flag 0 [] pkt
      → n + 1 < u32_mod
      → HasRoom d q s
      → Returns (receive_segment d s pkt) (λ t.
        HasEnd d q syn_recv 0 1 (n + 1) t
        × SentBy d s.tcp t.tcp q 0 (n + 1) (set_flag syn_flag ack_flag) 0 [])
  receive_segment-SynSent s q pkt n reads range room =
      subst
        (λ k. Returns (receive_segment d s pkt) (λ t.
          HasEnd d k syn_recv 0 1 (n + 1) t
          × SentBy d s.tcp t.tcp k 0 (n + 1) (set_flag syn_flag ack_flag) 0 []))
        reads.quad
        (segment-SynSent s pkt n reads.number reads.marks reads.measure reads.window range
          (subst (λ k. HasRoom d k s) (sym reads.quad) room))

  -- SYN and ACK for our SYN get an ACK, and the connection is established.
  pub receive_segment-Acknowledged :
      (s : Core T) (q : Quad) (pkt : Packet) (n flags : ℕ)
      → HasEnd d q syn_sent 0 1 0 s
      → Reads d q n 1 flags 0 [] pkt
      → n + 1 < u32_mod
      → Returns (receive_segment d s pkt) (λ t.
        HasEnd d q established 2 1 (n + 1) t × SentBy d s.tcp t.tcp q 1 (n + 1) ack_flag 0 [])
  unfolding dispatch handle_tcp_syn_sent take_syn_ack reply has_flag fill_headers
  receive_segment-Acknowledged s q pkt n flags h reads range =
      let c0 = h.connection in
      let seq = seq_of d pkt.tcp_hdr in
      let c = record c0 { recv = record c0.recv { nxt = seq } } in
      let behind : add32 seq 1 ≡ n + 1 = ap (λ x. add32 x 1) reads.number ∙ omega (arith, range) in
      let size = int_to_size (size_of d pkt) in
      let none_there : size ≡ 0 = ap int_to_size reads.measure in
      let passes : segment_check c 0 seq ≡ true =
        segment_check_next d laws c seq refl (laws.be_to_cpu_32-lt pkt.tcp_hdr.sent_seq)
          (omega (arith, h.numbers.3)) in
      let taken : acks_sent c (ackn_of d pkt.tcp_hdr) ≡ true =
        (acks_sent_handshake c (ackn_of d pkt.tcp_hdr) h.numbers.0 h.numbers.1
            (laws.be_to_cpu_32-lt pkt.tcp_hdr.recv_ack)).1
          (inr reads.acknowledged) in
      let r =
        answering
          (record c {
            tcp_state = established;
            send = record c.send { una = add32 (ackn_of d pkt.tcp_hdr) 1 };
          })
          established (add32 seq 1) ack_flag in
      rw (receive_segment-dispatch d laws s pkt q syn_sent 0 1 0 h reads.quad, passes, taken)
        (plain-SentBy d laws ample s q h.place r established 2 1 (n + 1) ack_flag size 0 pkt.bytes
          [] h.entry (omega (arith, none_there), omega (arith, none_there)) h.addressed
          (ap (λ x. add32 x 1) reads.acknowledged, h.numbers.1, behind, h.numbers.3) refl refl refl
          refl none_there (ap (λ k. take k pkt.bytes) none_there))

  -- The ACK of our SYN, and the connection is established on this side too.
  pub receive_segment-Opened :
      (s : Core T) (q : Quad) (pkt : Packet) (n flags : ℕ)
      → HasEnd d q syn_recv 0 1 n s
      → Reads d q n 1 flags 0 [] pkt
      → Returns
          (receive_segment d s pkt)
          (λ t. HasEnd d q established 0 1 n t × IsQuiet d s.tcp t.tcp)
  unfolding count_connection
  receive_segment-Opened s q pkt n flags h reads =
      let (una, nxt, expected, window) = h.numbers in
      rw
        (receive_segment-established d laws s pkt h.place h.connection
          (ap (d.hash_lookup_data s.tcp.rte_hash) reads.quad ∙ h.entry) h.at_p h.is_in una nxt
          (omega (arith, window)) (expected ∙ sym reads.number) reads.acknowledged reads.measure)
        (
          record {
            place = h.place;
            connection = record h.connection { tcp_state = established };
            entry = h.entry;
            at_p = stored d laws s.heap h.place _;
            is_in = refl;
            addressed = h.addressed;
            numbers = h.numbers;
          },
          (refl, refl),
        )
