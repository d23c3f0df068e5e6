-- ===== src/Link/Closing.antt =====
-- The segments that close a connection, on each side.
use tcp_dpdk.Base.{
  ℕ, ◌+◌, ◌≡◌, ◌≤◌, ◌<◌, refl, ap, sym, ◌∙◌, true, List, [], none, add32, u32_mod, Returns, arith,
}
use tcp_dpdk.Flags.{fin_flag, ack_flag, has_flag, set_flag}
use tcp_dpdk.Connection.{
  Connection, Quad, quad_eq, established, fin_wait1, fin_wait2, close_wait, last_ack,
}
use tcp_dpdk.Dpdk.{Dpdk, IsDpdk}
use tcp_dpdk.Segment.{segment_check}
use tcp_dpdk.Seq.{is_between_wrapped}
use tcp_dpdk.Tcp.{Core}
use tcp_dpdk.Tx.{fill_headers}
use tcp_dpdk.Tx.Effects.{tcp_tx_packets-ok, transmitted_plain}
use tcp_dpdk.Handlers.{
  seq_of, ackn_of, acks_sent, answering, reply, handle_tcp_establish, handle_tcp_fin_wait1,
  handle_tcp_last_ack,
}
use tcp_dpdk.Rx.{Packet, quad_of, dispatch, receive_segment, finish_last_ack}
use tcp_dpdk.Active.{closing, close_session, active_close}
use tcp_dpdk.Invariant.{quad_eq_iff}
use tcp_dpdk.Invariant.Handshake.{segment_check_next}
use tcp_dpdk.Invariant.Passive.{stored}
use tcp_dpdk.Link.{IsAmple, on_entry}
use tcp_dpdk.Link.Ends.{IsLeft, HasEnd, Reads, SentBy}
use tcp_dpdk.Link.Sending.{fin-SentBy}
use tcp_dpdk.Link.Packets.{keyed_lookup, burst-SentBy, receive_segment-dispatch}

-- The number behind ours is acknowledged, unless it is half the circle away from the oldest one.
acks_sent_fin :
    (c : Connection) (una ackn : ℕ)
    → c.send.una ≡ una
    → c.send.nxt ≡ ackn
    → una ≤ ackn
    → ackn + 1 < 0x8000_0000
    → acks_sent c ackn ≡ true
unfolding acks_sent is_between_wrapped
acks_sent_fin c una ackn is_una is_nxt below range = ground arith

module _ {T : Type 0} (d : Dpdk T) (laws : IsDpdk d) (ample : IsAmple d) where
  deleted : (t : T) (q k : Quad) → k ≡ q → d.hash_lookup_data (d.hash_del_key t k) q ≡ none
  deleted t q k is_q =
      let same : quad_eq k q ≡ true = (quad_eq_iff k q).1 is_q in
      laws.lookup-del t k q ∙ rw same refl

  -- Our FIN.
  pub active_close-SentBy :
      (s : Core T) (q : Quad) (padding una snd rcv : ℕ)
      → padding ≡ q.padding
      → HasEnd d q established una snd rcv s
      → snd + 1 < u32_mod
      → Returns (on_entry d s q padding λ t p. active_close d t p) (λ t.
        HasEnd d q fin_wait1 una (snd + 1) rcv t
        × SentBy d s.tcp t.tcp q snd rcv (set_flag fin_flag ack_flag) 0 [])
  unfolding active_close close_session
  active_close-SentBy s q padding una snd rcv keyed h range =
      rw (on_entry, keyed_lookup d laws q padding keyed s.tcp.rte_hash ∙ h.entry, h.at_p)
        (fin-SentBy d laws ample s q h.place (closing h.connection) fin_wait1 una snd rcv 0 [] []
          h.entry refl h.addressed h.numbers refl range)

  -- The peer's FIN is answered by ours.
  pub receive_segment-Fin :
      (s : Core T) (q : Quad) (pkt : Packet) (una snd rcv : ℕ)
      → HasEnd d q established una snd rcv s
      → Reads d q rcv snd (set_flag fin_flag ack_flag) 0 [] pkt
      → snd + 1 < u32_mod
      → rcv + 1 < u32_mod
      → Returns (receive_segment d s pkt) (λ t.
        HasEnd d q last_ack una (snd + 1) (rcv + 1) t
        × SentBy d s.tcp t.tcp q snd (rcv + 1) (set_flag fin_flag ack_flag) 0 [])
  unfolding dispatch handle_tcp_establish reply has_flag set_flag
  receive_segment-Fin s q pkt una snd rcv h reads range_a range_b =
      let c = h.connection in
      let seq = seq_of d pkt.tcp_hdr in
      let passes : segment_check c 0 seq ≡ true =
        segment_check_next d laws c seq (h.numbers.2 ∙ sym reads.number)
          (laws.be_to_cpu_32-lt pkt.tcp_hdr.sent_seq) (omega (arith, h.numbers.3)) in
      let behind : add32 seq 1 ≡ rcv + 1 =
        ap (λ x. add32 x 1) reads.number ∙ omega (arith, range_b) in
      let r = answering c close_wait (add32 seq 1) (set_flag fin_flag ack_flag) in
      rw
        (
          receive_segment-dispatch d laws s pkt q established una snd rcv h reads.quad,
          reads.measure,
          passes,
          reads.marks,
        )
        (fin-SentBy d laws ample s q h.place r last_ack una snd (rcv + 1) 0 pkt.bytes [] h.entry
          refl h.addressed (h.numbers.0, h.numbers.1, behind, h.numbers.3) refl range_a)

  -- FIN and ACK of our FIN get an ACK, and the connection leaves the table, but not the memory.
  pub receive_segment-Finished :
      (s : Core T) (q : Quad) (pkt : Packet) (una snd rcv : ℕ)
      → HasEnd d q fin_wait1 una snd rcv s
      → Reads d q rcv snd (set_flag fin_flag ack_flag) 0 [] pkt
      → una ≤ snd
      → snd + 1 < 0x8000_0000
      → rcv + 1 < u32_mod
      → Returns (receive_segment d s pkt) (λ t.
        (d.hash_lookup_data t.tcp.rte_hash q ≡ none)
        × IsLeft d q t.heap
        × SentBy d s.tcp t.tcp q snd (rcv + 1) ack_flag 0 [])
  unfolding dispatch handle_tcp_fin_wait1 reply has_flag fill_headers
  receive_segment-Finished s q pkt una snd rcv h reads below half range =
      let c = h.connection in
      let seq = seq_of d pkt.tcp_hdr in
      let passes : segment_check c 0 seq ≡ true =
        segment_check_next d laws c seq (h.numbers.2 ∙ sym reads.number)
          (laws.be_to_cpu_32-lt pkt.tcp_hdr.sent_seq) (omega (arith, h.numbers.3)) in
      let taken : acks_sent c (ackn_of d pkt.tcp_hdr) ≡ true =
        ap (acks_sent c) reads.acknowledged
        ∙ acks_sent_fin c una snd h.numbers.0 h.numbers.1 below half in
      let behind : add32 seq 1 ≡ rcv + 1 =
        ap (λ x. add32 x 1) reads.number ∙ omega (arith, range) in
      let r = answering c fin_wait2 (add32 seq 1) ack_flag in
      rw
        (
          receive_segment-dispatch d laws s pkt q fin_wait1 una snd rcv h reads.quad,
          reads.measure,
          passes,
          taken,
          tcp_tx_packets-ok d laws (record { tcp = s.tcp; connection = r }) [] 0
              (omega arith, omega arith),
          transmitted_plain d r 0 refl refl,
        )
        (
          deleted s.tcp.rte_hash q c.q h.addressed.0,
          (h.place, fill_headers d r 0, stored d laws s.heap h.place _, h.addressed.0),
          burst-SentBy d laws ample (record { tcp = s.tcp; connection = r }) q [] [] snd (rcv + 1)
              ack_flag 0 0 (omega arith) h.addressed h.numbers.1 behind refl refl refl,
        )

  -- Any segment ends LAST_ACK: the connection is forgotten and its memory given back.
  pub receive_segment-Ended :
      (s : Core T) (q : Quad) (pkt : Packet) (una snd rcv seqn ackn flags size : ℕ) (bytes : List ℕ)
      → (h : HasEnd d q last_ack una snd rcv s) → Reads d q seqn ackn flags size bytes pkt
      → Returns (receive_segment d s pkt) (λ t.
        (d.hash_lookup_data t.tcp.rte_hash q ≡ none)
        × (t.heap h.place ≡ none)
        × (t.tcp.printed ≡ s.tcp.printed))
  unfolding dispatch finish_last_ack handle_tcp_last_ack
  receive_segment-Ended s q pkt una snd rcv seqn ackn flags size bytes h reads =
      rw (receive_segment-dispatch d laws s pkt q last_ack una snd rcv h reads.quad)
        (deleted _ q (quad_of pkt) reads.quad, stored d laws s.heap h.place none, refl)
