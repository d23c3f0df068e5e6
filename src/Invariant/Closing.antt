-- ===== src/Invariant/Closing.antt =====
-- A peer closes a connection: its FIN, our answer, and the segment behind it.
use tcp_dpdk.Base.{
  ℕ, ◌≡◌, ◌<◌, refl, ap, ◌∙◌, true, false, [], ◌∷◌, ◌++◌, none, some, ok, add32, u16_mod, u32_mod,
  Returns, arith,
}
use tcp_dpdk.Flags.{fin_flag, syn_flag, ack_flag, has_flag, set_flag, clear_flag}
use tcp_dpdk.Connection.{Connection, Quad, quad_eq, established, close_wait, last_ack}
use tcp_dpdk.Dpdk.{Dpdk, IsDpdk}
use tcp_dpdk.Segment.{segment_check}
use tcp_dpdk.Tcp.{Frame, Core}
use tcp_dpdk.Tx.{fill_headers, frame_of}
use tcp_dpdk.Tx.Effects.{burst, counted, tcp_tx_packets-ok, transmitted_fin}
use tcp_dpdk.Handlers.{store, seq_of, answering, reply, handle_tcp_establish, handle_tcp_last_ack}
use tcp_dpdk.Rx.{
  Packet, size_of, quad_of, dispatch, dispatch_at, finish_last_ack, receive_at, receive_segment,
  free_mbuf, rx_burst,
}
use tcp_dpdk.Invariant.{quad_eq_iff}
use tcp_dpdk.Invariant.Handshake.{segment_check_next}
use tcp_dpdk.Invariant.Passive.{IsForUs, rx_packet-IsForUs, stored}

fin_ack_flags :
    (has_flag (set_flag fin_flag ack_flag) syn_flag ≡ false)
    × (has_flag (set_flag fin_flag ack_flag) fin_flag ≡ true)
unfolding has_flag set_flag
fin_ack_flags = (refl, refl)

module _ {T : Type 0} (d : Dpdk T) (laws : IsDpdk d) where
  -- The connection while its answer to the FIN of number `seq` is made, and once it is sent.
  abbrev answer_of : Connection → ℕ → Connection
  answer_of c seq = answering c close_wait (add32 seq 1) (set_flag fin_flag ack_flag)

  abbrev closing : Connection → ℕ → Connection
  closing c seq = record (counted d fin_flag (fill_headers d (answer_of c seq) 0)) {
    tcp_state = last_ack;
  }

  abbrev with_closing : Core T → Packet → ℕ → Connection → Core T
  with_closing s pkt p c =
      let seq = seq_of d pkt.tcp_hdr in
      record s {
        tcp = burst d (record { tcp = s.tcp; connection = answer_of c seq }) pkt.bytes 0;
        heap = store s.heap p (some (closing c seq));
      }

  receive_segment-closing :
      (s : Core T) (pkt : Packet) (p : ℕ) (c : Connection)
      → d.hash_lookup_data s.tcp.rte_hash (quad_of pkt) ≡ some p
      → s.heap p ≡ some c
      → c.tcp_state ≡ established
      → c.recv.wnd < u16_mod
      → c.recv.nxt ≡ seq_of d pkt.tcp_hdr
      → has_flag pkt.tcp_hdr.tcp_flags fin_flag ≡ true
      → size_of d pkt ≡ 0
      → receive_segment d s pkt ≡ ok (with_closing s pkt p c)
  unfolding receive_segment receive_at dispatch_at dispatch handle_tcp_establish reply clear_flag
      set_flag
  receive_segment-closing s pkt p c entry at_p state window next fin empty =
      let seq = seq_of d pkt.tcp_hdr in
      let passes : segment_check c 0 seq ≡ true =
        segment_check_next d laws c seq next (laws.be_to_cpu_32-lt pkt.tcp_hdr.sent_seq) window in
      rw (entry, at_p)
        (ap (λ st. dispatch d st s p c pkt) state
          ∙ (rw
              (
                empty,
                passes,
                fin,
                tcp_tx_packets-ok d laws (record { tcp = s.tcp; connection = answer_of c seq })
                    pkt.bytes 0 (omega arith, omega arith),
                transmitted_fin d (answer_of c seq) 0 fin_ack_flags.0 fin_ack_flags.1,
              )
              refl))

  receive_segment-closed :
      (s : Core T) (pkt : Packet) (p : ℕ) (c : Connection)
      → d.hash_lookup_data s.tcp.rte_hash (quad_of pkt) ≡ some p
      → s.heap p ≡ some c
      → c.tcp_state ≡ last_ack
      → receive_segment d s pkt ≡ ok (finish_last_ack d s p c (quad_of pkt))
  unfolding receive_segment receive_at dispatch_at dispatch
  receive_segment-closed s pkt p c entry at_p state =
      rw (entry, at_p) (ap (λ st. dispatch d st s p c pkt) state)

  deleted : (t : T) (q : Quad) → d.hash_lookup_data (d.hash_del_key t q) q ≡ none
  deleted t q =
      let same : quad_eq q q ≡ true = (quad_eq_iff q q).1 refl in
      laws.lookup-del t q q ∙ rw same refl

  -- What `t` has not that `s` has, the connection at `p`, and the frame that it has sent: FIN and ACK
  -- behind what `c` had sent, acknowledging the FIN.
  pub record IsClosed (s t : Core T) (fin : Packet) (p : ℕ) (c : Connection) : Type 0 where
    pub frame : Frame
    pub no_entry : d.hash_lookup_data t.tcp.rte_hash (quad_of fin) ≡ none
    pub given_back : t.heap p ≡ none
    pub answered : t.tcp.sent ≡ s.tcp.sent ++ frame ∷ []
    pub flags : frame.tcp_hdr.tcp_flags ≡ set_flag fin_flag ack_flag
    pub seqn : d.be_to_cpu_32 frame.tcp_hdr.sent_seq ≡ c.send.nxt
    pub ackn : d.be_to_cpu_32 frame.tcp_hdr.recv_ack ≡ add32 (seq_of d fin.tcp_hdr) 1

  -- DPDK is taken to behave as documented. A core with an established connection and a buffer to
  -- spare gets two segments of its quad in one burst: one without data, with FIN and the number that
  -- is expected next, and behind it any other. The burst is handled; then the connection is neither
  -- in the table nor in the memory, and one frame has gone out, FIN and ACK with the number to be
  -- sent next, which acknowledges the FIN.
  pub rx_burst-IsClosed :
      (s : Core T) (fin last : Packet) (p : ℕ) (c : Connection)
      → IsForUs d s.tcp fin
      → IsForUs d s.tcp last
      → quad_of last ≡ quad_of fin
      → d.hash_lookup_data s.tcp.rte_hash (quad_of fin) ≡ some p
      → s.heap p ≡ some c
      → c.tcp_state ≡ established
      → c.recv.wnd < u16_mod
      → c.send.nxt < u32_mod
      → c.recv.nxt ≡ seq_of d fin.tcp_hdr
      → has_flag fin.tcp_hdr.tcp_flags fin_flag ≡ true
      → size_of d fin ≡ 0
      → d.mbuf_raw_alloc s.tcp.mbuf_calls ≡ true
      → Returns (rx_burst d s (fin ∷ last ∷ [])) (λ t. IsClosed s t fin p c)
  unfolding rx_burst fill_headers finish_last_ack handle_tcp_last_ack
  rx_burst-IsClosed s fin last p c fin_ours last_ours same entry at_p state window range next is_fin
        empty free =
      let seq = seq_of d fin.tcp_hdr in
      let t1 = free_mbuf d (with_closing s fin p c) fin.mbuf in
      let e = closing c seq in
      let first =
        rx_packet-IsForUs d s (with_closing s fin p c) fin fin_ours
          (receive_segment-closing s fin p c entry at_p state window next is_fin empty) in
      let ours : IsForUs d t1.tcp last = record {
        mac = last_ours.mac;
        ipv4 = last_ours.ipv4;
        ip = last_ours.ip;
        tcp_proto = last_ours.tcp_proto;
      } in
      let second = rx_packet-IsForUs d t1 (finish_last_ack d t1 p e (quad_of last)) last ours (
        receive_segment-closed t1 last p e (rw same entry) (stored d laws s.heap p (some e))
          refl) in
      rw (first, second)
        (record {
          frame =
              frame_of d (record { tcp = s.tcp; connection = fill_headers d (answer_of c seq) 0 })
                fin.bytes 0;
          no_entry = rw same (deleted (d.hash_del_key s.tcp.rte_hash e.q) (quad_of fin));
          given_back = stored d laws t1.heap p none;
          answered = rw free refl;
          flags = refl;
          seqn = laws.be_to_cpu_32-cpu_to_be_32 c.send.nxt range;
          ackn = laws.be_to_cpu_32-cpu_to_be_32 (add32 seq 1) (omega arith);
        })
