-- ===== src/Link/Talking.antt =====
-- Two hosts with a connection send data to each other.
use tcp_dpdk.Base.{
  ℕ, ◌+◌, ◌≡◌, ◌≢◌, leb, take_all, ◌≤◌, ◌<◌, refl, ap, sym, ◌∙◌, true, false, List, [], add32,
  int_to_size, u32_mod, length, Returns, ◌==◌, arith,
}
use tcp_dpdk.Flags.{ack_flag, psh_flag, has_flag, set_flag}
use tcp_dpdk.Connection.{Quad, established}
use tcp_dpdk.Dpdk.{Dpdk, IsDpdk}
use tcp_dpdk.Segment.{segment_check}
use tcp_dpdk.Tcp.{Core}
use tcp_dpdk.Tx.{payload_size}
use tcp_dpdk.Tx.Effects.{IsSized}
use tcp_dpdk.Handlers.Printing.{with_printed, print_data-ok}
use tcp_dpdk.Handlers.{print_data, seq_of, ackn_of, answering, reply, handle_tcp_establish}
use tcp_dpdk.Rx.{Packet, dispatch, receive_segment}
use tcp_dpdk.Active.{loaded, send_session, active_send_data}
use tcp_dpdk.Invariant.Handshake.{segment_check_next}
use tcp_dpdk.Invariant.Passive.{stored}
use tcp_dpdk.Link.{IsAmple, on_entry}
use tcp_dpdk.Link.Ends.{HasEnd, Reads, IsQuiet, SentBy}
use tcp_dpdk.Link.Sending.{plain-SentBy}
use tcp_dpdk.Link.Packets.{keyed_lookup, receive_segment-dispatch}

module _ {T : Type 0} (d : Dpdk T) (laws : IsDpdk d) (ample : IsAmple d) where
  -- Data go out with the number that is next, which stays.
  pub active_send_data-SentBy :
      (s : Core T) (q : Quad) (padding una snd rcv : ℕ) (bytes : List ℕ)
      → padding ≡ q.padding
      → HasEnd d q established una snd rcv s
      → length bytes ≤ 100
      → Returns (on_entry d s q padding λ t p. active_send_data d t p bytes) (λ t.
        HasEnd d q established una snd rcv t
        × SentBy d s.tcp t.tcp q snd rcv (set_flag ack_flag psh_flag) (length bytes) bytes)
  unfolding active_send_data send_session has_flag set_flag
  active_send_data-SentBy s q padding una snd rcv bytes keyed h short =
      let fits : leb (length bytes) payload_size ≡ true = ground (arith, short) in
      rw (on_entry, keyed_lookup d laws q padding keyed s.tcp.rte_hash ∙ h.entry, h.at_p, fits)
        (plain-SentBy d laws ample s q h.place (loaded h.connection bytes) established una snd rcv
          (set_flag ack_flag psh_flag) (length bytes) (length bytes) bytes bytes h.entry
          (omega arith, short) h.addressed h.numbers h.is_in refl refl refl refl
          (take_all (length bytes) bytes (omega arith)))

  -- The ACK of data: only the number to send next is taken from it.
  pub receive_segment-Acked :
      (s : Core T) (q : Quad) (pkt : Packet) (una snd rcv next : ℕ)
      → HasEnd d q established una snd rcv s
      → Reads d q rcv next ack_flag 0 [] pkt
      → Returns
          (receive_segment d s pkt)
          (λ t. HasEnd d q established una next rcv t × IsQuiet d s.tcp t.tcp)
  unfolding dispatch handle_tcp_establish has_flag
  receive_segment-Acked s q pkt una snd rcv next h reads =
      let passes : segment_check h.connection 0 (seq_of d pkt.tcp_hdr) ≡ true =
        segment_check_next d laws h.connection (seq_of d pkt.tcp_hdr)
          (h.numbers.2 ∙ sym reads.number) (laws.be_to_cpu_32-lt pkt.tcp_hdr.sent_seq)
          (omega (arith, h.numbers.3)) in
      rw
        (
          receive_segment-dispatch d laws s pkt q established una snd rcv h reads.quad,
          reads.measure,
          passes,
          reads.marks,
        )
        (
          record {
            place = h.place;
            connection = record h.connection {
              send = record h.connection.send { nxt = ackn_of d pkt.tcp_hdr };
            };
            entry = h.entry;
            at_p = stored d laws s.heap h.place _;
            is_in = h.is_in;
            addressed = h.addressed;
            numbers = (h.numbers.0, reads.acknowledged, h.numbers.2, h.numbers.3);
          },
          (refl, refl),
        )

  -- Data at the number that is expected get an ACK of all of them.
  pub receive_segment-Data :
      (s : Core T) (q : Quad) (pkt : Packet) (una snd rcv size : ℕ) (bytes : List ℕ)
      → HasEnd d q established una snd rcv s
      → Reads d q rcv snd (set_flag ack_flag psh_flag) size bytes pkt
      → size ≢ 0
      → IsSized bytes size
      → rcv + size < u32_mod
      → Returns (receive_segment d s pkt) (λ t.
        HasEnd d q established una snd (rcv + size) t
        × SentBy d (with_printed s.tcp bytes size) t.tcp q snd (rcv + size) ack_flag 0 [])
  unfolding dispatch handle_tcp_establish reply has_flag set_flag segment_check
  receive_segment-Data s q pkt una snd rcv size bytes h reads some_data sized range =
      let c = h.connection in
      let is_size : int_to_size size ≡ size = ground (arith, sized) in
      let fits : IsSized bytes (int_to_size size) = rw is_size sized in
      let full : (size == 0) ≡ false = ground (arith, some_data) in
      let wide : (c.recv.wnd == 0) ≡ false = ground (arith, h.numbers.3) in
      let behind : add32 (seq_of d pkt.tcp_hdr) size ≡ rcv + size =
        ap (λ x. add32 x size) reads.number ∙ omega (arith, range) in
      let r =
        answering (record c { send = record c.send { nxt = ackn_of d pkt.tcp_hdr } }) c.tcp_state
          (add32 (seq_of d pkt.tcp_hdr) size) ack_flag in
      rw
        (
          receive_segment-dispatch d laws s pkt q established una snd rcv h reads.quad,
          reads.measure,
          reads.marks,
          full,
          wide,
          ap (λ xs. print_data s.tcp xs size) reads.content
              ∙ print_data-ok s.tcp bytes size fits.0 fits.1,
        )
        (plain-SentBy d laws ample (record s { tcp = with_printed s.tcp bytes size }) q h.place r
          established una snd (rcv + size) ack_flag 0 0 [] [] h.entry (omega arith, omega arith)
          h.addressed (h.numbers.0, reads.acknowledged, behind, h.numbers.3) h.is_in refl refl refl
          refl refl)
