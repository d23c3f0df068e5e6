-- ===== src/Invariant/Data.antt =====
-- Data on a connection that is ESTABLISHED.
use tcp_dpdk.Base.{
  ℕ, ◌≡◌, ◌≢◌, refl, true, false, List, [], ◌∷◌, ◌++◌, add32, take, int_to_size, Returns, ◌==◌,
  arith,
}
use tcp_dpdk.Flags.{has_flag, fin_flag, ack_flag}
use tcp_dpdk.Connection.{TcpHdr}
use tcp_dpdk.Dpdk.{Dpdk, IsDpdk}
use tcp_dpdk.Tcp.{Session, Frame}
use tcp_dpdk.Segment.Window.{segment_check_data_iff}
use tcp_dpdk.Tx.{fill_headers, frame_of}
use tcp_dpdk.Tx.Effects.{IsSized, Returns-plain}
use tcp_dpdk.Handlers.Printing.{with_printed, print_data-ok}
use tcp_dpdk.Handlers.{answering, reply, handle_tcp_establish, seq_of, ackn_of}

module _ {T : Type 0} (d : Dpdk T) where
  -- The answer to `size` bytes of data from the segment's number on.
  pub record Acknowledges (s t : Session T) (hdr : TcpHdr) (bytes : List ℕ) (size : ℕ)
      : Type 0 where
    pub state : t.connection.tcp_state ≡ s.connection.tcp_state
    pub expected : t.connection.recv.nxt ≡ add32 (seq_of d hdr) size
    pub next : t.connection.send.nxt ≡ ackn_of d hdr
    pub printed : t.tcp.printed ≡ s.tcp.printed ++ (take size bytes ++ 10 ∷ [])
    pub frame : Frame
    pub out : t.tcp.sent ≡ s.tcp.sent ++ frame ∷ []
    pub seqn : d.be_to_cpu_32 frame.tcp_hdr.sent_seq ≡ ackn_of d hdr
    pub ackn : d.be_to_cpu_32 frame.tcp_hdr.recv_ack ≡ add32 (seq_of d hdr) size
    pub flags : frame.tcp_hdr.tcp_flags ≡ ack_flag
    pub empty : frame.data_bytes ≡ []

  -- DPDK is taken to behave as documented. A connection with an open window and a buffer free gets a
  -- segment of any number, without FIN and with at most 100 bytes of data, which lie in its buffer:
  -- the state stays, the data and a line feed are printed, the number behind the data is expected
  -- next, and the frame sent is a bare ACK of it, with the number that the segment acknowledged.
  pub handle_tcp_establish-Acknowledges :
      IsDpdk d
      → (s : Session T) (hdr : TcpHdr) (bytes : List ℕ) (size : ℕ) → s.connection.recv.wnd ≢ 0
      → has_flag hdr.tcp_flags fin_flag ≡ false
      → size ≢ 0
      → IsSized bytes (int_to_size size)
      → d.mbuf_raw_alloc s.tcp.mbuf_calls ≡ true
      → Returns (handle_tcp_establish d s hdr bytes size) (λ t. Acknowledges s t hdr bytes size)
  unfolding handle_tcp_establish reply fill_headers has_flag
  handle_tcp_establish-Acknowledges laws s hdr bytes size open_window no_fin some_data sized free =
      let c = s.connection in
      let passes = (segment_check_data_iff c size (seq_of d hdr) some_data).1 open_window in
      let acked = record s {
        connection = record c { send = record c.send { nxt = ackn_of d hdr } };
      } in
      let r : Session T = record {
        tcp = with_printed s.tcp bytes size;
        connection = answering acked.connection c.tcp_state (add32 (seq_of d hdr) size) ack_flag;
      } in
      let full : (size == 0) ≡ false = ground arith in
      rw (passes, no_fin, full, print_data-ok s.tcp bytes size sized.0 sized.1)
        (Returns-plain d laws r [] 0 (λ t. Acknowledges s t hdr bytes size) (omega arith) refl refl
          (record {
            state = refl;
            expected = refl;
            next = refl;
            printed = refl;
            frame = frame_of d (record r { connection = fill_headers d r.connection 0 }) [] 0;
            out = rw free refl;
            seqn =
                laws.be_to_cpu_32-cpu_to_be_32 (ackn_of d hdr) (laws.be_to_cpu_32-lt hdr.recv_ack);
            ackn = laws.be_to_cpu_32-cpu_to_be_32 (add32 (seq_of d hdr) size) (omega arith);
            flags = refl;
            empty = refl;
          }))
