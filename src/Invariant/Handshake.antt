-- ===== src/Invariant/Handshake.antt =====
-- The segments that end a handshake.
use tcp_dpdk.Base.{
  ℕ, ◌≡◌, ◌<◌, refl, ◌⊎◌, inl, ◌↔◌, true, List, [], ◌∷◌, ◌++◌, ap, ◌∙◌, if◌then◌else◌, u16_mod,
  u32_mod, ◌+◌, add32, sym, int_to_size, Returns, arith,
}
use tcp_dpdk.Seq.{is_between_wrapped}
use tcp_dpdk.Flags.{has_flag, ack_flag}
use tcp_dpdk.Segment.{segment_check}
use tcp_dpdk.Segment.Window.{segment_check_empty_iff}
use tcp_dpdk.Connection.{Connection, TcpHdr, established, syn_recv, syn_sent}
use tcp_dpdk.Dpdk.{Dpdk, IsDpdk}
use tcp_dpdk.Tcp.{Session, Frame}
use tcp_dpdk.Tx.{fill_headers, frame_of}
use tcp_dpdk.Tx.Effects.{IsSized, Returns-syn, Returns-plain}
use tcp_dpdk.Handlers.{
  acks_sent, rearmed, retransmit_syn, handle_tcp_syn_recv, handle_tcp_syn_sent, take_syn_ack, reply,
  answering, seq_of, ackn_of,
}
use tcp_dpdk.Invariant.{IsSound}
use tcp_dpdk.Invariant.Sessions.{syn_again}

-- Both the number of the SYN and the one behind it count.
pub acks_sent_handshake :
    (c : Connection) (ackn : ℕ)
    → c.send.una ≡ 0
    → c.send.nxt ≡ 1
    → ackn < u32_mod
    → (acks_sent c ackn ≡ true) ↔ ((ackn ≡ 0) ⊎ (ackn ≡ 1))
unfolding acks_sent is_between_wrapped
acks_sent_handshake c ackn una nxt range = (λ h. ground arith, λ h. ground arith)

module _ {T : Type 0} (d : Dpdk T) (laws : IsDpdk d) where
  retransmit_syn_state :
      (s : Session T) (bytes : List ℕ) (size : ℕ)
      → s.connection.tcp_state ≡ syn_recv
      → IsSound s.connection
      → IsSized bytes (int_to_size size)
      → Returns (retransmit_syn d s bytes size) (λ t. t.connection.tcp_state ≡ syn_recv)
  unfolding retransmit_syn fill_headers
  retransmit_syn_state s bytes size state sound sized =
      let flags = syn_again s.connection.tcp_hdr.tcp_flags (rw state at sound.live).2 in
      Returns-syn d laws (record s { connection = rearmed s.connection }) bytes (int_to_size size)
        (λ t. t.connection.tcp_state ≡ syn_recv) sized flags.0 (rw flags.1 flags.2) state

  -- DPDK is taken to behave as documented. A segment for a sound connection in SYN_RECV makes it
  -- ESTABLISHED exactly when it passes `segment_check` and acknowledges 0, the number of our SYN,
  -- or 1, the number behind it.
  pub handle_tcp_syn_recv_iff :
      (s : Session T) (hdr : TcpHdr) (bytes : List ℕ) (size now : ℕ)
      → s.connection.tcp_state ≡ syn_recv
      → IsSound s.connection
      → IsSized bytes (int_to_size size)
      → Returns (handle_tcp_syn_recv d s hdr bytes size now) (λ t.
        (t.connection.tcp_state ≡ established) ↔ (
          (segment_check s.connection size (seq_of d hdr) ≡ true)
          × ((ackn_of d hdr ≡ 0) ⊎ (ackn_of d hdr ≡ 1))))
  unfolding handle_tcp_syn_recv
  handle_tcp_syn_recv_iff s hdr bytes size now state sound sized =
      let start = rw state at sound.live in
      ground (
        arith,
        start,
        retransmit_syn_state s bytes size state sound sized,
        acks_sent_handshake s.connection (ackn_of d hdr) start.0 start.1
            (laws.be_to_cpu_32-lt hdr.recv_ack),
      )

  -- A segment without data at the number that is expected passes whatever the window is.
  pub segment_check_next :
      (c : Connection) (seqn : ℕ)
      → c.recv.nxt ≡ seqn
      → seqn < u32_mod
      → c.recv.wnd < u16_mod
      → segment_check c 0 seqn ≡ true
  segment_check_next c seqn at range window =
      (segment_check_empty_iff c seqn (rw at range) window range).1 (inl (sym at))

  take_syn_ack-nxt : (c : Connection) (ackn : ℕ) → (take_syn_ack c ackn).send.nxt ≡ c.send.nxt
  unfolding take_syn_ack
  take_syn_ack-nxt c ackn = ground arith

  -- What is sent if a buffer is free, and nothing else: one bare ACK, of the number in front of
  -- `expected`, with our next number.
  pub record Acks (s t : Session T) (expected : ℕ) : Type 0 where
    pub frame : Frame
    pub out :
        t.tcp.sent
        ≡ (if d.mbuf_raw_alloc s.tcp.mbuf_calls then s.tcp.sent ++ frame ∷ [] else s.tcp.sent)
    pub seqn : d.be_to_cpu_32 frame.tcp_hdr.sent_seq ≡ s.connection.send.nxt
    pub ackn : d.be_to_cpu_32 frame.tcp_hdr.recv_ack ≡ expected
    pub flags : frame.tcp_hdr.tcp_flags ≡ ack_flag

  -- DPDK is taken to behave as documented. For any segment for a sound connection in SYN_SENT a
  -- buffer is asked for, and if one is free one frame goes out, an ACK of the number of the segment
  -- with our next number, and nothing otherwise; either way the number behind its own is expected
  -- next. The state becomes ESTABLISHED exactly when the segment acknowledges 0, the number of our
  -- SYN, or 1, the number behind it; and it stays SYN_SENT, or `una` is one more than what the
  -- segment acknowledges.
  pub handle_tcp_syn_sent_iff :
      (s : Session T) (hdr : TcpHdr) (bytes : List ℕ) (size : ℕ)
      → s.connection.tcp_state ≡ syn_sent
      → IsSound s.connection
      → IsSized bytes (int_to_size size)
      → Returns (handle_tcp_syn_sent d s hdr bytes size) (λ t.
        (t.tcp.mbuf_calls ≡ s.tcp.mbuf_calls + 1)
        × Acks s t (add32 (seq_of d hdr) 1)
        × (t.connection.recv.nxt ≡ add32 (seq_of d hdr) 1)
        × ((t.connection.tcp_state ≡ established) ↔ ((ackn_of d hdr ≡ 0) ⊎ (ackn_of d hdr ≡ 1)))
        × ((t.connection.tcp_state ≡ syn_sent) ⊎ (t.connection.send.una ≡ add32 (ackn_of d hdr) 1)))
  unfolding handle_tcp_syn_sent reply fill_headers has_flag take_syn_ack
  handle_tcp_syn_sent_iff s hdr bytes size state sound sized =
      let seq = seq_of d hdr in
      let c = record s.connection { recv = record s.connection.recv { nxt = seq } } in
      let taken = take_syn_ack c (ackn_of d hdr) in
      let r = record s { connection = answering taken taken.tcp_state (add32 seq 1) ack_flag } in
      let start = rw state at sound.live in
      let passes =
        segment_check_next c seq refl (laws.be_to_cpu_32-lt hdr.sent_seq) sound.window_range in
      rw passes (
        Returns-plain d laws r bytes (int_to_size size) _ sized refl refl (
          refl,
          record {
            frame =
                frame_of d
                  (record r { connection = fill_headers d r.connection (int_to_size size) }) bytes
                  (int_to_size size);
            out = refl;
            seqn =
                ap (λ n. d.be_to_cpu_32 (d.cpu_to_be_32 n)) (take_syn_ack-nxt c (ackn_of d hdr))
                ∙ laws.be_to_cpu_32-cpu_to_be_32 s.connection.send.nxt sound.nxt_range;
            ackn = laws.be_to_cpu_32-cpu_to_be_32 (add32 seq 1) (omega arith);
            flags = refl;
          },
          refl,
          ground (
            arith,
            start,
            acks_sent_handshake c (ackn_of d hdr) start.0 start.1
                (laws.be_to_cpu_32-lt hdr.recv_ack),
          ),
          ground arith,
        ))
