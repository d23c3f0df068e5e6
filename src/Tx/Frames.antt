-- ===== src/Tx/Frames.antt =====
-- What the driver gets from `tcp_tx_packets`.
use tcp_dpdk.Base.{
  ℕ, ◌+◌, ◌≡◌, ◌<◌, refl, true, List, [], ◌∷◌, ◌++◌, take, ◌%◌, u16_mod, u32_mod, Returns, arith,
}
use tcp_dpdk.Dpdk.{Dpdk, IsDpdk}
use tcp_dpdk.Tcp.{Session, Frame}
use tcp_dpdk.Tx.{frame_of, fill_headers, tcp_tx_packets}
use tcp_dpdk.Tx.Effects.{IsSized, tcp_tx_packets-ok}

module _ {T : Type 0} (d : Dpdk T) where
  -- The frame carries the segment of `s`: its numbers, its lengths, its flags and its data.
  pub record Carries (s : Session T) (bytes : List ℕ) (size : ℕ) (f : Frame) : Type 0 where
    pub seqn : d.be_to_cpu_32 f.tcp_hdr.sent_seq ≡ s.connection.send.nxt
    pub ackn : d.be_to_cpu_32 f.tcp_hdr.recv_ack ≡ s.connection.recv.nxt
    pub flags : f.tcp_hdr.tcp_flags ≡ s.connection.tcp_hdr.tcp_flags
    pub ip_length : d.be_to_cpu_16 f.ipv4_hdr.total_length ≡ 40 + size
    pub length : f.data_len ≡ 54 + size
    pub payload : f.data_bytes ≡ take size bytes
    pub from : f.ipv4_hdr.src_addr ≡ s.connection.ipv4_hdr.src_addr
    pub to : f.ipv4_hdr.dst_addr ≡ s.connection.ipv4_hdr.dst_addr

  -- DPDK is taken to behave as documented. With a buffer free, and numbers in range, at most 100
  -- bytes of data go out as one frame at the end of what was sent. The peer reads off it the next
  -- number to be sent, the next number expected, the flags and addresses of the connection, the
  -- lengths with and without the Ethernet header, and the data.
  pub tcp_tx_packets-Carries :
      IsDpdk d
      → (s : Session T) (bytes : List ℕ) (size : ℕ) → IsSized bytes size
      → d.mbuf_raw_alloc s.tcp.mbuf_calls ≡ true
      → s.connection.send.nxt < u32_mod
      → s.connection.recv.nxt < u32_mod
      → Returns
          (tcp_tx_packets d s bytes size)
          (λ t. (f : Frame) × (t.tcp.sent ≡ s.tcp.sent ++ f ∷ []) × Carries s bytes size f)
  unfolding fill_headers
  tcp_tx_packets-Carries laws s bytes size sized free nxt expected =
      let whole : (40 + size) % u16_mod ≡ 40 + size = omega (arith, sized) in
      let filled = record s { connection = fill_headers d s.connection size } in
      rw (tcp_tx_packets-ok d laws s bytes size sized, free)
        (
          frame_of d filled bytes size,
          refl,
          record {
            seqn = laws.be_to_cpu_32-cpu_to_be_32 s.connection.send.nxt nxt;
            ackn = laws.be_to_cpu_32-cpu_to_be_32 s.connection.recv.nxt expected;
            flags = refl;
            ip_length =
                rw whole (laws.be_to_cpu_16-cpu_to_be_16 (40 + size) (omega (arith, sized)));
            length = omega (arith, sized);
            payload = refl;
            from = refl;
            to = refl;
          },
        )
