-- ===== src/Invariant/Receive.antt =====
-- The rule for a whole packet, from the frame to the handlers.
use tcp_dpdk.Base.{
  ℕ, ◌≡◌, refl, inl, inr, List, Option, none, some, int_to_size, ok, Returns, bind-Returns,
  Returns-mono, arith, Bool-cases, ◌==◌,
}
use tcp_dpdk.Flags.{has_flag, clear_flag, set_flag, syn_flag}
use tcp_dpdk.Connection.{Connection, Quad, TcpHdr}
use tcp_dpdk.Dpdk.{Dpdk, IsDpdk}
use tcp_dpdk.Tcp.{Core}
use tcp_dpdk.Tx.{fill_headers}
use tcp_dpdk.Tx.Effects.{IsSized, counted}
use tcp_dpdk.Handlers.{listen_at, open_and_send, init_listen, handle_tcp_listen}
use tcp_dpdk.Rx.{
  Packet, size_of, quad_of, register, dispatch_at, receive_at, receive_segment, rx_packet,
  free_mbuf,
}
use tcp_dpdk.Invariant.{IsWellFormed}
use tcp_dpdk.Invariant.Cases.{
  IsSane, Supplies, Covers, dispatch_cases, open_and_send_cases, init_listen-IsSound,
}

module _ {T : Type 0} (d : Dpdk T) (laws : IsDpdk d) (P : Core T → Type 0) where
  -- A SYN to a quad that the table does not have.
  listen_at_cases :
      (s : Core T) (q : Quad) (hdr : TcpHdr) (bytes : List ℕ) (size p : ℕ) (garbage : Connection)
      → Covers d P s q
      → d.hash_lookup_data s.tcp.rte_hash q ≡ none
      → d.malloc s.heap ≡ some (p, garbage)
      → IsSized bytes (int_to_size size)
      → Returns (listen_at d s q hdr bytes size (some (p, garbage))) (λ r. P (register d q r.0 r.1))
  unfolding listen_at init_listen fill_headers has_flag clear_flag set_flag
  listen_at_cases s q hdr bytes size p garbage cover no_entry from sized =
      let room = laws.malloc_size s.heap p garbage from in
      let c = init_listen d garbage q hdr in
      bind-Returns (open_and_send d s p c bytes (int_to_size size)) (λ s'. ok (some p, s'))
        (λ r. P (register d q r.0 r.1))
        (open_and_send_cases d laws (λ u. P (register d q (some p) u)) s p c bytes
          (int_to_size size) refl refl sized
          (λ u table heap.
            cover.opened u p (counted d syn_flag (fill_headers d c (int_to_size size))) no_entry
              (laws.malloc_fresh s.heap p garbage from) refl refl
              (init_listen-IsSound d laws garbage q hdr (int_to_size size) room) table heap))

  handle_tcp_listen_cases :
      (s : Core T) (q : Quad) (hdr : TcpHdr) (bytes : List ℕ) (size : ℕ)
      → Covers d P s q
      → d.hash_lookup_data s.tcp.rte_hash q ≡ none
      → Supplies d s.heap
      → IsSized bytes (int_to_size size)
      → Returns (handle_tcp_listen d s q hdr bytes size) (λ r. P (register d q r.0 r.1))
  unfolding handle_tcp_listen
  handle_tcp_listen_cases s q hdr bytes size cover no_entry supplied sized =
      let ((p, garbage), from) = supplied in
      elim (Bool-cases (hdr.tcp_flags == syn_flag)) [
        | inl syn ↦
            rw (syn, from) (listen_at_cases s q hdr bytes size p garbage cover no_entry from sized)
        | inr other ↦ rw other cover.ignored
      ]

  pub receive_at_cases :
      (s : Core T) (pkt : Packet) (o : Option ℕ)
      → d.hash_lookup_data s.tcp.rte_hash (quad_of pkt) ≡ o
      → IsWellFormed d s
      → Covers d P s (quad_of pkt)
      → Supplies d s.heap
      → IsSane d pkt
      → Returns (receive_at d s pkt o) P
  unfolding receive_at dispatch_at
  receive_at_cases s pkt none e wf cover supplied sane =
      bind-Returns (handle_tcp_listen d s (quad_of pkt) pkt.tcp_hdr pkt.bytes (size_of d pkt))
        (λ r. ok (register d (quad_of pkt) r.0 r.1)) P
        (handle_tcp_listen_cases s (quad_of pkt) pkt.tcp_hdr pkt.bytes (size_of d pkt) cover e
          supplied sane)
  receive_at_cases s pkt (some p) e wf cover supplied sane =
      let (c, at_p, is_q, sound) = wf (quad_of pkt) p e in
      rw at_p (dispatch_cases d laws P s p c pkt c.tcp_state refl cover e at_p is_q sound sane)

  pub rx_packet_cases :
      (s : Core T) (pkt : Packet)
      → IsWellFormed d s
      → Covers d P s (quad_of pkt)
      → ((u : Core T) → P u → P (free_mbuf d u pkt.mbuf))
      → Supplies d s.heap
      → IsSane d pkt
      → Returns (rx_packet d s pkt) P
  unfolding rx_packet receive_segment
  rx_packet_cases s pkt wf cover freed supplied sane =
      let m = receive_segment d s pkt in
      let received =
        bind-Returns m (λ s'. ok (free_mbuf d s' pkt.mbuf)) P
          (Returns-mono m P _ freed (receive_at_cases s pkt _ refl wf cover supplied sane)) in
      ground (arith, received, cover.ignored, freed s cover.ignored)
