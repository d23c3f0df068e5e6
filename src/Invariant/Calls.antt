-- ===== src/Invariant/Calls.antt =====
-- One packet, and the invariant of a core.
use tcp_dpdk.Base.{
  ℕ, ◌≡◌, refl, inl, inr, false, Option, none, some, ok, Returns, OrNull, IsNull, Returns-OrNull,
  bind-Within, arith, Option-cases,
}
use tcp_dpdk.Connection.{Connection, Quad, quad_eq}
use tcp_dpdk.Dpdk.{Dpdk, IsDpdk}
use tcp_dpdk.Tcp.{Core}
use tcp_dpdk.Handlers.{listen_at, store, handle_tcp_listen, handle_tcp_last_ack}
use tcp_dpdk.Rx.{
  Packet, quad_of, finish_last_ack, dispatch, dispatch_at, receive_at, receive_segment, rx_packet,
  free_mbuf,
}
use tcp_dpdk.Invariant.{IsWellFormed, Holds-store, write_back-IsWellFormed, register-IsWellFormed}
use tcp_dpdk.Invariant.Cases.{IsSane, Supplies, Covers, dispatch_cases}
use tcp_dpdk.Invariant.Receive.{rx_packet_cases}
use tcp_dpdk.Invariant.Sessions.{RxMove}

module _ {T : Type 0} (d : Dpdk T) (laws : IsDpdk d) where
  lookup-del_twice :
      (t : T) (q k : Quad) (r : ℕ)
      → d.hash_lookup_data (d.hash_del_key (d.hash_del_key t q) q) k ≡ some r
      → (quad_eq q k ≡ false) × (d.hash_lookup_data t k ≡ some r)
  lookup-del_twice t q k r found =
      ground (arith, laws.lookup-del (d.hash_del_key t q) q k, laws.lookup-del t q k)

  -- The memory of a deleted key is freed; no other entry leads there.
  free-IsWellFormed :
      (s u : Core T) (q : Quad) (p : ℕ) (c : Connection)
      → IsWellFormed d s
      → s.heap p ≡ some c
      → c.q ≡ q
      → u.tcp.rte_hash ≡ d.hash_del_key (d.hash_del_key s.tcp.rte_hash q) q
      → u.heap ≡ store s.heap p none
      → IsWellFormed d u
  free-IsWellFormed s u q p c wf at_p is_q table heap k r found =
      let (ne, old) = lookup-del_twice s.tcp.rte_hash q k r (rw table at found) in
      rw heap (Holds-store d s.heap q k p r c none at_p is_q ne (wf k r old))

  finish_last_ack-IsWellFormed :
      (s : Core T) (q : Quad) (p : ℕ) (c : Connection)
      → IsWellFormed d s
      → s.heap p ≡ some c
      → c.q ≡ q
      → IsWellFormed d (finish_last_ack d s p c q)
  unfolding finish_last_ack handle_tcp_last_ack
  finish_last_ack-IsWellFormed s q p c wf at_p is_q =
      free-IsWellFormed s (finish_last_ack d s p c q) q p c wf at_p is_q (rw is_q) refl

  Covers-IsWellFormed : (s : Core T) (q : Quad) → IsWellFormed d s → Covers d (IsWellFormed d) s q
  Covers-IsWellFormed s q wf = record {
    ignored = wf;
    opened = λ u p c _ free is_q _ sound table heap.
        register-IsWellFormed d laws s u q p c wf free is_q sound table heap;
    written = λ p c at_q at_p is_q _ t keeps.
        write_back-IsWellFormed d laws s q p c RxMove t wf at_q at_p is_q keeps;
    finished = λ p c _ at_p is_q _. finish_last_ack-IsWellFormed s q p c wf at_p is_q;
  }

  -- One packet: no fault, and the core stays well-formed.
  pub rx_packet-IsWellFormed :
      (s : Core T) (pkt : Packet)
      → IsWellFormed d s
      → Supplies d s.heap
      → IsSane d pkt
      → Returns (rx_packet d s pkt) (IsWellFormed d)
  rx_packet-IsWellFormed s pkt wf =
      rx_packet_cases d laws (IsWellFormed d) s pkt wf (Covers-IsWellFormed s (quad_of pkt) wf)
        (λ u h. h)

  -- Without memory a SYN is answered by a fault: the result of `rte_malloc` is not checked.
  receive_at-OrNull :
      (s : Core T) (pkt : Packet) (o : Option ℕ)
      → d.malloc s.heap ≡ none
      → d.hash_lookup_data s.tcp.rte_hash (quad_of pkt) ≡ o
      → IsWellFormed d s
      → IsSane d pkt
      → OrNull (receive_at d s pkt o) (IsWellFormed d)
  unfolding receive_at handle_tcp_listen listen_at dispatch_at
  receive_at-OrNull s pkt none no_memory e wf sane = ground (arith, wf)
  receive_at-OrNull s pkt (some p) no_memory e wf sane =
      let (c, at_p, is_q, sound) = wf (quad_of pkt) p e in
      rw at_p (
        Returns-OrNull (dispatch d c.tcp_state s p c pkt) (IsWellFormed d) (
          dispatch_cases d laws (IsWellFormed d) s p c pkt c.tcp_state refl
            (Covers-IsWellFormed s (quad_of pkt) wf) e at_p is_q sound sane))

  rx_packet-OrNull_none :
      (s : Core T) (pkt : Packet)
      → d.malloc s.heap ≡ none
      → IsWellFormed d s
      → IsSane d pkt
      → OrNull (rx_packet d s pkt) (IsWellFormed d)
  unfolding rx_packet receive_segment
  rx_packet-OrNull_none s pkt no_memory wf sane =
      let received =
        bind-Within IsNull (receive_segment d s pkt) (λ s'. ok (free_mbuf d s' pkt.mbuf))
          (IsWellFormed d) (IsWellFormed d) (receive_at-OrNull s pkt _ no_memory refl wf sane)
          (λ s' wf'. wf') in
      ground (arith, received, wf)

  pub rx_packet-OrNull :
      (s : Core T) (pkt : Packet)
      → IsWellFormed d s
      → IsSane d pkt
      → OrNull (rx_packet d s pkt) (IsWellFormed d)
  rx_packet-OrNull s pkt wf sane = elim (Option-cases (d.malloc s.heap)) [
    | inl no_memory ↦ rx_packet-OrNull_none s pkt no_memory wf sane
    | inr memory ↦
        Returns-OrNull (rx_packet d s pkt) (IsWellFormed d)
          (rx_packet-IsWellFormed s pkt wf memory sane)
  ]
