-- ===== src/Link/Messages.antt =====
-- Messages over a connection, from either side.
use tcp_dpdk.Base.{
  ℕ, ◌+◌, ◌≡◌, ◌≢◌, ◌≤◌, ◌<◌, refl, ◌∙◌, List, [], ◌∷◌, u32_mod, length, ap, take_all, ◌++◌,
  Returns, bind-Within, arith,
}
use tcp_dpdk.Flags.{ack_flag, psh_flag, set_flag}
use tcp_dpdk.Connection.{Quad, established}
use tcp_dpdk.Dpdk.{Dpdk, IsDpdk}
use tcp_dpdk.Tcp.{Core}
use tcp_dpdk.Active.{active_send_data}
use tcp_dpdk.Handlers.Printing.{with_printed}
use tcp_dpdk.Link.{Arrival, flip, IsAmple, hand_over, on_entry, say}
use tcp_dpdk.Link.Ends.{EndOf, IsQuiet, SentBy, InSync}
use tcp_dpdk.Link.Packets.{AreHosts-same, hand_over-Returns}
use tcp_dpdk.Link.Talking.{active_send_data-SentBy, receive_segment-Acked, receive_segment-Data}

module _ {T : Type 0} (d : Dpdk T) (laws : IsDpdk d) (ample : IsAmple d) where
  pub say-InSync :
      (q : Quad) (padding p : ℕ) (i j : Arrival) (bytes : List ℕ) (a b : Core T)
      (una_a una_b x y : ℕ) (log_a log_b : List ℕ)
      → p ≡ q.padding
      → i.padding ≡ padding
      → j.padding ≡ q.padding
      → InSync d q padding una_a una_b x y log_a log_b (a, b)
      → length bytes ≢ 0
      → length bytes ≤ 100
      → x + length bytes < u32_mod
      → y < u32_mod
      → Returns
          (say d q p i j bytes a b)
          (InSync d q padding una_a una_b (x + length bytes) y log_a (log_b ++ (bytes ++ 10 ∷ [])))
  unfolding say
  say-InSync q padding p i j bytes a b una_a una_b x y log_a log_b at_call at_b at_a h full short
        range other =
      let n = length bytes in
      let end_a = h.end_a in
      let end_b = h.end_b in
      let hosts = h.hosts in
      let Goal = InSync d q padding una_a una_b (x + n) y log_a (log_b ++ (bytes ++ 10 ∷ [])) in
      bind-Within (λ e. ⊥) (on_entry d a q p λ t e. active_send_data d t e bytes) _ _ Goal
        (active_send_data-SentBy d laws ample a q p una_a x y bytes at_call end_a short)
        (λ a1 (end_a1, sent_a1).
          bind-Within (λ e. ⊥) (hand_over d i a1 b) _ _ Goal
            (hand_over-Returns d laws
              (λ tcp heap.
                EndOf d (flip q padding) established una_b y (x + n) tcp heap
                × SentBy d (with_printed b.tcp bytes n) tcp (flip q padding) y (x + n) ack_flag 0
                    [])
              ample a1 b a.tcp q x y (set_flag ack_flag psh_flag) n padding bytes i at_b sent_a1
              hosts.wired.0 hosts.there (omega (arith, range)) other short
              (λ pkt reads.
                receive_segment-Data d laws ample b (flip q padding) pkt una_b y x n bytes end_b
                  reads full (omega arith, short) range))
            (λ b1 (end_b1, sent_b1).
              let hosts0 = AreHosts-same q sent_a1.same_nic refl hosts in
              let hosts1 = AreHosts-same q sent_a1.same_nic sent_b1.same_nic hosts in
              bind-Within (λ e. ⊥) (hand_over d j b1 a1) _ _ Goal
                (hand_over-Returns d laws
                  (λ tcp heap.
                    EndOf d q established una_a (x + n) y tcp heap × IsQuiet d a1.tcp tcp)
                  ample b1 a1 (with_printed b.tcp bytes n) (flip q padding) y (x + n) ack_flag 0
                  q.padding [] j at_a sent_b1 hosts0.wired.1 hosts0.here other range (omega arith)
                  (λ pkt reads.
                    receive_segment-Acked d laws ample a1 q pkt una_a x y (x + n) end_a1 reads))
                (λ a2 (end_a2, (same_a2, quiet_a2)). record {
                  end_a = end_a2;
                  end_b = end_b1;
                  hosts = AreHosts-same q same_a2 refl hosts1;
                  shown_a = quiet_a2 ∙ sent_a1.same_log ∙ h.shown_a;
                  shown_b =
                      sent_b1.same_log
                      ∙ (ap (λ xs. b.tcp.printed ++ (xs ++ 10 ∷ []))
                            (take_all n bytes (omega arith))
                          ∙ ap (λ xs. xs ++ (bytes ++ 10 ∷ [])) h.shown_b);
                })))
