-- ===== src/Link/Session.antt =====
-- A whole session of two hosts.
use tcp_dpdk.Base.{
  ℕ, ◌+◌, ◌≡◌, ◌≤◌, ◌<◌, refl, List, [], none, u32_mod, ◌++◌, ◌∙◌, Returns, bind-Within, arith,
}
use tcp_dpdk.Flags.{fin_flag, ack_flag, set_flag}
use tcp_dpdk.Connection.{Quad, last_ack}
use tcp_dpdk.Dpdk.{Dpdk, IsDpdk}
use tcp_dpdk.Tcp.{Core}
use tcp_dpdk.Active.{active_close}
use tcp_dpdk.Link.{
  AreHosts, Exchange, IsKeyed, AreKeyed, flip, IsAmple, hand_over, on_entry, converse, Line,
  said_by_a, said_by_b, text_of_a, text_of_b, AreMessages, open_link, close_link, session,
}
use tcp_dpdk.Link.Ends.{IsLeft, EndOf, SentBy, HasRoom, InSync}
use tcp_dpdk.Link.Packets.{AreHosts-same, hand_over-Returns}
use tcp_dpdk.Link.Handshake.{open_link-InSync}
use tcp_dpdk.Link.Conversation.{converse-InSync}
use tcp_dpdk.Link.Closing.{
  active_close-SentBy, receive_segment-Fin, receive_segment-Finished, receive_segment-Ended,
}

module _ {T : Type 0} (d : Dpdk T) where
  -- Neither table has the connection, the memory of the first host still has it, and `print_data`
  -- has written the two logs.
  pub record IsOver (q : Quad) (padding : ℕ) (log_a log_b : List ℕ) (r : Core T × Core T)
      : Type 0 where
    pub gone_a : d.hash_lookup_data r.0.tcp.rte_hash q ≡ none
    pub gone_b : d.hash_lookup_data r.1.tcp.rte_hash (flip q padding) ≡ none
    pub left_a : IsLeft d q r.0.heap
    pub shown_a : r.0.tcp.printed ≡ log_a
    pub shown_b : r.1.tcp.printed ≡ log_b

  module _ (laws : IsDpdk d) (ample : IsAmple d) where
    -- `a` closes.
    close_link-IsOver :
        (q : Quad) (padding : ℕ) (e : Exchange) (a b : Core T) (una_a una_b x y : ℕ)
        (log_a log_b : List ℕ)
        → IsKeyed q padding e
        → InSync d q padding una_a una_b x y log_a log_b (a, b)
        → una_a ≤ x + 1
        → x + 2 < 0x8000_0000
        → y + 1 < u32_mod
        → Returns (close_link d q e a b) (IsOver q padding log_a log_b)
    unfolding close_link
    close_link-IsOver q padding e a b una_a una_b x y log_a log_b keyed h below half range =
        let end_b = h.end_b in
        let hosts = h.hosts in
        let Goal = IsOver q padding log_a log_b in
        bind-Within (λ e. ⊥) (on_entry d a q e.call λ t p. active_close d t p) _ _ Goal
          (active_close-SentBy d laws ample a q e.call una_a x y keyed.call h.end_a
            (omega (arith, half)))
          (λ a1 (end_a1, sent_a1).
            bind-Within (λ e. ⊥) (hand_over d e.first a1 b) _ _ Goal
              (hand_over-Returns d laws
                (λ tcp heap.
                  EndOf d (flip q padding) last_ack una_b (y + 1) (x + 1) tcp heap
                  × SentBy d b.tcp tcp (flip q padding) y (x + 1) (set_flag fin_flag ack_flag) 0 [])
                ample a1 b a.tcp q x y (set_flag fin_flag ack_flag) 0 padding [] e.first keyed.first
                sent_a1 hosts.wired.0 hosts.there (omega (arith, half)) (omega (arith, range))
                (omega arith)
                (λ pkt reads.
                  receive_segment-Fin d laws ample b (flip q padding) pkt una_b y x end_b reads
                    range (omega (arith, half))))
              (λ b1 (end_b1, sent_b1).
                let hosts0 = AreHosts-same q sent_a1.same_nic refl hosts in
                let hosts1 = AreHosts-same q sent_a1.same_nic sent_b1.same_nic hosts in
                bind-Within (λ e. ⊥) (hand_over d e.second b1 a1) _ _ Goal
                  (hand_over-Returns d laws
                    (λ tcp heap.
                      (d.hash_lookup_data tcp.rte_hash q ≡ none)
                      × IsLeft d q heap
                      × SentBy d a1.tcp tcp q (x + 1) (y + 1) ack_flag 0 [])
                    ample b1 a1 b.tcp (flip q padding) y (x + 1) (set_flag fin_flag ack_flag) 0
                    q.padding [] e.second keyed.second sent_b1 hosts0.wired.1 hosts0.here
                    (omega (arith, range)) (omega (arith, half)) (omega arith)
                    (λ pkt reads.
                      receive_segment-Finished d laws ample a1 q pkt una_a (x + 1) y end_a1 reads
                        below (omega (arith, half)) range))
                  (λ a2 (gone_a, left_a, sent_a2).
                    bind-Within (λ e. ⊥) (hand_over d e.third a2 b1) _ _ Goal
                      (hand_over-Returns d laws
                        (λ tcp heap.
                          (d.hash_lookup_data tcp.rte_hash (flip q padding) ≡ none)
                          × (heap end_b1.place ≡ none)
                          × (tcp.printed ≡ b1.tcp.printed))
                        ample a2 b1 a1.tcp q (x + 1) (y + 1) ack_flag 0 padding [] e.third
                        keyed.third sent_a2 hosts1.wired.0 hosts1.there (omega (arith, half)) range
                        (omega arith)
                        (λ pkt reads.
                          receive_segment-Ended d laws ample b1 (flip q padding) pkt una_b (y + 1)
                            (x + 1) (x + 1) (y + 1) ack_flag 0 [] end_b1 reads))
                      (λ b2 (gone_b, given_back, quiet_b2). record {
                        gone_a = gone_a;
                        gone_b = gone_b;
                        left_a = left_a;
                        shown_a = sent_a2.same_log ∙ sent_a1.same_log ∙ h.shown_a;
                        shown_b = quiet_b2 ∙ sent_b1.same_log ∙ h.shown_b;
                      }))))

    -- DPDK is taken to behave as documented, with a buffer always free, and the padding bytes of
    -- `struct quad`, which no code sets, to be the same in every lookup of a host: in its commands
    -- and for every packet it receives. Of two hosts that are wired to each other and have the
    -- addresses of the quad, each with memory and a place in its table for the connection, one
    -- connects, both send messages of 1 to 100 bytes in any order, and the first one closes; each
    -- frame reaches the other side. With less than 2 ^ 31 - 3 bytes from the side that closes and 2
    -- ^ 32 - 2 from the other, all calls and packets are handled. `print_data` has then written
    -- every message of the other side on each host, in order, with a line feed behind each, and
    -- neither table has the connection, which is left in the memory of the side that has closed it.
    pub session-IsOver :
        (q : Quad) (padding : ℕ) (x : Exchange) (lines : List Line) (y : Exchange) (a b : Core T)
        → IsKeyed q padding x
        → AreKeyed q padding lines
        → IsKeyed q padding y
        → AreHosts q a.tcp.nic b.tcp.nic
        → HasRoom d q a
        → HasRoom d (flip q padding) b
        → AreMessages lines
        → said_by_a lines + 3 < 0x8000_0000
        → said_by_b lines + 2 < u32_mod
        → Returns
            (session d q x lines y a b)
            (IsOver q padding (a.tcp.printed ++ text_of_b lines) (b.tcp.printed ++ text_of_a lines))
    unfolding session
    session-IsOver q padding x lines y a b opens keyed closes hosts room_a room_b messages range_a
          range_b =
        bind-Within (λ e. ⊥) (open_link d q x a b) _ _ _
          (open_link-InSync d laws ample q padding x a b opens hosts room_a room_b)
          (λ r sync.
            bind-Within (λ e. ⊥) (converse d q lines r.0 r.1) _ _ _
              (converse-InSync d laws ample q padding lines r.0 r.1 2 0 1 1 a.tcp.printed
                b.tcp.printed keyed sync messages (omega (arith, range_a)) (omega (arith, range_b)))
              (λ t met.
                close_link-IsOver q padding y t.0 t.1 2 0 _ _ _ _ closes met (omega arith)
                  (omega (arith, range_a)) (omega (arith, range_b))))
