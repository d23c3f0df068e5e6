-- ===== src/Link/Handshake.antt =====
-- Two hosts open a connection.
use tcp_dpdk.Base.{ℕ, refl, ◌∙◌, [], Returns, bind-Within, arith}
use tcp_dpdk.Flags.{syn_flag, ack_flag, set_flag}
use tcp_dpdk.Connection.{Quad, established, syn_recv}
use tcp_dpdk.Dpdk.{Dpdk, IsDpdk}
use tcp_dpdk.Tcp.{Core}
use tcp_dpdk.Active.{active_connect}
use tcp_dpdk.Link.{AreHosts, Exchange, IsKeyed, flip, IsAmple, hand_over, open_link}
use tcp_dpdk.Link.Ends.{EndOf, IsQuiet, SentBy, HasRoom, InSync}
use tcp_dpdk.Link.Packets.{AreHosts-same, hand_over-Returns}
use tcp_dpdk.Link.Opening.{
  active_connect-SentBy, receive_segment-SynSent, receive_segment-Acknowledged,
  receive_segment-Opened,
}

module _ {T : Type 0} (d : Dpdk T) (laws : IsDpdk d) (ample : IsAmple d) (q : Quad)
    (padding : ℕ) where
  -- DPDK is taken to behave as documented, with a buffer always free, and the padding bytes of
  -- `struct quad`, which no code sets, to be the same in every lookup of a host, for the command
  -- and for packets. Of two hosts that are wired to each other and have the addresses of the quad,
  -- each with memory and a place in its table for the connection, one connects. Its SYN, the answer
  -- and the acknowledgement are handled, and both ends are established then, with 1 to be sent next
  -- and expected on either side; `print_data` has written nothing on either.
  pub open_link-InSync :
      (x : Exchange) (a b : Core T)
      → IsKeyed q padding x
      → AreHosts q a.tcp.nic b.tcp.nic
      → HasRoom d q a
      → HasRoom d (flip q padding) b
      → Returns (open_link d q x a b) (InSync d q padding 2 0 1 1 a.tcp.printed b.tcp.printed)
  unfolding open_link
  open_link-InSync x a b keyed hosts room_a room_b =
      bind-Within (λ e. ⊥) (active_connect d a q.sip q.sport q.dport x.call) _ _
        (InSync d q padding 2 0 1 1 a.tcp.printed b.tcp.printed)
        (active_connect-SentBy d laws ample a q x.call keyed.call hosts.here room_a)
        (λ a1 (end_a1, sent_a1).
          bind-Within (λ e. ⊥) (hand_over d x.first a1 b) _ _
            (InSync d q padding 2 0 1 1 a.tcp.printed b.tcp.printed)
            (hand_over-Returns d laws
              (λ tcp heap.
                EndOf d (flip q padding) syn_recv 0 1 1 tcp heap
                × SentBy d b.tcp tcp (flip q padding) 0 1 (set_flag syn_flag ack_flag) 0 [])
              ample a1 b a.tcp q 0 0 syn_flag 0 padding [] x.first keyed.first sent_a1 hosts.wired.0
              hosts.there (omega arith) (omega arith) (omega arith)
              (λ pkt reads.
                receive_segment-SynSent d laws ample b (flip q padding) pkt 0 reads (omega arith)
                  room_b))
            (λ b1 (end_b1, sent_b1).
              let hosts0 = AreHosts-same q sent_a1.same_nic refl hosts in
              let hosts1 = AreHosts-same q sent_a1.same_nic sent_b1.same_nic hosts in
              bind-Within (λ e. ⊥) (hand_over d x.second b1 a1) _ _
                (InSync d q padding 2 0 1 1 a.tcp.printed b.tcp.printed)
                (hand_over-Returns d laws
                  (λ tcp heap.
                    EndOf d q established 2 1 1 tcp heap × SentBy d a1.tcp tcp q 1 1 ack_flag 0 [])
                  ample b1 a1 b.tcp (flip q padding) 0 1 (set_flag syn_flag ack_flag) 0 q.padding []
                  x.second keyed.second sent_b1 hosts0.wired.1 hosts0.here (omega arith)
                  (omega arith) (omega arith)
                  (λ pkt reads.
                    receive_segment-Acknowledged d laws ample a1 q pkt 0
                      (set_flag syn_flag ack_flag) end_a1 reads (omega arith)))
                (λ a2 (end_a2, sent_a2).
                  bind-Within (λ e. ⊥) (hand_over d x.third a2 b1) _ _
                    (InSync d q padding 2 0 1 1 a.tcp.printed b.tcp.printed)
                    (hand_over-Returns d laws
                      (λ tcp heap.
                        EndOf d (flip q padding) established 0 1 1 tcp heap × IsQuiet d b1.tcp tcp)
                      ample a2 b1 a1.tcp q 1 1 ack_flag 0 padding [] x.third keyed.third sent_a2
                      hosts1.wired.0 hosts1.there (omega arith) (omega arith) (omega arith)
                      (λ pkt reads.
                        receive_segment-Opened d laws ample b1 (flip q padding) pkt 1 ack_flag
                          end_b1 reads))
                    (λ b2 (end_b2, (same_b2, quiet_b2)). record {
                      end_a = end_a2;
                      end_b = end_b2;
                      hosts = AreHosts-same q sent_a2.same_nic same_b2 hosts1;
                      shown_a = sent_a2.same_log ∙ sent_a1.same_log;
                      shown_b = quiet_b2 ∙ sent_b1.same_log;
                    }))))
