-- ===== src/Invariant/FinWait.antt =====
-- The acknowledgement of our FIN.
use tcp_dpdk.Base.{
  ℕ, ◌+◌, ◌≡◌, ◌≤◌, ◌<◌, ap, ◌∙◌, ◌↔◌, Bool-cases, inl, inr, refl, true, [], add32, u32_mod,
  Returns, arith,
}
use tcp_dpdk.Flags.{has_flag, ack_flag}
use tcp_dpdk.Seq.{is_between_wrapped}
use tcp_dpdk.Segment.{segment_check}
use tcp_dpdk.Connection.{Connection, TcpHdr, fin_wait1, fin_wait2}
use tcp_dpdk.Dpdk.{Dpdk, IsDpdk}
use tcp_dpdk.Tcp.{Session}
use tcp_dpdk.Tx.{fill_headers}
use tcp_dpdk.Tx.Effects.{tcp_tx_packets-ok, transmitted_plain}
use tcp_dpdk.Handlers.{acks_sent, answering, reply, handle_tcp_fin_wait1, seq_of, ackn_of}

-- The number behind all that was sent is taken unless it is half the circle past the oldest one.
pub acks_sent_all :
    (c : Connection)
    → c.send.una ≤ c.send.nxt
    → c.send.nxt < u32_mod
    → (acks_sent c c.send.nxt ≡ true) ↔ (c.send.nxt + 1 < c.send.una + 0x8000_0000)
unfolding acks_sent is_between_wrapped
acks_sent_all c below range = (λ h. ground arith, λ h. ground arith)

module _ {T : Type 0} (d : Dpdk T) (laws : IsDpdk d) where
  -- DPDK is taken to behave as documented. A segment that passes `segment_check` and acknowledges
  -- all that a connection in FIN_WAIT1 has sent is handled; it ends FIN_WAIT1 exactly when the
  -- numbers from `una`, which no data advance, to the one behind it are less than half the circle.
  pub handle_tcp_fin_wait1_iff :
      (s : Session T) (hdr : TcpHdr) (size : ℕ)
      → s.connection.tcp_state ≡ fin_wait1
      → s.connection.send.una ≤ s.connection.send.nxt
      → s.connection.send.nxt < u32_mod
      → segment_check s.connection size (seq_of d hdr) ≡ true
      → ackn_of d hdr ≡ s.connection.send.nxt
      → Returns (handle_tcp_fin_wait1 d s hdr size) (λ t.
        (t.connection.tcp_state ≡ fin_wait2)
        ↔ (s.connection.send.nxt + 1 < s.connection.send.una + 0x8000_0000))
  unfolding handle_tcp_fin_wait1 reply has_flag fill_headers
  handle_tcp_fin_wait1_iff s hdr size state below range passes acks =
      let c = s.connection in
      let r = answering c fin_wait2 (add32 (seq_of d hdr) 1) ack_flag in
      let taken = acks_sent_all c below range in
      let at_all : acks_sent c (ackn_of d hdr) ≡ acks_sent c c.send.nxt = ap (acks_sent c) acks in
      elim (Bool-cases (acks_sent c c.send.nxt)) [
        | inl yes_all ↦
            rw
              (
                passes,
                at_all ∙ yes_all,
                tcp_tx_packets-ok d laws (record { tcp = s.tcp; connection = r }) [] 0
                    (omega arith, omega arith),
                transmitted_plain d r 0 refl refl,
              )
              (λ e. taken.0 yes_all, λ h. refl)
        | inr no_all ↦ rw (passes, at_all ∙ no_all) (ground (arith, taken, no_all, state))
      ]
