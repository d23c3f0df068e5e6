-- ===== src/Segment/Window.antt =====
-- `segment_check` against the acceptance test of RFC 793.
use tcp_dpdk.Base.{ℕ, ◌<◌, ◌≡◌, ◌≢◌, ◌↔◌, ◌⊎◌, true, sub32, u16_mod, u32_mod, arith}
use tcp_dpdk.Seq.{is_between_wrapped}
use tcp_dpdk.Connection.{Connection}
use tcp_dpdk.Segment.{segment_check}

-- With sequence numbers below 2 ^ 32 and a window below 2 ^ 16, a segment without data passes
-- exactly when RFC 793 accepts it: its number is the next one expected, or lies in the window,
-- fewer than `wnd` steps above it.
pub segment_check_empty_iff :
    (c : Connection) (seqn : ℕ)
    → c.recv.nxt < u32_mod
    → c.recv.wnd < u16_mod
    → seqn < u32_mod
    → (segment_check c 0 seqn ≡ true) ↔ ((seqn ≡ c.recv.nxt) ⊎ (sub32 seqn c.recv.nxt < c.recv.wnd))
unfolding segment_check is_between_wrapped
segment_check_empty_iff c seqn hn hw hs = (λ h. ground arith, λ h. ground arith)

-- A segment with data passes exactly when the window is open, wherever its data lies.
pub segment_check_data_iff :
    (c : Connection) (slen seqn : ℕ)
    → slen ≢ 0
    → (segment_check c slen seqn ≡ true) ↔ (c.recv.wnd ≢ 0)
unfolding segment_check
segment_check_data_iff c slen seqn some_data = (λ h. ground arith, λ h. ground arith)
