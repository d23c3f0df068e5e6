-- ===== src/Seq/Order.antt =====
-- What the comparisons of sequence numbers decide, in terms of distances on the circle.
use tcp_dpdk.Base.{ℕ, ◌≤◌, ◌<◌, ◌≡◌, ◌↔◌, true, false, sub32, u32_mod, arith}
use tcp_dpdk.Seq.{wrapping_lt, is_between_wrapped}

-- For sequence numbers below 2 ^ 32, `wrapping_lt a b` holds exactly when going up from `a`
-- reaches `b` in more than zero and less than 2 ^ 31 steps.
pub wrapping_lt_iff :
    (a b : ℕ)
    → a < u32_mod
    → b < u32_mod
    → (wrapping_lt a b ≡ true) ↔ ((0 < sub32 b a) × (sub32 b a < 0x8000_0000))
unfolding wrapping_lt
wrapping_lt_iff a b ha hb = ground arith

-- No two numbers precede one another.
wrapping_lt_asym :
    (a b : ℕ) → a < u32_mod → b < u32_mod → wrapping_lt a b ≡ true → wrapping_lt b a ≡ false
unfolding wrapping_lt
wrapping_lt_asym a b ha hb h = ground arith

-- If `end` is at most 2 ^ 31 steps above `start`, then `is_between_wrapped start x end` holds
-- exactly when `x` lies strictly inside the arc that goes up from `start` to `end`.
pub is_between_wrapped_iff :
    (start x end : ℕ)
    → start < u32_mod
    → x < u32_mod
    → end < u32_mod
    → sub32 end start ≤ 0x8000_0000
    → (is_between_wrapped start x end ≡ true)
      ↔ ((0 < sub32 x start) × (sub32 x start < sub32 end start))
unfolding is_between_wrapped
is_between_wrapped_iff start x end hs hx he w = ground arith
