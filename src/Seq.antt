-- ===== src/Seq.antt =====
-- Sequence number comparison of src/tcp/tcp.c.
pub mod Order
use tcp_dpdk.Base.{ℕ, Bool, ltb, ◌&&◌, sub32}

-- `(lhs - rhs) > (1 << 31)`: the right side is converted to uint32_t.
unfoldable pub wrapping_lt : ℕ → ℕ → Bool
wrapping_lt lhs rhs = ltb 0x8000_0000 (sub32 lhs rhs)

-- Strictly between, on the circle of the 2 ^ 32 sequence numbers.
unfoldable pub is_between_wrapped : ℕ → ℕ → ℕ → Bool
unfolding wrapping_lt
is_between_wrapped start x end = wrapping_lt start x && wrapping_lt x end
