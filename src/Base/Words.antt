-- ===== src/Base/Words.antt =====
-- C's unsigned arithmetic: the wrap-around of uint16_t, uint32_t, uint64_t, and int as the bit
-- pattern of its 32 bits.
use Prim.Native.Nat.{ℕ, ◌+◌, ◌-◌, ◌%◌}
use tcp_dpdk.Base.Tests.{ltb, if◌then◌else◌}

abbrev pub u16_mod : ℕ
u16_mod = 0x1_0000

abbrev pub u32_mod : ℕ
u32_mod = 0x1_0000_0000

abbrev pub u64_mod : ℕ
u64_mod = 0x1_0000_0000_0000_0000

-- a + b and a - b in uint32_t.
abbrev pub add32 : ℕ → ℕ → ℕ
add32 a b = (a + b) % u32_mod

abbrev pub sub32 : ℕ → ℕ → ℕ
sub32 a b = (a + u32_mod - b) % u32_mod

-- An int, as its bit pattern, converted to size_t: the sign is extended.
abbrev pub int_to_size : ℕ → ℕ
int_to_size n = if ltb n 0x8000_0000 then n else n + u64_mod - u32_mod
