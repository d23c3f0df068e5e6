-- ===== src/Flags.antt =====
-- The TCP flag bits, the C operators on them, and what a set or cleared bit means to a test.
use tcp_dpdk.Base.{ℕ, ◌-◌, Bool, not, ◌==◌, bit_and, bit_or}

abbrev pub fin_flag : ℕ
fin_flag = 0x01

abbrev pub syn_flag : ℕ
syn_flag = 0x02

abbrev pub psh_flag : ℕ
psh_flag = 0x08

abbrev pub ack_flag : ℕ
ack_flag = 0x10

-- `(flags & f) != 0`
unfoldable pub has_flag : ℕ → ℕ → Bool
has_flag flags f = not (bit_and flags f == 0)

-- `flags & ~f` in uint8_t
unfoldable pub clear_flag : ℕ → ℕ → ℕ
clear_flag flags f = bit_and flags (0xff - f)

-- `flags | f`
unfoldable pub set_flag : ℕ → ℕ → ℕ
set_flag flags f = bit_or flags f
