-- ===== src/Utility/Dump.antt =====
-- `DumpHex` of src/utility/utility.c: the bytes that it prints.
mod Rows
mod Text
pub mod Whole
use tcp_dpdk.Base.{
  ℕ, zero, suc, ◌+◌, ◌-◌, ◌/◌, ◌%◌, ◌≡◌, ◌&&◌, ◌||◌, refl, List, [], ◌∷◌, ◌++◌, length, set, ltb,
  leb, ◌==◌, codes, if◌then◌else◌,
}

-- "%02X ", of an unsigned char
abbrev pub hex_digit : ℕ → ℕ
hex_digit n = if ltb n 10 then b'0' + n else b'A' + n - 10

abbrev pub cell : ℕ → List ℕ
cell b = hex_digit (b / 16) ∷ hex_digit (b % 16) ∷ b' ' ∷ []

abbrev pub shown : ℕ → ℕ
shown b = if leb b' ' b && leb b b'~' then b else b'.'

-- "%s": up to the NUL
abbrev pub c_string : List ℕ → List ℕ
c_string [] = []
c_string (c ∷ cs) = if c == 0 then [] else c ∷ c_string cs

-- "|  %s \n"
abbrev pub text_column : List ℕ → List ℕ
text_column ascii = b'|' ∷ b' ' ∷ b' ' ∷ (c_string ascii ++ b' ' ∷ b'\n' ∷ [])

-- `for (j = n; j < 16; ++j) printf("   ")`, of which `n` rounds are left
abbrev pub empty_cells : ℕ → List ℕ
empty_cells zero = []
empty_cells (suc n) = b' ' ∷ b' ' ∷ b' ' ∷ empty_cells n

-- The last row, when the data end behind column `n`. The loop is over then.
abbrev pub last_row : ℕ → List ℕ → List ℕ
last_row n ascii =
    (if leb n 8 then b' ' ∷ [] else []) ++ (empty_cells (16 - n) ++ text_column (set ascii n 0))

-- What follows a byte: `i` counts it.
abbrev pub behind : ℕ → ℕ → List ℕ → List ℕ
behind size i ascii =
    if i % 8 == 0 || i == size
    then b' '
      ∷ (if i % 16 == 0
          then text_column ascii
          else if i == size
          then last_row (i % 16) ascii
          else [])
    else []

-- From the byte at `i` on, of which `size` are to be printed.
unfoldable pub dump_loop : ℕ → ℕ → List ℕ → List ℕ → List ℕ
dump_loop size i ascii [] = []
dump_loop size i ascii (b ∷ bytes) =
    let ascii' = set ascii (i % 16) (shown b) in
    cell b ++ (behind size (i + 1) ascii' ++ dump_loop size (i + 1) ascii' bytes)

-- `garbage` is what the stack holds in `ascii`, 17 bytes.
unfoldable pub dump_hex : List ℕ → List ℕ → List ℕ
unfolding dump_loop
dump_hex garbage bytes = dump_loop (length bytes) 0 (set garbage 16 0) bytes
