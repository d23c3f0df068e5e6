-- ===== src/Base/Bytes.antt =====
-- C strings as the list of their bytes up to the NUL, and what the program calls of the C library
-- on them: `isspace`, `isdigit`, `strcmp`, `strtol`, `snprintf`.
use Prim.Native.Char.{code}
use Prim.Native.String.{String}
use Prim.Native.Nat.{ℕ, ◌+◌, ◌-◌, ◌*◌, ◌%◌, min}
use mathlib.Core.Bool.{Bool, true, false, ◌&&◌, ◌||◌}
use mathlib.Core.Option.{Option, none, some}
use mathlib.Core.List.{List, [], ◌∷◌}
use tcp_dpdk.Base.Tests.{leb, ◌==◌, if◌then◌else◌}
use tcp_dpdk.Base.Lists.{take}
use tcp_dpdk.Base.Words.{u64_mod}

-- The bytes of an ASCII text.
abbrev pub codes : String → List ℕ
codes String.[] = []
codes (String.◌∷◌ c s) = code c ∷ codes s

abbrev pub same_bytes : List ℕ → List ℕ → Bool
same_bytes [] [] = true
same_bytes (a ∷ s) (b ∷ t) = (a == b) && same_bytes s t
same_bytes _ _ = false

-- `strcmp(s, text) == 0`
abbrev pub is : List ℕ → String → Bool
is s text = same_bytes s (codes text)

-- The string in a buffer: what stands before the first NUL.
abbrev pub c_string : List ℕ → List ℕ
c_string [] = []
c_string (c ∷ cs) = if c == 0 then [] else c ∷ c_string cs

-- What `snprintf` leaves of a text in a buffer of `size` bytes.
abbrev pub snprintf : ℕ → List ℕ → List ℕ
snprintf size text = take (size - 1) text

-- In the C locale.
abbrev pub isspace : ℕ → Bool
isspace c = (c == b' ') || (leb 9 c && leb c 13)

abbrev pub isdigit : ℕ → Bool
isdigit c = leb b'0' c && leb c b'9'

abbrev pub skip_spaces : List ℕ → List ℕ
skip_spaces [] = []
skip_spaces (c ∷ cs) = if isspace c then skip_spaces cs else c ∷ cs

-- The value of the digits in front, over `n` for those before, and what follows them.
abbrev pub digits : ℕ → List ℕ → ℕ × List ℕ
digits n [] = (n, [])
digits n (c ∷ cs) = elim (isdigit c) [
  | true ↦ digits (n * 10 + (c - b'0')) cs
  | false ↦ (n, c ∷ cs)
]

abbrev pub after_digits : Bool → List ℕ → Option (ℕ × List ℕ)
after_digits negative [] = none
after_digits negative (c ∷ cs) =
    let (n, rest) = digits 0 (c ∷ cs) in
    if isdigit c
    then some (
        if negative
        then ((u64_mod - min n 0x8000_0000_0000_0000) % u64_mod, rest)
        else (min n 0x7fff_ffff_ffff_ffff, rest))
    else none

abbrev pub after_sign : List ℕ → Option (ℕ × List ℕ)
after_sign [] = none
after_sign (c ∷ cs) =
    if c == b'-'
    then after_digits true cs
    else if c == b'+'
    then after_digits false cs
    else after_digits false (c ∷ cs)

-- `strtol(s, &next, 10)`: the bit pattern of the long, of all 64 bits, and `next`; or `none` if
-- `next` stays at the start. A value out of range is the nearest one in range.
abbrev pub strtol : List ℕ → Option (ℕ × List ℕ)
strtol s = after_sign (skip_spaces s)

-- `atoi`, as a bit pattern too
abbrev pub atoi : List ℕ → ℕ
atoi s = elim (strtol s) [ none ↦ 0 | some (n, rest) ↦ n ]
