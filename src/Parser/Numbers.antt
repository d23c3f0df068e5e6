-- ===== src/Parser/Numbers.antt =====
-- `parser_read_arg_bool` and the `parser_read_uint*` functions of src/cli/parser.c, with what they
-- call of the C library: `strtoul`.
pub mod Ranges
pub mod Suffixes
pub mod Switches
use tcp_dpdk.Base.{
  ℕ, ◌+◌, ◌-◌, ◌*◌, ◌%◌, ◌^◌, Bool, true, false, not, ◌&&◌, ◌||◌, List, [], ◌∷◌, Option, none, some,
  isspace, isdigit, skip_spaces, digits, ltb, leb, ◌==◌, u64_mod, if◌then◌else◌,
}

-- 0 and what is written to `*value`, -EINVAL, or -ERANGE.
pub data Parsed : Type 0 where
  value : ℕ → Parsed
  einval erange : Parsed

-- `p[0] == a && p[1] == b && p[2] == c`, and the pointer behind the three.
abbrev pub after_three : ℕ → ℕ → ℕ → List ℕ → Option (List ℕ)
after_three a b c (x ∷ y ∷ z ∷ s) = if (x == a) && (y == b) && (z == c) then some s else none
after_three a b c _ = none

abbrev pub after_two : ℕ → ℕ → List ℕ → Option (List ℕ)
after_two a b (x ∷ y ∷ s) = if (x == a) && (y == b) then some s else none
after_two a b _ = none

-- A word in small or in capital letters sets the result and moves on; another text does neither.
abbrev pub word : Option (List ℕ) → Option (List ℕ) → Parsed → Parsed × List ℕ → Parsed × List ℕ
word (some s) _ result (r, p) = (result, s)
word none (some s) result (r, p) = (result, s)
word none none result (r, p) = (r, p)

abbrev pub try_yes : Parsed × List ℕ → Parsed × List ℕ
try_yes (r, p) = word (after_three b'y' b'e' b's' p) (after_three b'Y' b'E' b'S' p) (value 1) (r, p)

abbrev pub try_on : Parsed × List ℕ → Parsed × List ℕ
try_on (r, p) = word (after_two b'o' b'n' p) (after_two b'O' b'N' p) (value 1) (r, p)

abbrev pub try_no : Parsed × List ℕ → Parsed × List ℕ
try_no (r, p) = word (after_two b'n' b'o' p) (after_two b'N' b'O' p) (value 0) (r, p)

abbrev pub try_off : Parsed × List ℕ → Parsed × List ℕ
try_off (r, p) = word (after_three b'o' b'f' b'f' p) (after_three b'O' b'F' b'F' p) (value 0) (r, p)

-- Nothing but white space may follow.
abbrev pub at_end : Parsed → List ℕ → Parsed
at_end r [] = r
at_end r (c ∷ cs) = einval

unfoldable pub parser_read_arg_bool : List ℕ → Parsed
parser_read_arg_bool p =
    let (r, rest) = try_off (try_no (try_on (try_yes (einval, skip_spaces p)))) in
    at_end r (skip_spaces rest)

-- A value out of range is ULONG_MAX, a value behind a minus sign its negative.
abbrev pub clamp_ulong : Bool → ℕ → ℕ
clamp_ulong negative n =
    if ltb n u64_mod then (if negative then (u64_mod - n) % u64_mod else n) else u64_mod - 1

abbrev pub mul_1024 : ℕ → ℕ
mul_1024 v = v * 1024 % u64_mod

-- `switch (*p)`, its cases falling through, and what follows the suffix.
abbrev pub scale : ℕ → List ℕ → ℕ × List ℕ
scale v [] = (v, [])
scale v (c ∷ cs) =
    if c == b'T'
    then (mul_1024 (mul_1024 (mul_1024 (mul_1024 v))), cs)
    else if c == b'G'
    then (mul_1024 (mul_1024 (mul_1024 v)), cs)
    else if c == b'M'
    then (mul_1024 (mul_1024 v), cs)
    else if (c == b'k') || (c == b'K')
    then (mul_1024 v, cs)
    else (v, c ∷ cs)

abbrev pub finish : ℕ × List ℕ → Parsed
finish (v, rest) = at_end (value v) (skip_spaces rest)

-- `strtoul(p, &next, 10)` at a digit.
abbrev pub read_number : List ℕ → Parsed
read_number [] = einval
read_number (c ∷ cs) =
    let (n, rest) = digits 0 (c ∷ cs) in
    if not (isdigit c) then einval else finish (scale (clamp_ulong false n) rest)

unfoldable pub parser_read_uint64 : List ℕ → Parsed
parser_read_uint64 p = read_number (skip_spaces p)

-- The value of a hexadecimal digit.
abbrev pub xdigit : ℕ → Option ℕ
xdigit c =
    if isdigit c
    then some (c - b'0')
    else if leb b'A' c && leb c b'F'
    then some (c - b'A' + 10)
    else if leb b'a' c && leb c b'f'
    then some (c - b'a' + 10)
    else none

abbrev pub is_xdigit : ℕ → Bool
is_xdigit c = elim (xdigit c) [ none ↦ false | some v ↦ true ]

abbrev pub xdigits : ℕ → List ℕ → ℕ × List ℕ
xdigits n [] = (n, [])
xdigits n (c ∷ cs) = elim (xdigit c) [ none ↦ (n, c ∷ cs) | some v ↦ xdigits (n * 16 + v) cs ]

-- What `strtoul` returns, whether it sets errno to ERANGE, and `next`.
pub record Ulong : Type 0 where
  pub number : ℕ
  pub out_of_range : Bool
  pub next : List ℕ

abbrev pub to_ulong : Bool → ℕ × List ℕ → Ulong
to_ulong negative (n, rest) = record {
  number = clamp_ulong negative n;
  out_of_range = not (ltb n u64_mod);
  next = rest;
}

abbrev pub xdigits_at : Bool → List ℕ → Option Ulong
xdigits_at negative [] = none
xdigits_at negative (c ∷ cs) = elim (xdigit c) [
  | none ↦ none
  | some v ↦ some (to_ulong negative (xdigits v cs))
]

-- A prefix "0x" counts if a digit follows it.
abbrev pub after_prefix : Bool → List ℕ → Option Ulong
after_prefix negative (c ∷ x ∷ h ∷ cs) =
    if (c == b'0') && ((x == b'x') || (x == b'X')) && is_xdigit h
    then xdigits_at negative (h ∷ cs)
    else xdigits_at negative (c ∷ x ∷ h ∷ cs)
after_prefix negative s = xdigits_at negative s

abbrev pub signed : List ℕ → Option Ulong
signed [] = none
signed (c ∷ cs) =
    if c == b'-'
    then after_prefix true cs
    else if c == b'+'
    then after_prefix false cs
    else after_prefix false (c ∷ cs)

-- `strtoul(p, &next, 16)`; `none` if `next` stays at the start.
unfoldable pub strtoul_16 : List ℕ → Option Ulong
strtoul_16 s = signed (skip_spaces s)

abbrev pub finish_hex : Option Ulong → Parsed
finish_hex none = einval
finish_hex (some u) = at_end (value u.number) (skip_spaces u.next)

unfoldable pub parser_read_uint64_hex : List ℕ → Parsed
parser_read_uint64_hex p = finish_hex (strtoul_16 (skip_spaces p))

-- `if (val > max) return -ERANGE`
abbrev pub at_most : ℕ → Parsed → Parsed
at_most max (value v) = if ltb max v then erange else value v
at_most max einval = einval
at_most max erange = erange

unfoldable pub parser_read_uint32 : List ℕ → Parsed
parser_read_uint32 p = at_most 0xffff_ffff (parser_read_uint64 p)

unfoldable pub parser_read_uint32_hex : List ℕ → Parsed
parser_read_uint32_hex p = at_most 0xffff_ffff (parser_read_uint64_hex p)

unfoldable pub parser_read_uint16 : List ℕ → Parsed
parser_read_uint16 p = at_most 0xffff (parser_read_uint64 p)

unfoldable pub parser_read_uint16_hex : List ℕ → Parsed
parser_read_uint16_hex p = at_most 0xffff (parser_read_uint64_hex p)

unfoldable pub parser_read_uint8 : List ℕ → Parsed
parser_read_uint8 p = at_most 0xff (parser_read_uint64 p)

unfoldable pub parser_read_uint8_hex : List ℕ → Parsed
parser_read_uint8_hex p = at_most 0xff (parser_read_uint64_hex p)
