-- ===== src/Utility.antt =====
-- The address conversions of src/utility/utility.c; Dump is its hex dump.
pub mod Dotted
pub mod Colons
pub mod Dump
use tcp_dpdk.Base.{
  add32, Bool, false, not, ◌&&◌, ◌||◌, skip_spaces, ℕ, ◌*◌, ◌%◌, ◌^◌, bit_or, List, [], ◌∷◌, Option,
  none, some, strtol, ◌==◌, if◌then◌else◌,
}
use tcp_dpdk.Parser.Numbers.{is_xdigit, strtoul_16}

infixl 5 ◌>>=◌
abbrev ◌>>=◌ {ℓ κ} : {A : Type ℓ} {B : Type κ} → Option A → (A → Option B) → Option B
none >>= f = none
some a >>= f = f a

-- `sscanf` with "%hhd.%hhd.%hhd.%hhd": a "%hhd" takes what `strtol` takes and keeps its low byte.
abbrev pub after_point : List ℕ → Option (List ℕ)
after_point [] = none
after_point (c ∷ cs) = if c == b'.' then some cs else none

abbrev pub scan_byte : List ℕ → Option (ℕ × List ℕ)
scan_byte s = do (n, rest) ← strtol s; some (n % 256, rest)

abbrev pub scan_point_byte : List ℕ → Option (ℕ × List ℕ)
scan_point_byte s = do rest ← after_point s; scan_byte rest

-- `none` is the `exit(1)` on a text that does not match.
unfoldable pub string_to_ip : List ℕ → Option ℕ
string_to_ip s = do
  (a, s1) ← scan_byte s
  (b, s2) ← scan_point_byte s1
  (c, s3) ← scan_point_byte s2
  (e, s4) ← scan_point_byte s3
  some (bit_or (bit_or (bit_or (a * 2 ^ 24) (b * 2 ^ 16)) (c * 2 ^ 8)) e)

-- What is behind a sign.
abbrev pub after_sign : List ℕ → List ℕ
after_sign [] = []
after_sign (c ∷ cs) = if (c == b'-') || (c == b'+') then cs else c ∷ cs

abbrev pub starts_hex : List ℕ → Bool
starts_hex [] = false
starts_hex (c ∷ cs) = is_xdigit c

-- A prefix "0x" without a digit behind it: `strtoul` takes its zero, `sscanf` fails.
abbrev pub is_bare_prefix : List ℕ → Bool
is_bare_prefix [] = false
is_bare_prefix (c ∷ []) = false
is_bare_prefix (c ∷ x ∷ cs) = (c == b'0') && ((x == b'x') || (x == b'X')) && not (starts_hex cs)

-- "%hhx" takes what `strtoul` takes to the base of 16 and keeps its low byte.
abbrev pub scan_hex : List ℕ → Option (ℕ × List ℕ)
scan_hex s =
    if is_bare_prefix (after_sign (skip_spaces s))
    then none
    else (do u ← strtoul_16 s; some (u.number % 256, u.next))

abbrev pub after_colon : List ℕ → Option (List ℕ)
after_colon [] = none
after_colon (c ∷ cs) = if c == b':' then some cs else none

abbrev pub scan_colon_hex : List ℕ → Option (ℕ × List ℕ)
scan_colon_hex s = do rest ← after_colon s; scan_hex rest

-- `none` is the `exit(1)` on a text that does not match "%hhx:%hhx:%hhx:%hhx:%hhx:%hhx".
unfoldable pub string_to_mac : List ℕ → Option ℕ
string_to_mac s = do
  (a, s1) ← scan_hex s
  (b, s2) ← scan_colon_hex s1
  (c, s3) ← scan_colon_hex s2
  (e, s4) ← scan_colon_hex s3
  (f, s5) ← scan_colon_hex s4
  (g, s6) ← scan_colon_hex s5
  some (
      bit_or
        (bit_or (bit_or (bit_or (bit_or (a * 2 ^ 40) (b * 2 ^ 32)) (c * 2 ^ 24)) (e * 2 ^ 16))
          (f * 2 ^ 8))
        g)

unfoldable pub wrapping_add : ℕ → ℕ → ℕ
wrapping_add add1 add2 = add32 add1 add2
