-- ===== src/Parser/Ethernet.antt =====
-- `my_ether_aton` and `parse_mac_addr` of src/cli/parser.c, and bytes with colons between them.
use tcp_dpdk.Base.{
  ℕ, zero, suc, ◌+◌, ◌*◌, ◌/◌, ◌%◌, ◌≡◌, ◌≤◌, ◌<◌, refl, ◌&&◌, ◌||◌, skip_spaces, u64_mod, ap, ◌∙◌,
  Bool, true, false, List, [], ◌∷◌, Option, none, some, length, isspace, ltb, leb, ◌==◌, arith,
  if◌then◌else◌,
}
use tcp_dpdk.Parser.Numbers.{
  Ulong, xdigit, is_xdigit, xdigits, xdigits_at, after_prefix, strtoul_16,
}
use tcp_dpdk.Parser.Hex.{digit, AreBytes}

-- A number has a colon behind it or ends the text, and errno is not set.
abbrev pub delimited : ℕ → List ℕ → Option (ℕ × List ℕ)
delimited v [] = some (v, [])
delimited v (c ∷ cs) = if c == b':' then some (v, c ∷ cs) else none

abbrev pub checked : Option Ulong → Option (ℕ × List ℕ)
checked none = none
checked (some u) = if u.out_of_range then none else delimited u.number u.next

abbrev pub prepend : ℕ → Option (List ℕ) → Option (List ℕ)
prepend v none = none
prepend v (some vs) = some (v ∷ vs)

-- Behind the colon the next number is read by `more`.
abbrev pub then_groups : (List ℕ → Option (List ℕ)) → Option (ℕ × List ℕ) → Option (List ℕ)
then_groups more none = none
then_groups more (some (v, [])) = some (v ∷ [])
then_groups more (some (v, c ∷ cs)) = prepend v (more cs)

-- The loop, `room` numbers from its end. What follows the last one is junk, and the result NULL.
unfoldable pub groups : ℕ → List ℕ → Option (List ℕ)
groups zero a = none
groups (suc room) a = then_groups (groups room) (checked (strtoul_16 a))

abbrev pub all_at_most : ℕ → List ℕ → Bool
all_at_most max [] = true
all_at_most max (v ∷ vs) = if ltb max v then false else all_at_most max vs

-- The two bytes of each number.
abbrev pub halves : List ℕ → List ℕ
halves [] = []
halves (v ∷ vs) = v / 256 % 256 ∷ v % 256 ∷ halves vs

abbrev pub address_of : List ℕ → Option (List ℕ)
address_of o =
    if length o == 6
    then (if all_at_most 0xff o then some o else none)
    else if length o == 3
    then (if all_at_most 0xffff o then some (halves o) else none)
    else none

abbrev pub address_from : Option (List ℕ) → Option (List ℕ)
address_from none = none
address_from (some o) = address_of o

-- The bytes of the address, or `none` for NULL.
unfoldable pub my_ether_aton : List ℕ → Option (List ℕ)
my_ether_aton a = address_from (groups 6 a)

-- `none` is -1.
unfoldable pub parse_mac_addr : List ℕ → Option (List ℕ)
unfolding my_ether_aton
parse_mac_addr token = my_ether_aton token

-- Bytes in hexadecimal, two digits each, a colon between two.
abbrev pub colon_groups : List ℕ → List ℕ
colon_groups [] = []
colon_groups (b ∷ bs) = b':' ∷ digit (b / 16) ∷ digit (b % 16) ∷ colon_groups bs

abbrev pub mac_text : ℕ → List ℕ → List ℕ
mac_text b bs = digit (b / 16) ∷ digit (b % 16) ∷ colon_groups bs

xdigit-digit : (v : ℕ) → v < 16 → xdigit (digit v) ≡ some v
xdigit-digit v small = ground arith

xdigits-colon_groups : (n : ℕ) (bs : List ℕ) → xdigits n (colon_groups bs) ≡ (n, colon_groups bs)
xdigits-colon_groups n [] = refl
xdigits-colon_groups n (b ∷ bs) = refl

-- A digit is no white space, no sign and not the x of a prefix.
pub digit_plain :
    (v : ℕ)
    → v < 16
    → (isspace (digit v) ≡ false)
      × ((digit v == b'-') ≡ false)
      × ((digit v == b'+') ≡ false)
      × ((digit v == b'x') ≡ false)
      × ((digit v == b'X') ≡ false)
digit_plain v small = ground arith

and-false : (b c : Bool) → c ≡ false → (b && c) ≡ false
and-false true c e = e
and-false false c e = refl

-- No prefix is taken off two digits.
after_prefix-digits :
    (hi lo : ℕ) (rest : List ℕ)
    → lo < 16
    → after_prefix false (digit hi ∷ digit lo ∷ rest)
      ≡ xdigits_at false (digit hi ∷ digit lo ∷ rest)
after_prefix-digits hi lo [] small = refl
after_prefix-digits hi lo (h ∷ rest) small =
    let (_, _, _, no_x, no_capital) = digit_plain lo small in
    let none_there : ((digit hi == b'0')
          && ((digit lo == b'x') || (digit lo == b'X'))
          && is_xdigit h)
        ≡ false =
      rw (no_x, no_capital) (rw (and-false (digit hi == b'0') false refl) refl) in
    rw none_there refl

xdigits_at-digits :
    (hi lo : ℕ) (bs : List ℕ)
    → hi < 16
    → lo < 16
    → xdigits_at false (digit hi ∷ digit lo ∷ colon_groups bs)
      ≡ some (record { number = hi * 16 + lo; out_of_range = false; next = colon_groups bs })
xdigits_at-digits hi lo bs small_hi small_lo =
    let fits : ltb (hi * 16 + lo) u64_mod ≡ true = ground arith in
    rw (xdigit-digit hi small_hi, xdigits_at)
      (rw (xdigit-digit lo small_lo, xdigits, xdigits-colon_groups (hi * 16 + lo) bs, fits) refl)

pub strtoul_16-mac_text :
    (b : ℕ) (bs : List ℕ)
    → b < 256
    → strtoul_16 (mac_text b bs)
      ≡ some (record { number = b; out_of_range = false; next = colon_groups bs })
unfolding strtoul_16
strtoul_16-mac_text b bs small =
    let hi = b / 16 in
    let lo = b % 16 in
    let (solid, no_minus, no_plus, _, _) = digit_plain hi (omega (arith, small)) in
    let whole : hi * 16 + lo ≡ b = omega arith in
    rw (solid, skip_spaces)
      (rw (no_minus, no_plus)
        (after_prefix-digits hi lo (colon_groups bs) (omega arith)
          ∙ xdigits_at-digits hi lo bs (omega (arith, small)) (omega arith)
          ∙ ap (λ v. some (record { number = v; out_of_range = false; next = colon_groups bs }))
              whole))

-- The numbers if there is room for them.
abbrev pub within : ℕ → List ℕ → Option (List ℕ)
within room bs = if leb (length bs) room then some bs else none

groups-mac_text :
    (room b : ℕ) (bs : List ℕ)
    → AreBytes (b ∷ bs)
    → groups room (mac_text b bs) ≡ within room (b ∷ bs)
unfolding groups
groups-mac_text zero b bs small = ground arith
groups-mac_text (suc room) b [] small =
    ap (λ u. then_groups (groups room) (checked u)) (strtoul_16-mac_text b [] small.0)
    ∙ ground arith
groups-mac_text (suc room) b (c ∷ cs) small =
    ap (λ u. then_groups (groups room) (checked u)) (strtoul_16-mac_text b (c ∷ cs) small.0)
    ∙ ap (prepend b) (groups-mac_text room c cs small.1)
    ∙ ground arith

all_at_most-bytes : (bs : List ℕ) (max : ℕ) → AreBytes bs → 255 ≤ max → all_at_most max bs ≡ true
all_at_most-bytes [] max small room = refl
all_at_most-bytes (b ∷ bs) max small room =
    ground (arith, all_at_most-bytes bs max small.1 room, small.0)

-- A zero byte in front of each byte.
abbrev pub widened : List ℕ → List ℕ
widened [] = []
widened (b ∷ bs) = 0 ∷ b ∷ widened bs

halves-bytes : (bs : List ℕ) → AreBytes bs → halves bs ≡ widened bs
halves-bytes [] small = refl
halves-bytes (b ∷ bs) small =
    let high : b / 256 % 256 ≡ 0 = omega (arith, small.0) in
    let low : b % 256 ≡ b = omega (arith, small.0) in
    rw (high, low) (ap (λ l. 0 ∷ b ∷ l) (halves-bytes bs small.1))

-- Of bytes in lower-case hexadecimal, two digits each and a colon between two: six of them are the
-- address; three of them are taken for 16-bit numbers, so that each one gets a zero byte in front;
-- any other number of them but none is refused.
pub parse_mac_addr-mac_text :
    (b : ℕ) (bs : List ℕ)
    → AreBytes (b ∷ bs)
    → parse_mac_addr (mac_text b bs) ≡ (
        if length (b ∷ bs) == 6
        then some (b ∷ bs)
        else if length (b ∷ bs) == 3
        then some (widened (b ∷ bs))
        else none)
unfolding parse_mac_addr my_ether_aton
parse_mac_addr-mac_text b bs small =
    ap address_from (groups-mac_text 6 b bs small)
    ∙ ground (
      arith,
      all_at_most-bytes (b ∷ bs) 255 small (omega arith),
      all_at_most-bytes (b ∷ bs) 65535 small (omega arith),
      halves-bytes (b ∷ bs) small,
    )
