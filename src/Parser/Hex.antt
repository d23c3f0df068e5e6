-- ===== src/Parser/Hex.antt =====
-- `parse_hex_string` of src/cli/parser.c, and hexadecimal notation.
use tcp_dpdk.Base.{
  ℕ, ◌+◌, ◌-◌, ◌*◌, ◌/◌, ◌%◌, ◌≡◌, ◌<◌, refl, ap, Bool, true, not, ◌&&◌, ◌||◌, List, [], ◌∷◌, All,
  length, ltb, leb, isdigit, ◌==◌, u32_mod, arith, if◌then◌else◌,
}

-- `return -1`, with what `*size` is then; or 0, and the bytes in `dst`, `*size` of them.
pub data HexParsed : Type 0 where
  refused : ℕ → HexParsed
  parsed : List ℕ → HexParsed

abbrev pub get_hex_val : ℕ → ℕ
get_hex_val c =
    if isdigit c
    then c - b'0'
    else if leb b'A' c && leb c b'F'
    then c - b'A' + 10
    else if leb b'a' c && leb c b'f'
    then c - b'a' + 10
    else 0

abbrev pub is_hex : ℕ → Bool
is_hex c = isdigit c || (leb b'A' c && leb c b'F') || (leb b'a' c && leb c b'f')

-- The loop over the characters.
abbrev pub all_hex : List ℕ → Bool
all_hex [] = true
all_hex (c ∷ cs) = is_hex c && all_hex cs

-- The loop over `dst`, in uint8_t.
abbrev pub hex_bytes : List ℕ → List ℕ
hex_bytes (hi ∷ lo ∷ cs) = (get_hex_val hi * 16 + get_hex_val lo) % 256 ∷ hex_bytes cs
hex_bytes _ = []

-- For pointers that are not NULL. `len` and `(*size) * 2` are of type uint32_t.
unfoldable pub parse_hex_string : List ℕ → ℕ → HexParsed
parse_hex_string src size =
    let len = length src % u32_mod in
    if size == 0
    then refused size
    else if not (len % 4 == 0) || ltb (size * 2 % u32_mod) len
    then refused size
    else if all_hex src
    then parsed (hex_bytes src)
    else refused (len / 2)

abbrev pub digit : ℕ → ℕ
digit v = if ltb v 10 then b'0' + v else b'a' + (v - 10)

-- Two digits for each byte.
abbrev pub hex : List ℕ → List ℕ
hex [] = []
hex (b ∷ bs) = digit (b / 16) ∷ digit (b % 16) ∷ hex bs

abbrev pub AreBytes : List ℕ → Type 0
AreBytes bs = All (λ b. b < 256) bs

get_hex_val-digit : (v : ℕ) → v < 16 → get_hex_val (digit v) ≡ v
get_hex_val-digit v small = ground arith

is_hex-digit : (v : ℕ) → v < 16 → is_hex (digit v) ≡ true
is_hex-digit v small = ground arith

all_hex-hex : (bs : List ℕ) → AreBytes bs → all_hex (hex bs) ≡ true
all_hex-hex [] small = refl
all_hex-hex (b ∷ bs) small =
    rw (is_hex-digit (b / 16) (omega (arith, small.0)), is_hex-digit (b % 16) (omega arith))
      (all_hex-hex bs small.1)

hex_bytes-hex : (bs : List ℕ) → AreBytes bs → hex_bytes (hex bs) ≡ bs
hex_bytes-hex [] small = refl
hex_bytes-hex (b ∷ bs) small =
    let whole : (b / 16 * 16 + b % 16) % 256 ≡ b = omega (arith, small.0) in
    rw
      (
        get_hex_val-digit (b / 16) (omega (arith, small.0)),
        get_hex_val-digit (b % 16) (omega arith),
        whole,
      )
      (ap (λ l. b ∷ l) (hex_bytes-hex bs small.1))

length-hex : (bs : List ℕ) → length (hex bs) ≡ 2 * length bs
length-hex [] = refl
length-hex (b ∷ bs) = omega (arith, length-hex bs)

-- Room for `size` bytes, fewer than 2 ^ 31 and more than none: of the lower-case hexadecimal
-- notation of bytes, two digits each, `parse_hex_string` gives back the bytes if their number is
-- even and they fit, and otherwise it refuses them and leaves `*size` alone.
pub parse_hex_string-hex :
    (bs : List ℕ) (size : ℕ)
    → AreBytes bs
    → length bs < 0x8000_0000
    → 0 < size
    → size < 0x8000_0000
    → parse_hex_string (hex bs) size
      ≡ (if (length bs % 2 == 0) && leb (length bs) size then parsed bs else refused size)
unfolding parse_hex_string
parse_hex_string-hex bs size small short room range =
    rw (length-hex bs, all_hex-hex bs small, hex_bytes-hex bs small) (ground arith)
