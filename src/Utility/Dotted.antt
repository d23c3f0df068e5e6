-- ===== src/Utility/Dotted.antt =====
-- `string_to_ip` and dotted decimal.
use tcp_dpdk.Base.{
  ℕ, ◌+◌, ◌*◌, ◌%◌, ◌^◌, ◌<◌, ◌≡◌, refl, bit_or, List, ◌∷◌, ◌++◌, some, EndsNumber, decimal,
  strtol-decimal, arith, bit_or-add, ap,
}
use tcp_dpdk.Utility.{scan_byte, string_to_ip}

scan_byte-decimal :
    (n : ℕ) (rest : List ℕ)
    → n < 0x1_0000_0000
    → EndsNumber rest
    → scan_byte (decimal n ++ rest) ≡ some (n % 256, rest)
scan_byte-decimal n rest small ends = rw (strtol-decimal n rest (omega (arith, small)) ends) refl

-- The four bytes do not overlap.
pack-bytes :
    (a b c e : ℕ)
    → b < 256
    → c < 256
    → e < 256
    → bit_or (bit_or (bit_or (a * 2 ^ 24) (b * 2 ^ 16)) (c * 2 ^ 8)) e
      ≡ a * 2 ^ 24 + b * 2 ^ 16 + c * 2 ^ 8 + e
pack-bytes a b c e hb hc he =
    let two : a * 2 ^ 24 + b * 2 ^ 16 ≡ (a * 2 ^ 8 + b) * 2 ^ 16 = omega arith in
    let three : (a * 2 ^ 8 + b) * 2 ^ 16 + c * 2 ^ 8 ≡ (a * 2 ^ 16 + b * 2 ^ 8 + c) * 2 ^ 8 =
      omega arith in
    rw
      (
        bit_or-add 24 a (b * 2 ^ 16) (omega (arith, hb)),
        two,
        bit_or-add 16 (a * 2 ^ 8 + b) (c * 2 ^ 8) (omega (arith, hc)),
        three,
        bit_or-add 8 (a * 2 ^ 16 + b * 2 ^ 8 + c) e (omega (arith, he)),
      )
      (omega arith)

-- Of four numbers below 2 ^ 32 in decimal, a point between two and no digit behind the last one,
-- `string_to_ip` makes the address of their low bytes, the first one highest: of an address in
-- dotted decimal it gives back that address.
pub string_to_ip-dotted :
    (a b c e : ℕ) (rest : List ℕ)
    → a < 0x1_0000_0000
    → b < 0x1_0000_0000
    → c < 0x1_0000_0000
    → e < 0x1_0000_0000
    → EndsNumber rest
    → string_to_ip
        (decimal a ++ b'.' ∷ (decimal b ++ b'.' ∷ (decimal c ++ b'.' ∷ (decimal e ++ rest))))
      ≡ some (a % 256 * 2 ^ 24 + b % 256 * 2 ^ 16 + c % 256 * 2 ^ 8 + e % 256)
unfolding string_to_ip
string_to_ip-dotted a b c e rest ha hb hc he ends =
    rw
      (
        scan_byte-decimal a (b'.' ∷ (decimal b ++ b'.' ∷ (decimal c ++ b'.' ∷ (decimal e ++ rest))))
            ha refl,
        scan_byte-decimal b (b'.' ∷ (decimal c ++ b'.' ∷ (decimal e ++ rest))) hb refl,
        scan_byte-decimal c (b'.' ∷ (decimal e ++ rest)) hc refl,
        scan_byte-decimal e rest he ends,
      )
      (ap some (
        pack-bytes (a % 256) (b % 256) (c % 256) (e % 256) (omega arith) (omega arith)
          (omega arith)))
