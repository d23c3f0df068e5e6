-- ===== src/Utility/Colons.antt =====
-- `string_to_mac` and bytes in hexadecimal.
use tcp_dpdk.Base.{
  ℕ, ◌+◌, ◌*◌, ◌/◌, ◌%◌, ◌^◌, ◌<◌, ◌≡◌, refl, ap, false, not, bit_or, bit_or-add, List, [], ◌∷◌,
  some, skip_spaces, ◌==◌, ◌&&◌, Bool, true, arith,
}
use tcp_dpdk.Parser.Ethernet.{mac_text, colon_groups, strtoul_16-mac_text, digit_plain}
use tcp_dpdk.Parser.Hex.{digit}
use tcp_dpdk.Utility.{starts_hex, scan_hex, is_bare_prefix, after_sign, string_to_mac}

and_false : (b : Bool) → (b && false) ≡ false
and_false true = refl
and_false false = refl

scan_hex-mac_text :
    (b : ℕ) (bs : List ℕ) → b < 256 → scan_hex (mac_text b bs) ≡ some (b, colon_groups bs)
scan_hex-mac_text b bs small =
    let (solid, no_minus, no_plus, _, _) = digit_plain (b / 16) (omega (arith, small)) in
    let (_, _, _, no_x, no_capital) = digit_plain (b % 16) (omega arith) in
    let plain : is_bare_prefix (after_sign (skip_spaces (mac_text b bs))) ≡ false = rw (solid) (
      rw (no_minus, no_plus)
        (rw (no_x, no_capital)
          (ap (λ v. v && not (starts_hex (colon_groups bs)))
            (and_false (digit (b / 16) == b'0'))))) in
    let low : b % 256 ≡ b = omega (arith, small) in
    rw (plain, strtoul_16-mac_text b bs small, low) refl

pack-six :
    (a b c e f g : ℕ)
    → b < 256
    → c < 256
    → e < 256
    → f < 256
    → g < 256
    → bit_or
        (bit_or
          (bit_or (bit_or (bit_or (a * 2 ^ 40) (b * 2 ^ 32)) (c * 2 ^ 24)) (e * 2 ^ 16))
          (f * 2 ^ 8))
        g
      ≡ a * 2 ^ 40 + b * 2 ^ 32 + c * 2 ^ 24 + e * 2 ^ 16 + f * 2 ^ 8 + g
pack-six a b c e f g hb hc he hf hg =
    let two : a * 2 ^ 40 + b * 2 ^ 32 ≡ (a * 2 ^ 8 + b) * 2 ^ 32 = omega arith in
    let n = a * 2 ^ 8 + b in
    let three : n * 2 ^ 32 + c * 2 ^ 24 ≡ (n * 2 ^ 8 + c) * 2 ^ 24 = omega arith in
    let n' = n * 2 ^ 8 + c in
    let four : n' * 2 ^ 24 + e * 2 ^ 16 ≡ (n' * 2 ^ 8 + e) * 2 ^ 16 = omega arith in
    let n'' = n' * 2 ^ 8 + e in
    let five : n'' * 2 ^ 16 + f * 2 ^ 8 ≡ (n'' * 2 ^ 8 + f) * 2 ^ 8 = omega arith in
    rw
      (
        bit_or-add 40 a (b * 2 ^ 32) (omega (arith, hb)),
        two,
        bit_or-add 32 n (c * 2 ^ 24) (omega (arith, hc)),
        three,
        bit_or-add 24 n' (e * 2 ^ 16) (omega (arith, he)),
        four,
        bit_or-add 16 n'' (f * 2 ^ 8) (omega (arith, hf)),
        five,
        bit_or-add 8 (n'' * 2 ^ 8 + f) g (omega (arith, hg)),
      )
      (omega arith)

-- Of six bytes in hexadecimal, of two digits each and with a colon between two, `string_to_mac` makes
-- the number that they are in base 256, the first one highest.
pub string_to_mac-mac_text :
    (a b c e f g : ℕ)
    → a < 256
    → b < 256
    → c < 256
    → e < 256
    → f < 256
    → g < 256
    → string_to_mac (mac_text a (b ∷ c ∷ e ∷ f ∷ g ∷ []))
      ≡ some (a * 2 ^ 40 + b * 2 ^ 32 + c * 2 ^ 24 + e * 2 ^ 16 + f * 2 ^ 8 + g)
unfolding string_to_mac
string_to_mac-mac_text a b c e f g ha hb hc he hf hg =
    rw
      (
        scan_hex-mac_text a (b ∷ c ∷ e ∷ f ∷ g ∷ []) ha,
        scan_hex-mac_text b (c ∷ e ∷ f ∷ g ∷ []) hb,
        scan_hex-mac_text c (e ∷ f ∷ g ∷ []) hc,
        scan_hex-mac_text e (f ∷ g ∷ []) he,
        scan_hex-mac_text f (g ∷ []) hf,
        scan_hex-mac_text g [] hg,
      )
      (ap some (pack-six a b c e f g hb hc he hf hg))
