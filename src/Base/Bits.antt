-- ===== src/Base/Bits.antt =====
-- C's `|` of a number with zeros in its low bits and one that has only those.
use Prim.Native.Nat.{
  ℕ, zero, suc, ◌+◌, ◌*◌, ◌/◌, ◌%◌, ◌^◌, ◌≤◌, ◌<◌, max, bit_or, bit_or-bitwise, digits,
}
use mathlib.Core.Path.{◌≡◌, refl, ◌∙◌}
use native.Mathlib.Omega.{arith}

or_zero : (n a : ℕ) → a ≤ n → digits (λ b. b) max n a 0 ≡ a
or_zero zero zero h = refl
or_zero zero (suc a) h = absurd (omega (arith, h))
or_zero (suc n) zero h = refl
or_zero (suc n) (suc a) h = omega (arith, or_zero n (suc a / 2) (omega (arith, h)))

or_even :
    (n x p b : ℕ)
    → x ≡ p * 2
    → x ≤ suc n
    → digits (λ b. b) max n p (b / 2) ≡ p + b / 2
    → digits (λ b. b) max (suc n) x b ≡ x + b
or_even n zero p b e h rest = omega arith
or_even n (suc x) p b e h rest =
    let half : suc x / 2 ≡ p = omega (arith, e) in
    let even : suc x % 2 ≡ 0 = omega (arith, e) in rw (half, even) (omega (arith, rest, e))

or_digits :
    (k n a b : ℕ) → a * 2 ^ k ≤ n → b < 2 ^ k → digits (λ b. b) max n (a * 2 ^ k) b ≡ a * 2 ^ k + b
or_digits zero n a b h small =
    let none : b ≡ 0 = omega (arith, small) in rw none (or_zero n (a * 1) h ∙ omega arith)
or_digits (suc k) zero a b h small =
    let empty : a * 2 ^ suc k ≡ 0 = omega (arith, h) in rw empty (omega arith)
or_digits (suc k) (suc n) a b h small =
    let power : 2 ^ suc k ≡ 2 ^ k * 2 = grind arith in
    let double : a * 2 ^ suc k ≡ a * 2 ^ k * 2 = rw power (grind arith) in
    or_even n (a * 2 ^ suc k) (a * 2 ^ k) b double h
      (or_digits k n a (b / 2) (omega (arith, h, double)) (omega (arith, small, power)))

pub bit_or-add : (k a b : ℕ) → b < 2 ^ k → bit_or (a * 2 ^ k) b ≡ a * 2 ^ k + b
bit_or-add k a b small =
    (λ i. bit_or-bitwise (a * 2 ^ k) b i) ∙ or_digits k (a * 2 ^ k) a b (omega arith) small
