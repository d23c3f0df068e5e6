-- ===== src/Base/Decimal.antt =====
-- Decimal notation, and that `digits` reads it back.
use Prim.Native.Nat.{ℕ, zero, suc, ◌+◌, ◌-◌, ◌*◌, ◌/◌, ◌%◌, ◌^◌, ◌≤◌, ◌<◌, min}
use mathlib.Core.Option.{some}
use mathlib.Core.Path.{◌≡◌, refl, ap, ◌∙◌}
use mathlib.Core.Logic.{inl, inr}
use mathlib.Core.Bool.{true, false}
use mathlib.Core.List.{List, [], ◌∷◌, ◌++◌, append_assoc}
use native.Mathlib.Omega.{arith}
use tcp_dpdk.Base.Tests.{ltb, ◌==◌, if◌then◌else◌, Bool-cases, ltb_iff}
use tcp_dpdk.Base.Bytes.{isdigit, isspace, skip_spaces, digits, strtol}

-- The digits of `n`, at most `fuel + 1` of them.
abbrev pub decimal_upto : ℕ → ℕ → List ℕ
decimal_upto zero n = (b'0' + n % 10) ∷ []
decimal_upto (suc fuel) n =
    if ltb n 10 then (b'0' + n % 10) ∷ [] else decimal_upto fuel (n / 10) ++ (b'0' + n % 10) ∷ []

-- Of a number with at most twenty digits, as a uint64_t has.
unfoldable pub decimal : ℕ → List ℕ
decimal n = decimal_upto 19 n

-- The text does not go on with a digit.
abbrev pub EndsNumber : List ℕ → Type 0
EndsNumber [] = Unit
EndsNumber (c ∷ cs) = isdigit c ≡ false

digits_step :
    (acc n : ℕ) (rest : List ℕ)
    → n < 10
    → digits acc ((b'0' + n) ∷ rest) ≡ digits (acc * 10 + n) rest
digits_step acc n rest small =
    let digit : isdigit (b'0' + n) ≡ true = ground arith in
    let value : b'0' + n - b'0' ≡ n = omega arith in rw (digit, digits, value) refl

pub digits_end : (acc : ℕ) (rest : List ℕ) → EndsNumber rest → digits acc rest ≡ (acc, rest)
digits_end acc [] ends = refl
digits_end acc (c ∷ cs) ends = rw (ends, digits) refl

digits-decimal_upto :
    (fuel n : ℕ) (rest : List ℕ)
    → n < 10 ^ suc fuel
    → digits 0 (decimal_upto fuel n ++ rest) ≡ digits n rest
digits-decimal_upto zero n rest small =
    let whole : 0 * 10 + n % 10 ≡ n = omega arith in
    digits_step 0 (n % 10) rest (omega arith) ∙ ap (λ v. digits v rest) whole
digits-decimal_upto (suc fuel) n rest small = elim (Bool-cases (ltb n 10)) [
  | inl last ↦
      let whole : 0 * 10 + n % 10 ≡ n = omega (arith, (ltb_iff n 10).0 last) in
      rw (last, decimal_upto)
        (digits_step 0 (n % 10) rest (omega arith) ∙ ap (λ v. digits v rest) whole)
  | inr more ↦
      let whole : n / 10 * 10 + n % 10 ≡ n = omega arith in
      rw (more, decimal_upto, append_assoc)
        (digits-decimal_upto fuel (n / 10) ((b'0' + n % 10) ∷ rest) (omega (arith, small))
          ∙ digits_step (n / 10) (n % 10) rest (omega arith)
          ∙ ap (λ v. digits v rest) whole)
]

-- `digits` reads a number off its decimal notation, up to what is no digit.
pub digits-decimal :
    (n : ℕ) (rest : List ℕ)
    → n < 100_000_000_000_000_000_000
    → EndsNumber rest
    → digits 0 (decimal n ++ rest) ≡ (n, rest)
unfolding decimal
digits-decimal n rest small ends = digits-decimal_upto 19 n rest small ∙ digits_end n rest ends

-- The notation starts with a digit.
pub record Starts (s : List ℕ) : Type 0 where
  pub first : ℕ
  pub more : List ℕ
  pub parts : s ≡ first ∷ more
  pub digit : isdigit first ≡ true

decimal_upto-Starts : (fuel n : ℕ) → Starts (decimal_upto fuel n)
decimal_upto-Starts zero n = record {
  first = b'0' + n % 10;
  more = [];
  parts = refl;
  digit = ground arith;
}
decimal_upto-Starts (suc fuel) n = elim (Bool-cases (ltb n 10)) [
  | inl last ↦ record {
    first = b'0' + n % 10;
    more = [];
    parts = rw (last, decimal_upto) refl;
    digit = ground arith;
  }
  | inr more ↦
      let h = decimal_upto-Starts fuel (n / 10) in
      record {
        first = h.first;
        more = h.more ++ (b'0' + n % 10) ∷ [];
        parts = rw (more, decimal_upto) (ap (λ l. l ++ (b'0' + n % 10) ∷ []) h.parts);
        digit = h.digit;
      }
]

pub decimal-Starts : (n : ℕ) → Starts (decimal n)
unfolding decimal
decimal-Starts n = decimal_upto-Starts 19 n

abbrev long_max : ℕ
long_max = 0x7fff_ffff_ffff_ffff

strtol_digit :
    (c : ℕ) (cs rest : List ℕ) (n : ℕ)
    → isdigit c ≡ true
    → n ≤ long_max
    → digits 0 (c ∷ cs) ≡ (n, rest)
    → strtol (c ∷ cs) ≡ some (n, rest)
strtol_digit c cs rest n digit small read =
    let solid : isspace c ≡ false = ground arith in
    let no_minus : (c == b'-') ≡ false = ground arith in
    let no_plus : (c == b'+') ≡ false = ground arith in
    let fits : min n long_max ≡ n = omega (arith, small) in
    rw (solid, skip_spaces) (rw (no_minus, no_plus, read, digit, fits) refl)

-- `strtol` reads a number off its decimal notation, up to what is no digit.
pub strtol-decimal :
    (n : ℕ) (rest : List ℕ)
    → n ≤ 0x7fff_ffff_ffff_ffff
    → EndsNumber rest
    → strtol (decimal n ++ rest) ≡ some (n, rest)
strtol-decimal n rest small ends =
    let h = decimal-Starts n in
    let read = digits-decimal n rest (omega (arith, small)) ends in
    rw h.parts (strtol_digit h.first (h.more ++ rest) rest n h.digit small (rw h.parts at read))

pub decimal-upto : (n : ℕ) → decimal n ≡ decimal_upto 19 n
unfolding decimal
decimal-upto n = refl
