-- ===== src/Parser/Address/Dotted.antt =====
-- `inet_pton4` on dotted decimal.
use tcp_dpdk.Base.{
  ℕ, zero, suc, ◌+◌, ◌-◌, ◌*◌, ◌/◌, ◌%◌, ◌^◌, ◌≡◌, ◌≤◌, ◌<◌, refl, ap, ◌∙◌, inl, inr, true, false,
  List, [], ◌∷◌, ◌++◌, append_assoc, some, isdigit, ltb, ltb_iff, ◌==◌, Bool-cases, decimal,
  decimal_upto, decimal-upto, arith,
}
use tcp_dpdk.Parser.Address.{Quads, step4, then_loop4, loop4, inet_pton4}

-- The state at the start of an octet, behind those of `before`, and after its digits.
abbrev fresh : ℕ → List ℕ → Quads
fresh k before = record { saw_digit = false; octets = k; before = before; current = 0 }

abbrev with_value : ℕ → List ℕ → ℕ → Quads
with_value k before v = record { saw_digit = true; octets = k + 1; before = before; current = v }

step4_first :
    (k : ℕ) (before : List ℕ) (n : ℕ)
    → k ≤ 3
    → n < 10
    → step4 (fresh k before) (b'0' + n) ≡ some (with_value k before n)
unfolding step4
step4_first k before n few small =
    let value : 0 * 10 + (b'0' + n - b'0') ≡ n = omega arith in
    let digit : isdigit (b'0' + n) ≡ true = ground arith in
    let fits : ltb 255 n ≡ false = ground arith in
    let room : ltb 4 (k + 1) ≡ false = ground arith in rw (digit, value) (rw (fits, room) refl)

step4_next :
    (k : ℕ) (before : List ℕ) (v n w : ℕ)
    → n < 10
    → w ≡ v * 10 + n
    → w < 256
    → step4 (with_value k before v) (b'0' + n) ≡ some (with_value k before w)
unfolding step4
step4_next k before v n w small e range =
    let value : v * 10 + (b'0' + n - b'0') ≡ w = omega (arith, e) in
    let digit : isdigit (b'0' + n) ≡ true = ground arith in
    let fits : ltb 255 w ≡ false = ground arith in rw (digit, value) (rw fits refl)

loop4-decimal_upto :
    (fuel k v : ℕ) (before rest : List ℕ)
    → k ≤ 3
    → v < 10 ^ suc fuel
    → v < 256
    → loop4 (decimal_upto fuel v ++ rest) (fresh k before) ≡ loop4 rest (with_value k before v)
unfolding loop4
loop4-decimal_upto zero k v before rest few range small =
    let whole : v % 10 ≡ v = omega (arith, range) in
    ap (then_loop4 (loop4 rest)) (step4_first k before (v % 10) few (omega arith))
    ∙ ap (λ w. loop4 rest (with_value k before w)) whole
loop4-decimal_upto (suc fuel) k v before rest few range small = elim (Bool-cases (ltb v 10)) [
  | inl last ↦
      let whole : v % 10 ≡ v = omega (arith, (ltb_iff v 10).0 last) in
      rw (last, decimal_upto)
        (ap (then_loop4 (loop4 rest)) (step4_first k before (v % 10) few (omega arith))
          ∙ ap (λ w. loop4 rest (with_value k before w)) whole)
  | inr more ↦
      rw (more, decimal_upto, append_assoc)
        (loop4-decimal_upto fuel k (v / 10) before ((b'0' + v % 10) ∷ rest) few
            (omega (arith, range)) (omega (arith, small))
          ∙ ap (then_loop4 (loop4 rest))
              (step4_next k before (v / 10) (v % 10) v (omega arith) (omega arith) small))
]

-- An octet in decimal.
loop4-decimal :
    (k v : ℕ) (before rest : List ℕ)
    → k ≤ 3
    → v < 256
    → loop4 (decimal v ++ rest) (fresh k before) ≡ loop4 rest (with_value k before v)
loop4-decimal k v before rest few small =
    rw decimal-upto (loop4-decimal_upto 19 k v before rest few (omega (arith, small)) small)

-- And the point behind it, unless it is the fourth.
loop4-point :
    (k v : ℕ) (before rest : List ℕ)
    → k < 3
    → v < 256
    → loop4 (decimal v ++ b'.' ∷ rest) (fresh k before)
      ≡ loop4 rest (fresh (k + 1) (before ++ v ∷ []))
unfolding loop4 step4
loop4-point k v before rest few small =
    loop4-decimal k v before (b'.' ∷ rest) (omega (arith, few)) small
    ∙ (let other : (k + 1 == 4) ≡ false = ground arith in rw other refl)

-- `inet_pton4` gives back the four bytes whose decimal notations are joined by points.
pub inet_pton4-dotted :
    (a b c e : ℕ)
    → a < 256
    → b < 256
    → c < 256
    → e < 256
    → inet_pton4 (decimal a ++ b'.' ∷ (decimal b ++ b'.' ∷ (decimal c ++ b'.' ∷ (decimal e ++ []))))
      ≡ some (a ∷ b ∷ c ∷ e ∷ [])
unfolding inet_pton4
inet_pton4-dotted a b c e ha hb hc he =
    loop4-point 0 a [] _ (omega arith) ha
    ∙ loop4-point 1 b (a ∷ []) _ (omega arith) hb
    ∙ loop4-point 2 c (a ∷ b ∷ []) _ (omega arith) hc
    ∙ loop4-decimal 3 e (a ∷ b ∷ c ∷ []) [] (omega arith) he
    ∙ four
  where
    four : loop4 [] (with_value 3 (a ∷ b ∷ c ∷ []) e) ≡ some (a ∷ b ∷ c ∷ e ∷ [])
    four = unfold loop4 in refl
