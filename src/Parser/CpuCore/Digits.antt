-- ===== src/Parser/CpuCore/Digits.antt =====
-- `parse_cpu_core` on a text of digits only.
use tcp_dpdk.Base.{
  ℕ, zero, suc, ◌+◌, ◌%◌, ◌≡◌, ◌≤◌, ◌<◌, refl, ap, ◌∙◌, true, false, inl, inr, List, [], ◌∷◌, ◌++◌,
  append-nil, append_assoc, Option, none, some, All, length, isdigit, isspace, skip_spaces, digits,
  leb, ltb, ◌==◌, u32_mod, Outcome, ok, fault, overrun, ◌>>=◌, Bool-cases, arith, if◌then◌else◌,
}
use tcp_dpdk.Parser.CpuCore.{
  CpuCoreParams, core, num_loop, classify, store_number, at_number, at_kind, round, then_core,
  core_loop, nothing_parsed, parse_cpu_core,
}

abbrev pub AreDigits : List ℕ → Type 0
AreDigits s = All (λ c. isdigit c ≡ true) s

-- At most eight digits are taken.
num_loop-digits :
    (num_len : ℕ) (num s : List ℕ)
    → AreDigits s
    → num_len ≤ 8
    → num_loop num_len num s ≡ (if leb (num_len + length s) 8 then some (num ++ s, []) else none)
num_loop-digits num_len num [] all few = ground (arith, append-nil num)
num_loop-digits num_len num (c ∷ cs) all few = elim (Bool-cases (num_len == 8)) [
  | inl full ↦
      let over : leb (num_len + suc (length cs)) 8 ≡ false = ground arith in
      rw (full, over, num_loop) refl
  | inr free ↦
      let next : num_len + 1 + length cs ≡ num_len + suc (length cs) = omega arith in
      rw (free, all.0, num_loop)
        (num_loop-digits (num_len + 1) (num ++ c ∷ []) cs all.1 (ground arith)
          ∙ rw (next, append_assoc num (c ∷ []) cs) refl)
]

-- What a text of digits gives: the number of a core, or an overrun of `num`, or -EINVAL.
abbrev pub core_number : List ℕ → Outcome (Option CpuCoreParams)
core_number num =
    if ltb (length num) 8
    then ok (some (record { socket_id = 0; core_id = (digits 0 num).0 % u32_mod; thread_id = 0 }))
    else if length num == 8
    then fault overrun
    else ok none

classify_digit :
    (c : ℕ) (cs : List ℕ)
    → isdigit c ≡ true
    → classify nothing_parsed c cs ≡ some (core, nothing_parsed, c ∷ cs)
classify_digit c cs digit = ground arith

core_number_taken :
    (num : List ℕ) (fuel : ℕ)
    → 0 < length num
    → (at_number core nothing_parsed (if leb (length num) 8 then some (num, []) else none)
        >>= then_core (core_loop fuel))
      ≡ core_number num
unfolding store_number core_loop
core_number_taken num zero full = ground arith
core_number_taken num (suc fuel) full = ground arith

-- A text of digits, one at least: fewer than eight are the number of a core, of socket 0 and thread
-- 0; eight of them overrun the array `num` by the NUL behind them; more are refused.
pub parse_cpu_core-digits :
    (c : ℕ) (cs : List ℕ) → AreDigits (c ∷ cs) → parse_cpu_core (c ∷ cs) ≡ core_number (c ∷ cs)
unfolding parse_cpu_core core_loop round
parse_cpu_core-digits c cs all =
    let whole : 0 + length (c ∷ cs) ≡ length (c ∷ cs) = omega arith in
    let solid : isspace c ≡ false = ground (arith, all.0) in
    rw (solid, skip_spaces)
      (ap (λ k. at_kind k >>= then_core (core_loop (length cs))) (classify_digit c cs all.0)
        ∙ ap (λ r. at_number core nothing_parsed r >>= then_core (core_loop (length cs)))
            (num_loop-digits 0 [] (c ∷ cs) all (omega arith))
        ∙ ap
            (λ n.
              at_number core nothing_parsed (if leb n 8 then some (c ∷ cs, []) else none)
              >>= then_core (core_loop (length cs)))
            whole
        ∙ core_number_taken (c ∷ cs) (length cs) (omega arith))
