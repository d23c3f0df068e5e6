-- ===== src/Parser/CpuCore/Fuel.antt =====
-- The fuel of the loop of `parse_cpu_core`.
use tcp_dpdk.Base.{
  ℕ, zero, suc, ◌+◌, ◌≡◌, ◌≤◌, ◌<◌, refl, ◌&&◌, ◌||◌, Bool, true, false, not, inl, inr, List, [],
  ◌∷◌, ◌++◌, Option, none, some, length, isdigit, ◌==◌, Outcome, ok, Fault, fault, skip_spaces,
  ◌>>=◌, Bool-cases, arith, if◌then◌else◌,
}
use tcp_dpdk.Parser.CpuCore.{
  CpuCoreParams, Progress, Kind, socket, core, thread, with_rest, num_loop, store_number, at_number,
  at_kind, round, then_core, core_loop, nothing_parsed, parse_cpu_core,
}

-- What is left is at most `n` characters long.
abbrev Leaves : ℕ → Option (List ℕ × List ℕ) → Type 0
Leaves n none = Unit
Leaves n (some (num, rest)) = length rest ≤ n

Leaves-mono : (n : ℕ) (o : Option (List ℕ × List ℕ)) → Leaves n o → Leaves (suc n) o
Leaves-mono n none h = tt
Leaves-mono n (some (num, rest)) h = omega (arith, h)

num_loop-Leaves : (num_len : ℕ) (num s : List ℕ) → Leaves (length s) (num_loop num_len num s)
num_loop-Leaves num_len num [] = omega arith
num_loop-Leaves num_len num (c ∷ cs) = elim (Bool-cases (num_len == 8)) [
  | inl full ↦ rw (full, num_loop) tt
  | inr free ↦ elim (Bool-cases (isdigit c)) [
    | inl digit ↦
        rw (free, digit, num_loop)
          (Leaves-mono (length cs) (num_loop (num_len + 1) (num ++ c ∷ []) cs)
            (num_loop-Leaves (num_len + 1) (num ++ c ∷ []) cs))
    | inr other ↦ rw (free, other, num_loop) (omega arith)
  ]
]

abbrev Shorter : ℕ → Outcome (Option (Progress × List ℕ)) → Type 0
Shorter n (ok (some (t, rest))) = length rest < n
Shorter n (ok none) = Unit
Shorter n (fault e) = Unit

Shorter-if :
    (b : Bool) (n : ℕ) (k m : Outcome (Option (Progress × List ℕ)))
    → Shorter n k
    → (b ≡ false → Shorter n m)
    → Shorter n (if b then k else m)
Shorter-if true n k m h h' = h
Shorter-if false n k m h h' = h' refl

stored-Shorter :
    (m : Outcome (Option Progress)) (n : ℕ) (rest : List ℕ)
    → length rest ≤ n
    → Shorter (suc n) (m >>= λ r. ok (with_rest rest r))
stored-Shorter (ok none) n rest h = tt
stored-Shorter (ok (some t)) n rest h = omega (arith, h)
stored-Shorter (fault e) n rest h = tt

at_number-Shorter :
    (kind : Kind) (t : Progress) (n : ℕ) (o : Option (List ℕ × List ℕ))
    → Leaves n o
    → Shorter (suc n) (at_number kind t o)
at_number-Shorter kind t n none h = tt
at_number-Shorter kind t n (some (num, rest)) h = stored-Shorter (store_number kind t num) n rest h

-- Behind a letter, and at a digit.
after_letter :
    (b : Bool) (kind : Kind) (t : Progress) (cs : List ℕ)
    → Shorter (suc (length cs)) (at_kind (if b then none else some (kind, t, cs)))
after_letter true kind t cs = tt
after_letter false kind t cs =
    at_number-Shorter kind t (length cs) (num_loop 0 [] cs) (num_loop-Leaves 0 [] cs)

at_digit :
    (t : Progress) (c : ℕ) (cs : List ℕ)
    → isdigit c ≡ true
    → Shorter (suc (length cs)) (at_kind (some (core, t, c ∷ cs)))
at_digit t c cs digit =
    at_number-Shorter core t (length cs) (num_loop 0 [] (c ∷ cs))
      (rw (digit, num_loop) (num_loop-Leaves (0 + 1) ([] ++ c ∷ []) cs))

-- The four cases of `classify`.
at_kind-if :
    (b : Bool) (n : ℕ) (k m : Option (Kind × Progress × List ℕ))
    → Shorter n (at_kind k)
    → (b ≡ false → Shorter n (at_kind m))
    → Shorter n (at_kind (if b then k else m))
at_kind-if true n k m h h' = h
at_kind-if false n k m h h' = h' refl

round-Shorter : (t : Progress) (c : ℕ) (cs : List ℕ) → Shorter (suc (length cs)) (round t c cs)
unfolding round
round-Shorter t c cs =
    let n = suc (length cs) in
    let others = t.s_parsed || t.c_parsed || t.h_parsed in
    Shorter-if (t.s_parsed && t.c_parsed && t.h_parsed) n (ok none) _ tt (λ open_round.
      at_kind-if ((c == b's') || (c == b'S')) n _ _
        (after_letter others socket (record t { s_parsed = true }) cs)
        (λ no_s.
          at_kind-if ((c == b'c') || (c == b'C')) n _ _
            (after_letter (t.c_parsed || t.h_parsed) core (record t { c_parsed = true }) cs)
            (λ no_c.
              at_kind-if ((c == b'h') || (c == b'H')) n _ _
                (after_letter t.h_parsed thread (record t { h_parsed = true }) cs)
                (λ no_h.
                  at_kind-if (not (isdigit c) || t.s_parsed || t.c_parsed || t.h_parsed) n none _ tt
                    (λ digit. at_digit t c cs (ground arith))))))

-- The loop of the source, without fuel: each round that returns a text is followed by the loop on
-- that text, and a derivation is finite.
pub data Runs : Progress → List ℕ → Outcome (Option CpuCoreParams) → Type 0 where
  finished : (t : Progress) → Runs t [] (ok (some t.params))
  refused :
      (t : Progress) (c : ℕ) (cs : List ℕ) → round t c cs ≡ ok none → Runs t (c ∷ cs) (ok none)
  crashed :
      (t : Progress) (c : ℕ) (cs : List ℕ) (e : Fault)
      → round t c cs ≡ fault e
      → Runs t (c ∷ cs) (fault e)
  repeated :
      (t : Progress) (c : ℕ) (cs : List ℕ) (u : Progress) (rest : List ℕ)
      (r : Outcome (Option CpuCoreParams))
      → round t c cs ≡ ok (some (u, rest))
      → Runs u rest r
      → Runs t (c ∷ cs) r

bind-Runs :
    (t : Progress) (c : ℕ) (cs : List ℕ) (m : Outcome (Option (Progress × List ℕ))) (n : ℕ)
    (more : Progress → List ℕ → Outcome (Option CpuCoreParams))
    → round t c cs ≡ m
    → Shorter n m
    → ((u : Progress) (rest : List ℕ) → length rest < n → Runs u rest (more u rest))
    → Runs t (c ∷ cs) (m >>= then_core more)
bind-Runs t c cs (ok (some (u, rest))) n more e short runs =
    repeated t c cs u rest (more u rest) e (runs u rest short)
bind-Runs t c cs (ok none) n more e short runs = refused t c cs e
bind-Runs t c cs (fault f) n more e short runs = crashed t c cs f e

-- As much fuel as the text is long is enough.
core_loop-Runs :
    (fuel : ℕ) (t : Progress) (s : List ℕ) → length s ≤ fuel → Runs t s (core_loop fuel t s)
unfolding core_loop
core_loop-Runs zero t [] h = finished t
core_loop-Runs (suc fuel) t [] h = finished t
core_loop-Runs zero t (c ∷ cs) h = absurd (omega (arith, h))
core_loop-Runs (suc fuel) t (c ∷ cs) h =
    bind-Runs t c cs (round t c cs) (suc (length cs)) (core_loop fuel) refl (round-Shorter t c cs)
      (λ u rest short. core_loop-Runs fuel u rest (omega (arith, short, h)))

-- The loop of `parse_cpu_core` ends on every text: rounds follow each other, each on what the one
-- before has left, until nothing is left or one of them fails, and `parse_cpu_core` returns what
-- they come to.
pub parse_cpu_core-Runs :
    (entry : List ℕ) → Runs nothing_parsed (skip_spaces entry) (parse_cpu_core entry)
unfolding parse_cpu_core
parse_cpu_core-Runs entry =
    core_loop-Runs (length (skip_spaces entry)) nothing_parsed (skip_spaces entry) (omega arith)
