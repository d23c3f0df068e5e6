-- ===== src/Parser/Labels.antt =====
-- `parse_mpls_labels` of src/cli/parser.c, and labels in decimal.
use tcp_dpdk.Base.{
  ℕ, zero, suc, ◌%◌, ◌≡◌, ◌<◌, refl, ap, ◌∙◌, Bool, true, false, List, [], ◌∷◌, ◌++◌, Option, none,
  some, All, length, is, strtol, decimal, u32_mod, ◌==◌, arith, if◌then◌else◌, sym, isdigit,
  decimal-Starts, strtol-decimal, EndsNumber, leb,
}

-- One label more, in front of those behind it.
abbrev pub labelled : ℕ → Option (List ℕ) → Option (List ℕ)
labelled v none = none
labelled v (some vs) = some (v % u32_mod ∷ vs)

-- `if (string[0] != ':') return -1; string++`, from the second label on.
abbrev pub after_colon : Bool → List ℕ → Option (List ℕ)
after_colon true s = some s
after_colon false [] = none
after_colon false (c ∷ cs) = if c == b':' then some cs else none

abbrev pub number_at : Option (List ℕ) → Option (ℕ × List ℕ)
number_at none = none
number_at (some s) = strtol s

-- A label, and what `more` reads behind it.
abbrev pub and_more : (List ℕ → Option (List ℕ)) → Option (ℕ × List ℕ) → Option (List ℕ)
and_more more none = none
and_more more (some (v, rest)) = labelled v (more rest)

-- The loop with room for `room` labels; `first` tells whether there is none yet. `none` is -1.
unfoldable pub label_loop : ℕ → Bool → List ℕ → Option (List ℕ)
label_loop room first [] = some []
label_loop zero first (c ∷ cs) = none
label_loop (suc room) first (c ∷ cs) =
    and_more (label_loop room false) (number_at (after_colon first (c ∷ cs)))

unfoldable pub parse_mpls_labels : List ℕ → ℕ → Option (List ℕ)
parse_mpls_labels string n_max_labels =
    if is string "<void>" then some [] else label_loop n_max_labels true string

-- Labels in decimal, a colon between two.
abbrev pub colon_labels : List ℕ → List ℕ
colon_labels [] = []
colon_labels (v ∷ vs) = b':' ∷ (decimal v ++ colon_labels vs)

abbrev pub label_text : List ℕ → List ℕ
label_text [] = []
label_text (v ∷ vs) = decimal v ++ colon_labels vs

colon_labels-EndsNumber : (vs : List ℕ) → EndsNumber (colon_labels vs)
colon_labels-EndsNumber [] = tt
colon_labels-EndsNumber (v ∷ vs) = refl

-- The labels if there is room for them.
abbrev pub roomy : ℕ → List ℕ → Option (List ℕ)
roomy room vs = if leb (length vs) room then some vs else none

labelled-roomy :
    (room v : ℕ) (vs : List ℕ)
    → v < u32_mod
    → labelled v (roomy room vs) ≡ roomy (suc room) (v ∷ vs)
labelled-roomy room v vs small =
    let same : v % u32_mod ≡ v = omega (arith, small) in ground (arith, same)

-- A label and those behind it, once the colon in front of it is passed.
label-and_more :
    (room v : ℕ) (vs : List ℕ)
    → v < u32_mod
    → label_loop room false (colon_labels vs) ≡ roomy room vs
    → and_more (label_loop room false) (strtol (decimal v ++ colon_labels vs))
      ≡ roomy (suc room) (v ∷ vs)
label-and_more room v vs small later =
    ap (and_more (label_loop room false))
      (strtol-decimal v (colon_labels vs) (omega (arith, small)) (colon_labels-EndsNumber vs))
    ∙ ap (labelled v) later
    ∙ labelled-roomy room v vs small

label_loop_later :
    (room : ℕ) (vs : List ℕ)
    → All (λ v. v < u32_mod) vs
    → label_loop room false (colon_labels vs) ≡ roomy room vs
unfolding label_loop
label_loop_later zero [] small = refl
label_loop_later (suc room) [] small = ground arith
label_loop_later zero (v ∷ vs) small = ground arith
label_loop_later (suc room) (v ∷ vs) small =
    label-and_more room v vs small.0 (label_loop_later room vs small.1)

label_loop_first :
    (room v c : ℕ) (vs cs : List ℕ)
    → All (λ v. v < u32_mod) (v ∷ vs)
    → c ∷ cs ≡ decimal v ++ colon_labels vs
    → label_loop room true (c ∷ cs) ≡ roomy room (v ∷ vs)
unfolding label_loop
label_loop_first zero v c vs cs small e = ground arith
label_loop_first (suc room) v c vs cs small e =
    ap (λ s. and_more (label_loop room false) (strtol s)) e
    ∙ label-and_more room v vs small.0 (label_loop_later room vs small.1)

digit-is_void : (c : ℕ) (cs : List ℕ) → isdigit c ≡ true → is (c ∷ cs) "<void>" ≡ false
digit-is_void c cs digit = ground arith

-- Of labels below 2 ^ 32 in decimal, with a colon between two, `parse_mpls_labels` gives back the
-- labels if there is room for them, and otherwise -1.
pub parse_mpls_labels-label_text :
    (vs : List ℕ) (n_max_labels : ℕ)
    → All (λ v. v < u32_mod) vs
    → parse_mpls_labels (label_text vs) n_max_labels
      ≡ (if leb (length vs) n_max_labels then some vs else none)
unfolding parse_mpls_labels label_loop
parse_mpls_labels-label_text [] zero small = ground arith
parse_mpls_labels-label_text [] (suc n) small = ground arith
parse_mpls_labels-label_text (v ∷ vs) n_max_labels small =
    let h = decimal-Starts v in
    rw (h.parts, digit-is_void h.first (h.more ++ colon_labels vs) h.digit)
      (label_loop_first n_max_labels v h.first vs (h.more ++ colon_labels vs) small
        (ap (λ l. l ++ colon_labels vs) (sym h.parts)))
