-- ===== src/Parser/Address/Parts.antt =====
-- The texts of a dotted quad, and what is left of one from within a part.
use tcp_dpdk.Base.{
  ℕ, suc, ◌+◌, ◌-◌, ◌*◌, ◌≡◌, ◌≤◌, ◌<◌, refl, ap, Bool, true, false, not, ◌&&◌, ◌||◌, List, [], ◌∷◌,
  ◌++◌, append_assoc, length, length-append, Option, none, some, isdigit, ltb, leb, ◌==◌, arith,
  if◌then◌else◌,
}
use tcp_dpdk.Parser.Address.{Quads, end4}

-- What stands in front of the first point, and the parts behind it, a point between two.
abbrev pub in_front : ℕ → List ℕ × List (List ℕ) → List ℕ × List (List ℕ)
in_front c (p, ps) = if c == b'.' then ([], p ∷ ps) else (c ∷ p, ps)

abbrev pub parts : List ℕ → List ℕ × List (List ℕ)
parts [] = ([], [])
parts (c ∷ cs) = in_front c (parts cs)

-- The number that is written, behind the digits of `v`.
abbrev pub number : ℕ → List ℕ → ℕ
number v [] = v
number v (c ∷ cs) = number (v * 10 + (c - b'0')) cs

abbrev pub all_digits : List ℕ → Bool
all_digits [] = true
all_digits (c ∷ cs) = isdigit c && all_digits cs

abbrev pub is_empty : List ℕ → Bool
is_empty [] = true
is_empty (c ∷ cs) = false

-- Digits, one at least, for a number that fits a byte.
abbrev pub is_octet : List ℕ → Bool
is_octet p = not (is_empty p) && all_digits p && leb (number 0 p) 255

abbrev pub with_octet : ℕ → Option (List ℕ) → Option (List ℕ)
with_octet n none = none
with_octet n (some ns) = some (n ∷ ns)

abbrev pub octets_of : List (List ℕ) → Option (List ℕ)
octets_of [] = some []
octets_of (p ∷ ps) = if is_octet p then with_octet (number 0 p) (octets_of ps) else none

-- Four parts, each of them an octet.
abbrev pub dotted_quad : List ℕ × List (List ℕ) → Option (List ℕ)
dotted_quad (p, ps) = if length ps + 1 == 4 then octets_of (p ∷ ps) else none

-- The same from within a part: behind the octets of `before`, and the digits of `v` if `saw`.
abbrev pub behind : List ℕ → ℕ → Option (List ℕ) → Option (List ℕ)
behind before n none = none
behind before n (some ns) = some (before ++ n ∷ ns)

abbrev pub rest_of : Bool → List ℕ → ℕ → List ℕ × List (List ℕ) → Option (List ℕ)
rest_of saw before v (p, ps) =
    if length before + (length ps + 1) == 4
    then (if (saw || not (is_empty p)) && all_digits p && leb (number v p) 255
        then behind before (number v p) (octets_of ps)
        else none)
    else none

abbrev pub begun : Bool → List ℕ → ℕ
begun true before = suc (length before)
begun false before = length before

abbrev pub state : Bool → List ℕ → ℕ → Quads
state saw before v = record {
  saw_digit = saw;
  octets = begun saw before;
  before = before;
  current = v;
}

-- The start of an octet, `n` of them begun.
abbrev pub at_octet : ℕ → List ℕ → Quads
at_octet n before = record { saw_digit = false; octets = n; before = before; current = 0 }

number_grows : (v : ℕ) (p : List ℕ) → v ≤ number v p
number_grows v [] = omega arith
number_grows v (c ∷ p) = omega (arith, number_grows (v * 10 + (c - b'0')) p)

pub rest_of_end :
    (saw : Bool) (before : List ℕ) (v : ℕ)
    → length before ≤ 3
    → v < 256
    → end4 (state saw before v) ≡ rest_of saw before v ([], [])
rest_of_end true before v room small = ground arith
rest_of_end false before v room small = ground arith

same_both : (a : Bool) (o : Option (List ℕ)) → (if a then o else o) ≡ o
same_both true o = refl
same_both false o = refl

neither :
    (a b : Bool) (o : Option (List ℕ))
    → (if a then (if b && false then o else none) else none) ≡ none
neither true true o = refl
neither true false o = refl
neither false b o = refl

-- A number that is too large stays so.
pub rest_of_large :
    (saw : Bool) (before : List ℕ) (v c : ℕ) (r : List ℕ × List (List ℕ))
    → ltb 255 (v * 10 + (c - b'0')) ≡ true
    → rest_of saw before v (c ∷ r.0, r.1) ≡ none
rest_of_large saw before v c (p, ps) large =
    let w = v * 10 + (c - b'0') in
    let no : leb (number w p) 255 ≡ false = ground (arith, number_grows w p, large) in
    rw no (
      neither (length before + (length ps + 1) == 4) ((saw || true) && (isdigit c && all_digits p))
        _)

pub rest_of_digit :
    (saw : Bool) (before : List ℕ) (v c : ℕ) (r : List ℕ × List (List ℕ))
    → isdigit c ≡ true
    → rest_of true before (v * 10 + (c - b'0')) r ≡ rest_of saw before v (c ∷ r.0, r.1)
rest_of_digit true before v c (p, ps) digit = rw digit refl
rest_of_digit false before v c (p, ps) digit = rw digit refl

behind-with_octet :
    (all fits : Bool) (before : List ℕ) (v n : ℕ) (o : Option (List ℕ))
    → (if all then (if fits then behind (before ++ v ∷ []) n o else none) else none)
      ≡ (if all then behind before v (if fits then with_octet n o else none) else none)
behind-with_octet false fits before v n o = refl
behind-with_octet true false before v n o = refl
behind-with_octet true true before v n none = refl
behind-with_octet true true before v n (some ns) = ap some (append_assoc before (v ∷ []) (n ∷ ns))

pub rest_of_point :
    (before : List ℕ) (v : ℕ) (r : List ℕ × List (List ℕ))
    → v < 256
    → rest_of false (before ++ v ∷ []) 0 r ≡ rest_of true before v ([], r.0 ∷ r.1)
rest_of_point before v (p, ps) small =
    let same : length (before ++ v ∷ []) + (length ps + 1) ≡ length before + (suc (length ps) + 1) =
      omega (arith, length-append before (v ∷ [])) in
    let fits : leb v 255 ≡ true = ground (arith, small) in
    rw (same, fits)
      (behind-with_octet (length before + (suc (length ps) + 1) == 4) (is_octet p) before v
        (number 0 p) (octets_of ps))

-- One point too many.
pub rest_of_full :
    (before : List ℕ) (v : ℕ) (r : List ℕ × List (List ℕ))
    → (suc (length before) == 4) ≡ true
    → rest_of true before v ([], r.0 ∷ r.1) ≡ none
rest_of_full before v (p, ps) full =
    let no : (length before + (suc (length ps) + 1) == 4) ≡ false = ground (arith, full) in
    rw no refl

-- Neither a digit nor a point; or a point with no digit in front.
pub rest_of_bad :
    (saw : Bool) (before : List ℕ) (v c : ℕ) (r : List ℕ × List (List ℕ))
    → isdigit c ≡ false
    → rest_of saw before v (c ∷ r.0, r.1) ≡ none
rest_of_bad true before v c (p, ps) bad =
    rw bad (same_both (length before + (length ps + 1) == 4) none)
rest_of_bad false before v c (p, ps) bad =
    rw bad (same_both (length before + (length ps + 1) == 4) none)

pub rest_of_empty :
    (before : List ℕ) (v : ℕ) (ps : List (List ℕ)) → rest_of false before v ([], ps) ≡ none
rest_of_empty before v ps = same_both (length before + (length ps + 1) == 4) none
