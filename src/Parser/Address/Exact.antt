-- ===== src/Parser/Address/Exact.antt =====
-- The loop of `inet_pton4` against the parts of a text.
use tcp_dpdk.Base.{
  ℕ, suc, ◌+◌, ◌-◌, ◌*◌, ◌≡◌, ◌≤◌, ◌<◌, refl, ap, sym, ◌∙◌, inl, inr, Bool, true, false, Bool-cases,
  List, [], ◌∷◌, ◌++◌, length, length-append, Option, none, some, isdigit, ltb, ◌==◌, arith,
  if◌then◌else◌,
}
use tcp_dpdk.Parser.Address.{step4, then_loop4, loop4, inet_pton4}
use tcp_dpdk.Parser.Address.Parts.{
  in_front, parts, number, is_octet, with_octet, octets_of, dotted_quad, rest_of, at_octet, state,
  rest_of_end, rest_of_large, rest_of_digit, rest_of_point, rest_of_full, rest_of_bad,
  rest_of_empty, behind,
}

-- A digit, and what the loop does from there on.
step4_digit :
    (saw : Bool) (before : List ℕ) (v c : ℕ)
    → isdigit c ≡ true
    → ltb 255 (v * 10 + (c - b'0')) ≡ false
    → length before ≤ 3
    → step4 (state saw before v) c ≡ some (state true before (v * 10 + (c - b'0')))
unfolding step4
step4_digit true before v c digit fits room = rw (digit, fits) refl
step4_digit false before v c digit fits room =
    let free : ltb 4 (length before + 1) ≡ false = ground (arith, room) in
    let count : suc (length before) ≡ length before + 1 = omega arith in
    rw (digit, fits, free, count) refl

step4_large :
    (saw : Bool) (before : List ℕ) (v c : ℕ)
    → isdigit c ≡ true
    → ltb 255 (v * 10 + (c - b'0')) ≡ true
    → step4 (state saw before v) c ≡ none
unfolding step4
step4_large saw before v c digit large = rw (digit, large) refl

step4_bad :
    (saw : Bool) (before : List ℕ) (v c : ℕ)
    → isdigit c ≡ false
    → (c == b'.') ≡ false
    → step4 (state saw before v) c ≡ none
unfolding step4
step4_bad saw before v c other bad = rw (other, bad) refl

in_front_plain :
    (c : ℕ) (r : List ℕ × List (List ℕ)) → (c == b'.') ≡ false → in_front c r ≡ (c ∷ r.0, r.1)
in_front_plain c (p, ps) other = rw other refl

in_front_point :
    (c : ℕ) (r : List ℕ × List (List ℕ)) → (c == b'.') ≡ true → in_front c r ≡ ([], r.0 ∷ r.1)
in_front_point c (p, ps) point = rw point refl

-- What the loop does at a point; `onward` is what it does behind it.
loop4_point :
    (cs : List ℕ) (saw : Bool) (before : List ℕ) (v c : ℕ)
    → isdigit c ≡ false
    → (c == b'.') ≡ true
    → length before ≤ 3
    → v < 256
    → ((l : List ℕ) → length l ≤ 3 → loop4 cs (state false l 0) ≡ rest_of false l 0 (parts cs))
    → then_loop4 (loop4 cs) (step4 (state saw before v) c)
      ≡ rest_of saw before v ([], (parts cs).0 ∷ (parts cs).1)
unfolding step4
loop4_point cs false before v c other point room small onward =
    rw (other, point) (sym (rest_of_empty before v ((parts cs).0 ∷ (parts cs).1)))
loop4_point cs true before v c other point room small onward =
    elim (Bool-cases (suc (length before) == 4)) [
      | inl full ↦ rw (other, point, full) (sym (rest_of_full before v (parts cs) full))
      | inr free ↦
          let count : length (before ++ v ∷ []) ≡ suc (length before) =
            omega (arith, length-append before (v ∷ [])) in
          let few : length (before ++ v ∷ []) ≤ 3 = ground (arith, count, free, room) in
          rw (other, point, free)
            (ap (loop4 cs) (ap (λ n. at_octet n (before ++ v ∷ [])) (sym count))
              ∙ onward (before ++ v ∷ []) few
              ∙ rest_of_point before v (parts cs) small)
    ]

loop4-rest_of :
    (src : List ℕ) (saw : Bool) (before : List ℕ) (v : ℕ)
    → length before ≤ 3
    → v < 256
    → loop4 src (state saw before v) ≡ rest_of saw before v (parts src)
unfolding loop4
loop4-rest_of [] saw before v room small = rest_of_end saw before v room small
loop4-rest_of (c ∷ cs) saw before v room small = elim (Bool-cases (isdigit c)) [
  | inl digit ↦
      let w = v * 10 + (c - b'0') in
      let plain : (c == b'.') ≡ false = ground (arith, digit) in
      let front = ap (rest_of saw before v) (in_front_plain c (parts cs) plain) in
      elim (Bool-cases (ltb 255 w)) [
        | inl large ↦
            ap (then_loop4 (loop4 cs)) (step4_large saw before v c digit large)
            ∙ sym (front ∙ rest_of_large saw before v c (parts cs) large)
        | inr fits ↦
            ap (then_loop4 (loop4 cs)) (step4_digit saw before v c digit fits room)
            ∙ loop4-rest_of cs true before w room (ground (arith, fits))
            ∙ rest_of_digit saw before v c (parts cs) digit
            ∙ sym front
      ]
  | inr other ↦ elim (Bool-cases (c == b'.')) [
    | inl point ↦
        loop4_point cs saw before v c other point room small
          (λ l few. loop4-rest_of cs false l 0 few (omega arith))
        ∙ sym (ap (rest_of saw before v) (in_front_point c (parts cs) point))
    | inr bad ↦
        ap (then_loop4 (loop4 cs)) (step4_bad saw before v c other bad)
        ∙ sym (
            ap (rest_of saw before v) (in_front_plain c (parts cs) bad)
            ∙ rest_of_bad saw before v c (parts cs) other)
  ]
]

rest_of-dotted_quad : (r : List ℕ × List (List ℕ)) → rest_of false [] 0 r ≡ dotted_quad r
rest_of-dotted_quad (p, ps) =
    let whole : 0 + (length ps + 1) ≡ length ps + 1 = omega arith in
    rw whole (merged (length ps + 1 == 4) (is_octet p) (number 0 p) (octets_of ps))
  where
    merged :
        (a b : Bool) (n : ℕ) (o : Option (List ℕ))
        → (if a then (if b then behind [] n o else none) else none)
          ≡ (if a then (if b then with_octet n o else none) else none)
    merged false b n o = refl
    merged true false n o = refl
    merged true true n none = refl
    merged true true n (some ns) = refl

-- `inet_pton4` takes exactly the texts of four parts with a point between two, each of them digits,
-- one at least, for a number of at most 255, zeros in front or not; it writes the four numbers.
pub inet_pton4-dotted_quad : (src : List ℕ) → inet_pton4 src ≡ dotted_quad (parts src)
unfolding inet_pton4
inet_pton4-dotted_quad src =
    loop4-rest_of src false [] 0 (omega arith) (omega arith) ∙ rest_of-dotted_quad (parts src)
