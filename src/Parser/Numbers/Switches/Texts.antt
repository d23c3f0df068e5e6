-- ===== src/Parser/Numbers/Switches/Texts.antt =====
-- The texts that `parser_read_arg_bool` takes.
use tcp_dpdk.Base.{
  ℕ, ◌≡◌, refl, ap, ◌∙◌, false, List, [], ◌∷◌, ◌++◌, none, isspace, skip_spaces, ◌==◌, codes, arith,
}
use tcp_dpdk.Parser.Numbers.{
  Parsed, value, einval, after_three, after_two, try_yes, try_on, try_no, try_off, at_end,
  parser_read_arg_bool,
}
use tcp_dpdk.Parser.Numbers.Suffixes.{AreSpaces, skip_spaces-append, skip_spaces_all}
use tcp_dpdk.Parser.Numbers.Switches.{Spelling, absent, small, capital, spell, put, append_four}

-- The text is empty or starts with another character.
abbrev StartsOther : ℕ → List ℕ → Type 0
StartsOther a [] = Unit
StartsOther a (x ∷ xs) = (x == a) ≡ false

after_three-none : (a b c : ℕ) (s : List ℕ) → StartsOther a s → after_three a b c s ≡ none
after_three-none a b c [] h = refl
after_three-none a b c (x ∷ []) h = refl
after_three-none a b c (x ∷ (y ∷ [])) h = refl
after_three-none a b c (x ∷ (y ∷ (z ∷ s))) h = rw h refl

after_two-none : (a b : ℕ) (s : List ℕ) → StartsOther a s → after_two a b s ≡ none
after_two-none a b [] h = refl
after_two-none a b (x ∷ []) h = refl
after_two-none a b (x ∷ (y ∷ s)) h = rw h refl

spaces-StartsOther : (a : ℕ) (s : List ℕ) → isspace a ≡ false → AreSpaces s → StartsOther a s
spaces-StartsOther a [] solid spaces = tt
spaces-StartsOther a (c ∷ s) solid spaces = ground (arith, solid, spaces.0)

spell-StartsOther :
    (a x y : ℕ) (w capitals : List ℕ) (c : Spelling) (s : List ℕ)
    → (x == a) ≡ false
    → (y == a) ≡ false
    → StartsOther a s
    → StartsOther a (spell c (x ∷ w) (y ∷ capitals) ++ s)
spell-StartsOther a x y w capitals absent s hx hy h = h
spell-StartsOther a x y w capitals small s hx hy h = hx
spell-StartsOther a x y w capitals capital s hx hy h = hy

module _ (back : List ℕ) (spaces : AreSpaces back) (r : Parsed) where
  -- The text from a word on.
  abbrev from_off : Spelling → List ℕ
  from_off f = spell f (codes "off") (codes "OFF") ++ back

  abbrev from_no : Spelling → Spelling → List ℕ
  from_no n f = spell n (codes "no") (codes "NO") ++ from_off f

  abbrev from_on : Spelling → Spelling → Spelling → List ℕ
  from_on o n f = spell o (codes "on") (codes "ON") ++ from_no n f

  from_on-StartsOther :
      (a : ℕ) (o n f : Spelling)
      → isspace a ≡ false
      → ((b'o' == a) ≡ false)
        × ((b'O' == a) ≡ false)
        × ((b'n' == a) ≡ false)
        × ((b'N' == a) ≡ false)
      → StartsOther a (from_on o n f)
  from_on-StartsOther a o n f solid (ho, ho', hn, hn') =
      spell-StartsOther a b'o' b'O' _ _ o (from_no n f) ho ho' (
        spell-StartsOther a b'n' b'N' _ _ n (from_off f) hn hn' (
          spell-StartsOther a b'o' b'O' _ _ f back ho ho' (spaces-StartsOther a back solid spaces)))

  try_off-text : (f : Spelling) → try_off (r, from_off f) ≡ (put f 0 r, back)
  try_off-text small = refl
  try_off-text capital = refl
  try_off-text absent =
      rw
        (
          after_three-none b'o' b'f' b'f' back (spaces-StartsOther b'o' back refl spaces),
          after_three-none b'O' b'F' b'F' back (spaces-StartsOther b'O' back refl spaces),
        )
        refl

  try_no-text : (n f : Spelling) → try_no (r, from_no n f) ≡ (put n 0 r, from_off f)
  try_no-text small f = refl
  try_no-text capital f = refl
  try_no-text absent f =
      let s = from_off f in
      rw
        (
          after_two-none b'n' b'o' s (
              spell-StartsOther b'n' b'o' b'O' _ _ f back refl refl
                (spaces-StartsOther b'n' back refl spaces)),
          after_two-none b'N' b'O' s (
              spell-StartsOther b'N' b'o' b'O' _ _ f back refl refl
                (spaces-StartsOther b'N' back refl spaces)),
        )
        refl

  try_on-text : (o n f : Spelling) → try_on (r, from_on o n f) ≡ (put o 1 r, from_no n f)
  try_on-text small n f = refl
  try_on-text capital n f = refl
  try_on-text absent small f = refl
  try_on-text absent capital f = refl
  try_on-text absent absent small = refl
  try_on-text absent absent capital = refl
  try_on-text absent absent absent =
      rw
        (
          after_two-none b'o' b'n' back (spaces-StartsOther b'o' back refl spaces),
          after_two-none b'O' b'N' back (spaces-StartsOther b'O' back refl spaces),
        )
        refl

  try_yes-text :
      (y o n f : Spelling)
      → try_yes (r, spell y (codes "yes") (codes "YES") ++ (from_on o n f))
        ≡ (put y 1 r, from_on o n f)
  try_yes-text small o n f = refl
  try_yes-text capital o n f = refl
  try_yes-text absent o n f =
      rw
        (
          after_three-none b'y' b'e' b's' (from_on o n f)
              (from_on-StartsOther b'y' o n f refl (refl, refl, refl, refl)),
          after_three-none b'Y' b'E' b'S' (from_on o n f)
              (from_on-StartsOther b'Y' o n f refl (refl, refl, refl, refl)),
        )
        refl

  text-solid :
      (y o n f : Spelling) (v : ℕ)
      → put f 0 (put n 0 (put o 1 (put y 1 einval))) ≡ value v
      → skip_spaces (spell y (codes "yes") (codes "YES") ++ from_on o n f)
        ≡ spell y (codes "yes") (codes "YES") ++ from_on o n f
  text-solid small o n f v means = refl
  text-solid capital o n f v means = refl
  text-solid absent small n f v means = refl
  text-solid absent capital n f v means = refl
  text-solid absent absent small f v means = refl
  text-solid absent absent capital f v means = refl
  text-solid absent absent absent small v means = refl
  text-solid absent absent absent capital v means = refl
  text-solid absent absent absent absent v means = absurd (ground (arith, means))

-- The end of the reader.
abbrev ended : Parsed × List ℕ → Parsed
ended t = at_end t.0 (skip_spaces t.1)

pub parser_read_arg_bool-text :
    (front back : List ℕ) (y o n f : Spelling) (v : ℕ)
    → AreSpaces front
    → AreSpaces back
    → put f 0 (put n 0 (put o 1 (put y 1 einval))) ≡ value v
    → parser_read_arg_bool (
        front
        ++ ((spell y (codes "yes") (codes "YES")
              ++ (spell o (codes "on") (codes "ON")
                  ++ (spell n (codes "no") (codes "NO") ++ spell f (codes "off") (codes "OFF"))))
            ++ back))
      ≡ value v
unfolding parser_read_arg_bool
parser_read_arg_bool-text front back y o n f v before behind means =
    ap (λ p. ended (try_off (try_no (try_on (try_yes (einval, p))))))
      (skip_spaces-append front _ before
        ∙ ap skip_spaces (
            append_four (spell y (codes "yes") (codes "YES")) (spell o (codes "on") (codes "ON"))
              (spell n (codes "no") (codes "NO")) (spell f (codes "off") (codes "OFF")) back)
        ∙ text-solid back behind einval y o n f v means)
    ∙ ap (λ t. ended (try_off (try_no (try_on t)))) (try_yes-text back behind einval y o n f)
    ∙ ap (λ t. ended (try_off (try_no t))) (try_on-text back behind (put y 1 einval) o n f)
    ∙ ap (λ t. ended (try_off t)) (try_no-text back behind (put o 1 (put y 1 einval)) n f)
    ∙ ap ended (try_off-text back behind (put n 0 (put o 1 (put y 1 einval))) f)
    ∙ ap (at_end (put f 0 (put n 0 (put o 1 (put y 1 einval))))) (skip_spaces_all back behind)
    ∙ means
