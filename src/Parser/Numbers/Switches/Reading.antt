-- ===== src/Parser/Numbers/Switches/Reading.antt =====
-- What `parser_read_arg_bool` has taken.
use tcp_dpdk.Base.{
  ℕ, ◌≡◌, refl, ap, sym, ◌∙◌, List, [], ◌∷◌, ◌++◌, Option, none, some, isspace, skip_spaces,
  Bool-cases, inl, inr, codes, arith,
}
use tcp_dpdk.Parser.Numbers.{
  Parsed, value, einval, after_three, after_two, word, try_yes, try_on, try_no, try_off, at_end,
  parser_read_arg_bool,
}
use tcp_dpdk.Parser.Numbers.Suffixes.{AreSpaces}
use tcp_dpdk.Parser.Numbers.Switches.{
  Spelling, absent, small, capital, spell, put, Says, append_four,
}

-- One word is read: the text it takes, and the result behind it.
record Takes (w capitals : List ℕ) (v : ℕ) (s t : Parsed × List ℕ) : Type 0 where
  spelling : Spelling
  taken : s.1 ≡ spell spelling w capitals ++ t.1
  result : t.0 ≡ put spelling v s.0

after_three-some : (a b c : ℕ) (p s : List ℕ) → after_three a b c p ≡ some s → p ≡ a ∷ b ∷ c ∷ s
after_three-some a b c [] s e = ground arith
after_three-some a b c (x ∷ []) s e = ground arith
after_three-some a b c (x ∷ (y ∷ [])) s e = ground arith
after_three-some a b c (x ∷ (y ∷ (z ∷ q))) s e = ground arith

after_two-some : (a b : ℕ) (p s : List ℕ) → after_two a b p ≡ some s → p ≡ a ∷ b ∷ s
after_two-some a b [] s e = ground arith
after_two-some a b (x ∷ []) s e = ground arith
after_two-some a b (x ∷ (y ∷ q)) s e = ground arith

word-Takes :
    (w capitals : List ℕ) (v : ℕ) (r : Parsed) (p : List ℕ) (x y : Option (List ℕ))
    → ((s : List ℕ) → x ≡ some s → p ≡ w ++ s)
    → ((s : List ℕ) → y ≡ some s → p ≡ capitals ++ s)
    → Takes w capitals v (r, p) (word x y (value v) (r, p))
word-Takes w capitals v r p (some s) y f g = record {
  spelling = small;
  taken = f s refl;
  result = refl;
}
word-Takes w capitals v r p none (some s) f g = record {
  spelling = capital;
  taken = g s refl;
  result = refl;
}
word-Takes w capitals v r p none none f g = record {
  spelling = absent;
  taken = refl;
  result = refl;
}

-- What white space is skipped.
skip_spaces-split : (p : List ℕ) → (front : List ℕ) × AreSpaces front × (p ≡ front ++ skip_spaces p)
skip_spaces-split [] = ([], tt, refl)
skip_spaces-split (c ∷ cs) = elim (Bool-cases (isspace c)) [
  | inl e ↦
      let (front, spaces, parts) = skip_spaces-split cs in
      (c ∷ front, (e, spaces), rw e (ap (λ xs. c ∷ xs) parts))
  | inr e ↦ ([], tt, rw e refl)
]

spaces-skipped : (p : List ℕ) → skip_spaces p ≡ [] → AreSpaces p
spaces-skipped [] h = tt
spaces-skipped (c ∷ cs) h = elim (Bool-cases (isspace c)) [
  | inl e ↦ (e, spaces-skipped cs (rw e at h))
  | inr e ↦ absurd (ground (arith, h, e))
]

at_end-value :
    (r : Parsed) (rest : List ℕ) (v : ℕ) → at_end r rest ≡ value v → (rest ≡ []) × (r ≡ value v)
at_end-value r [] v e = (refl, e)
at_end-value r (c ∷ rest) v e = ground arith

pub parser_read_arg_bool-Says : (p : List ℕ) (v : ℕ) → parser_read_arg_bool p ≡ value v → Says p v
unfolding parser_read_arg_bool
parser_read_arg_bool-Says p v e =
    let p0 = skip_spaces p in
    let s1 = try_yes (einval, p0) in
    let s2 = try_on s1 in
    let s3 = try_no s2 in
    let s4 = try_off s3 in
    let t1 : Takes (codes "yes") (codes "YES") 1 (einval, p0) s1 =
      word-Takes (codes "yes") (codes "YES") 1 einval p0 _ _ (after_three-some b'y' b'e' b's' p0)
        (after_three-some b'Y' b'E' b'S' p0) in
    let t2 : Takes (codes "on") (codes "ON") 1 s1 s2 =
      word-Takes (codes "on") (codes "ON") 1 s1.0 s1.1 _ _ (after_two-some b'o' b'n' s1.1)
        (after_two-some b'O' b'N' s1.1) in
    let t3 : Takes (codes "no") (codes "NO") 0 s2 s3 =
      word-Takes (codes "no") (codes "NO") 0 s2.0 s2.1 _ _ (after_two-some b'n' b'o' s2.1)
        (after_two-some b'N' b'O' s2.1) in
    let t4 : Takes (codes "off") (codes "OFF") 0 s3 s4 =
      word-Takes (codes "off") (codes "OFF") 0 s3.0 s3.1 _ _ (after_three-some b'o' b'f' b'f' s3.1)
        (after_three-some b'O' b'F' b'F' s3.1) in
    let (front, spaces, parts) = skip_spaces-split p in
    let (over, means) = at_end-value s4.0 (skip_spaces s4.1) v e in
    let y = spell t1.spelling (codes "yes") (codes "YES") in
    let o = spell t2.spelling (codes "on") (codes "ON") in
    let n = spell t3.spelling (codes "no") (codes "NO") in
    let f = spell t4.spelling (codes "off") (codes "OFF") in
    record {
      front = front;
      sentence = record {
        yes_word = t1.spelling;
        on_word = t2.spelling;
        no_word = t3.spelling;
        off_word = t4.spelling;
      };
      back = s4.1;
      before = spaces;
      behind = spaces-skipped s4.1 over;
      parts =
          parts
          ∙ ap (λ xs. front ++ xs)
              (t1.taken
                ∙ ap (λ xs. y ++ xs)
                    (t2.taken ∙ ap (λ xs. o ++ xs) (t3.taken ∙ ap (λ xs. n ++ xs) t4.taken))
                ∙ sym (append_four y o n f s4.1));
      means =
          sym (
            t4.result
            ∙ ap (put t4.spelling 0)
                (t3.result ∙ ap (put t3.spelling 0) (t2.result ∙ ap (put t2.spelling 1) t1.result)))
          ∙ means;
    }
