-- ===== src/Parser/Words.antt =====
-- `parse_tokenize_string` against the words of a text.
use tcp_dpdk.Base.{
  ℕ, zero, suc, ◌≡◌, ◌<◌, refl, true, false, List, [], ◌∷◌, ◌++◌, none, some, length, isspace,
  skip_spaces, ltb, length-take, length-drop, take_all, leb, ◌⊎◌, append_assoc, append-nil,
  Bool-cases, inl, inr, sym, ap, ◌∙◌, take, drop, arith, if◌then◌else◌,
}
use tcp_dpdk.Parser.{token, strtok_r, collect, is_some, parse_tokenize_string, tokens, too_big}

-- A word that is complete, in front of the words behind it.
abbrev flush : List ℕ → List (List ℕ) → List (List ℕ)
flush [] ws = ws
flush (c ∷ w) ws = (c ∷ w) ∷ ws

-- The maximal runs of other characters than white space, `run` being the one under way.
abbrev words_from : List ℕ → List ℕ → List (List ℕ)
words_from run [] = flush run []
words_from run (c ∷ cs) = elim (isspace c) [
  | true ↦ flush run (words_from [] cs)
  | false ↦ words_from (run ++ c ∷ []) cs
]

abbrev pub words : List ℕ → List (List ℕ)
words s = words_from [] s

words-skip_spaces : (s : List ℕ) → words (skip_spaces s) ≡ words s
words-skip_spaces [] = refl
words-skip_spaces (c ∷ cs) = ground (arith, words-skip_spaces cs)

words_from-token :
    (a : ℕ) (w s : List ℕ) → words_from (a ∷ w) s ≡ (a ∷ w ++ (token s).0) ∷ words ((token s).1)
words_from-token a w [] = ap (λ v. (a ∷ v) ∷ []) (sym (append-nil w))
words_from-token a w (c ∷ cs) = elim (Bool-cases (isspace c)) [
  | inl space ↦ rw (space, words_from, token) (ap (λ v. (a ∷ v) ∷ words cs) (sym (append-nil w)))
  | inr other ↦
      rw (other, words_from, token)
        (words_from-token a (w ++ c ∷ []) cs
          ∙ ap (λ v. (a ∷ v) ∷ words ((token cs).1)) (append_assoc w (c ∷ []) ((token cs).0)))
]

-- What `strtok_r` takes is the first word.
strtok_r-words :
    (s : List ℕ)
    → ((strtok_r s ≡ none) × (words s ≡ []))
      ⊎ ((r : List ℕ × List ℕ) × (strtok_r s ≡ some r) × (words s ≡ r.0 ∷ words r.1))
strtok_r-words [] = inl (refl, refl)
strtok_r-words (c ∷ cs) = elim (Bool-cases (isspace c)) [
  | inl space ↦ ground (arith, strtok_r-words cs)
  | inr other ↦ inr (
    (c ∷ (token cs).0, (token cs).1),
    ground arith,
    rw (other, words_from) (words_from-token c [] cs),
  )
]

collect-words :
    (n : ℕ) (s : List ℕ)
    → ((collect n s).0 ≡ take n (words s)) × (words ((collect n s).1) ≡ drop n (words s))
unfolding collect
collect-words zero s = (refl, refl)
collect-words (suc n) s = elim (strtok_r-words s) [
  | inl (none_left, no_words) ↦ ground arith
  | inr (r, first, rest) ↦ ground (arith, collect-words n r.1)
]

strtok_r_spent : (s : List ℕ) → is_some (strtok_r s) ≡ ltb 0 (length (words s))
strtok_r_spent s = elim (strtok_r-words s) [
  | inl (none_left, no_words) ↦ ground arith
  | inr (r, first, rest) ↦ ground arith
]

-- Room for at least one token given, `parse_tokenize_string` returns the maximal runs of other
-- characters than white space if they fit, and -E2BIG if they do not.
pub parse_tokenize_string_iff :
    (s : List ℕ) (n_tokens : ℕ)
    → 0 < n_tokens
    → parse_tokenize_string s n_tokens
      ≡ (if leb (length (words s)) n_tokens then tokens (words s) else too_big)
unfolding parse_tokenize_string
parse_tokenize_string_iff s n_tokens room =
    let (taken, left) = collect-words n_tokens s in
    ground (
      arith,
      taken,
      left,
      strtok_r_spent ((collect n_tokens s).1),
      length-take n_tokens (words s),
      length-drop n_tokens (words s),
      take_all n_tokens (words s),
    )
