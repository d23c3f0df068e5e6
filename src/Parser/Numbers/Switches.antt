-- ===== src/Parser/Numbers/Switches.antt =====
-- The words that `parser_read_arg_bool` takes.
mod Reading
mod Texts
pub mod Exact
use tcp_dpdk.Base.{
  ℕ, ◌≡◌, refl, ap, sym, ◌∙◌, ◌↔◌, true, false, List, [], ◌∷◌, ◌++◌, append-nil, list_laws, Option,
  none, some, isspace, skip_spaces, ◌==◌, Bool-cases, inl, inr, All, subst, codes, arith,
}
use tcp_dpdk.Parser.Numbers.{
  Parsed, value, einval, after_three, after_two, word, try_yes, try_on, try_no, try_off, at_end,
  parser_read_arg_bool,
}
use tcp_dpdk.Parser.Numbers.Suffixes.{AreSpaces, skip_spaces-append, skip_spaces_all}

-- How a word stands in a text.
pub data Spelling : Type 0 where
  absent small capital : Spelling

abbrev pub spell : Spelling → List ℕ → List ℕ → List ℕ
spell absent w capitals = []
spell small w capitals = w
spell capital w capitals = capitals

-- What the word means, where it stands.
abbrev pub put : Spelling → ℕ → Parsed → Parsed
put absent v r = r
put _ v r = value v

-- The four words, each of which may be left out.
pub record Sentence : Type 0 where
  pub yes_word : Spelling
  pub on_word : Spelling
  pub no_word : Spelling
  pub off_word : Spelling

abbrev pub text : Sentence → List ℕ
text s =
    spell s.yes_word (codes "yes") (codes "YES")
    ++ (spell s.on_word (codes "on") (codes "ON")
        ++ (spell s.no_word (codes "no") (codes "NO")
            ++ spell s.off_word (codes "off") (codes "OFF")))

-- The last word that is there counts.
abbrev pub meaning : Sentence → Parsed
meaning s = put s.off_word 0 (put s.no_word 0 (put s.on_word 1 (put s.yes_word 1 einval)))

-- The text is such a sentence with white space around it, and it means `v`.
pub record Says (p : List ℕ) (v : ℕ) : Type 0 where
  pub front : List ℕ
  pub sentence : Sentence
  pub back : List ℕ
  pub before : AreSpaces front
  pub behind : AreSpaces back
  pub parts : p ≡ front ++ (text sentence ++ back)
  pub means : meaning sentence ≡ value v

pub append_four :
    (y o n f rest : List ℕ) → (y ++ (o ++ (n ++ f))) ++ rest ≡ y ++ (o ++ (n ++ (f ++ rest)))
append_four y o n f rest = simp list_laws
