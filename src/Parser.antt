-- ===== src/Parser.antt =====
-- `parse_tokenize_string` of src/cli/parser.c, on strings that are not NULL; the other readers of
-- that file are the children.
pub mod Words
pub mod Numbers
pub mod Hex
pub mod Labels
pub mod Address
pub mod Ethernet
pub mod Address6
pub mod CpuCore
use tcp_dpdk.Base.{
  ℕ, zero, suc, Bool, true, false, List, [], ◌∷◌, Option, none, some, length, isspace, skip_spaces,
  ltb, ◌==◌, ◌&&◌, if◌then◌else◌,
}

-- Tokens, or -EINVAL, or -E2BIG.
pub data Tokenized : Type 0 where
  tokens : List (List ℕ) → Tokenized
  invalid too_big : Tokenized

-- `strtok_r` with `PARSE_DELIMITER`, the characters of `isspace`: the token that the string starts
-- with, and what stands behind the delimiter that ends it.
abbrev pub token : List ℕ → List ℕ × List ℕ
token [] = ([], [])
token (c ∷ cs) = elim (isspace c) [
  | true ↦ ([], cs)
  | false ↦ (let (t, rest) = token cs in (c ∷ t, rest))
]

abbrev pub strtok_at : List ℕ → Option (List ℕ × List ℕ)
strtok_at [] = none
strtok_at (c ∷ cs) = some (token (c ∷ cs))

abbrev pub strtok_r : List ℕ → Option (List ℕ × List ℕ)
strtok_r s = strtok_at (skip_spaces s)

-- The loop: at most `n` tokens, and the string that is left.
unfoldable pub collect : ℕ → List ℕ → List (List ℕ) × List ℕ
collect zero s = ([], s)
collect (suc n) s = elim (strtok_r s) [
  | none ↦ ([], s)
  | some (t, rest) ↦ let (ts, rest') = collect n rest in (t ∷ ts, rest')
]

abbrev pub is_some : Option (List ℕ × List ℕ) → Bool
is_some none = false
is_some (some r) = true

unfoldable pub parse_tokenize_string : List ℕ → ℕ → Tokenized
parse_tokenize_string s n_tokens =
    if ltb n_tokens 1
    then invalid
    else let (ts, rest) = collect n_tokens s in
      if (length ts == n_tokens) && is_some (strtok_r rest) then too_big else tokens ts
