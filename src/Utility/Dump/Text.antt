-- ===== src/Utility/Dump/Text.antt =====
-- How a row of a hex dump reads.
use tcp_dpdk.Base.{
  ℕ, zero, suc, ◌+◌, ◌-◌, ◌*◌, ◌/◌, ◌%◌, ◌≡◌, refl, ap, sym, ◌∙◌, List, [], ◌∷◌, ◌++◌, length,
  replicate, ltb, leb, ◌==◌, if◌then◌else◌, arith,
}
use mathlib.Core.List.{map}
use tcp_dpdk.Utility.Dump.{shown, hex_digit, empty_cells}
use tcp_dpdk.Utility.Dump.Rows.{gap, hexes, filler, row}

-- A point for a byte below the blank, and for one above the tilde.
abbrev pub printable : ℕ → ℕ
printable b = if ltb b 32 then 46 else if ltb 126 b then 46 else b

-- One of 0 to 9 and A to F.
abbrev pub hex_character : ℕ → ℕ
hex_character n = if leb n 9 then 48 + n else 55 + n

-- Two characters and a blank for each byte from column `n` on, with a blank behind each eight.
abbrev pub hex_columns : ℕ → List ℕ → List ℕ
hex_columns n [] = []
hex_columns n (b ∷ bytes) =
    hex_character (b / 16)
    ∷ hex_character (b % 16)
    ∷ 32
    ∷ ((if (n + 1) % 8 == 0 then 32 ∷ [] else []) ++ hex_columns (n + 1) bytes)

-- Behind `n` bytes, up to the column of the text: the blank that ends a column of eight, the one
-- of a second column that is empty, and three for each byte that is missing.
abbrev pub missing : ℕ → List ℕ
missing n =
    (if n % 8 == 0 then [] else 32 ∷ [])
    ++ ((if leb n 8 then 32 ∷ [] else []) ++ replicate (3 * (16 - n)) 32)

-- The whole row.
abbrev pub printed_row : List ℕ → List ℕ
printed_row bytes =
    hex_columns 0 bytes
    ++ (missing (length bytes) ++ 124 ∷ 32 ∷ 32 ∷ (map printable bytes ++ 32 ∷ 10 ∷ []))

shown-printable : (b : ℕ) → shown b ≡ printable b
shown-printable b = ground arith

hex_digit-character : (n : ℕ) → hex_digit n ≡ hex_character n
hex_digit-character n = ground arith

map-shown : (bytes : List ℕ) → map shown bytes ≡ map printable bytes
map-shown [] = refl
map-shown (b ∷ bytes) =
    ap (λ x. x ∷ map shown bytes) (shown-printable b)
    ∙ ap (λ xs. printable b ∷ xs) (map-shown bytes)

hexes-columns : (n : ℕ) (bytes : List ℕ) → hexes n bytes ≡ hex_columns n bytes
hexes-columns n [] = refl
hexes-columns n (b ∷ bytes) =
    ap (λ x. x ∷ hex_digit (b % 16) ∷ 32 ∷ (gap (n + 1) ++ hexes (n + 1) bytes))
      (hex_digit-character (b / 16))
    ∙ ap (λ x. hex_character (b / 16) ∷ x ∷ 32 ∷ (gap (n + 1) ++ hexes (n + 1) bytes))
        (hex_digit-character (b % 16))
    ∙ ap (λ xs. hex_character (b / 16) ∷ hex_character (b % 16) ∷ 32 ∷ (gap (n + 1) ++ xs))
        (hexes-columns (n + 1) bytes)

three_more : (n : ℕ) → 3 * suc n ≡ suc (suc (suc (3 * n)))
three_more n = omega arith

empty_cells-blanks : (n : ℕ) → empty_cells n ≡ replicate (3 * n) 32
empty_cells-blanks zero = refl
empty_cells-blanks (suc n) =
    ap (λ xs. 32 ∷ 32 ∷ 32 ∷ xs) (empty_cells-blanks n)
    ∙ ap (λ k. replicate k 32) (sym (three_more n))

filler-missing : (n : ℕ) → filler n ≡ missing n
filler-missing n =
    ap (λ xs. (if n % 8 == 0 then [] else 32 ∷ []) ++ ((if leb n 8 then 32 ∷ [] else []) ++ xs))
      (empty_cells-blanks (16 - n))

pub row-printed : (bytes : List ℕ) → row bytes ≡ printed_row bytes
row-printed bytes =
    ap (λ xs. xs ++ (filler (length bytes) ++ 124 ∷ 32 ∷ 32 ∷ (map shown bytes ++ 32 ∷ 10 ∷ [])))
      (hexes-columns 0 bytes)
    ∙ ap (λ xs. hex_columns 0 bytes ++ (xs ++ 124 ∷ 32 ∷ 32 ∷ (map shown bytes ++ 32 ∷ 10 ∷ [])))
        (filler-missing (length bytes))
    ∙ ap
        (λ xs.
          hex_columns 0 bytes ++ (missing (length bytes) ++ 124 ∷ 32 ∷ 32 ∷ (xs ++ 32 ∷ 10 ∷ [])))
        (map-shown bytes)
