-- ===== src/Utility/Dump/Rows.antt =====
-- The rows of a hex dump.
use tcp_dpdk.Base.{
  ℕ, suc, inl, inr, Bool-cases, false, true, ◌+◌, ◌-◌, ◌*◌, ◌%◌, ◌≡◌, ◌≢◌, ◌≤◌, ◌<◌, refl, ap, sym,
  ◌∙◌, List, [], ◌∷◌, ◌++◌, append_assoc, list_laws, length, length-append, set, leb, ◌==◌,
  if◌then◌else◌, codes, arith,
}
use mathlib.Core.List.{map}
use tcp_dpdk.Utility.Dump.{cell, shown, c_string, text_column, empty_cells, dump_loop}

-- The blank behind column `n`, if it has one.
abbrev pub gap : ℕ → List ℕ
gap n = if n % 8 == 0 then b' ' ∷ [] else []

-- The hex columns from column `n` on, with a blank behind the eighth and the sixteenth.
abbrev pub hexes : ℕ → List ℕ → List ℕ
hexes n [] = []
hexes n (b ∷ bytes) = cell b ++ (gap (n + 1) ++ hexes (n + 1) bytes)

-- What fills a row of `n` bytes up to the column of the text.
abbrev pub filler : ℕ → List ℕ
filler n =
    (if n % 8 == 0 then [] else b' ' ∷ [])
    ++ ((if leb n 8 then b' ' ∷ [] else []) ++ empty_cells (16 - n))

-- A row: the bytes in hex, and behind a bar the printable ones, with points for the others.
abbrev pub row : List ℕ → List ℕ
row bytes =
    hexes 0 bytes
    ++ (filler (length bytes) ++ b'|' ∷ b' ' ∷ b' ' ∷ (map shown bytes ++ b' ' ∷ b'\n' ∷ []))

row_text :
    row (codes "GET / HTTP")
    ≡ codes "47 45 54 20 2F 20 48 54  54 50                    |  GET / HTTP \n"
row_text = refl

pub set-append : (xs ys : List ℕ) (y v : ℕ) → set (xs ++ y ∷ ys) (length xs) v ≡ xs ++ v ∷ ys
set-append [] ys y v = refl
set-append (x ∷ xs) ys y v = ap (λ zs. x ∷ zs) (set-append xs ys y v)

c_string-shown : (bytes g : List ℕ) → c_string (map shown bytes ++ 0 ∷ g) ≡ map shown bytes
c_string-shown [] g = refl
c_string-shown (b ∷ bytes) g =
    let solid : (shown b == 0) ≡ false = ground arith in rw (solid, c_string-shown bytes g) refl

map-snoc :
    (bytes : List ℕ) (b : ℕ) (g : List ℕ)
    → map shown (bytes ++ b ∷ []) ++ g ≡ map shown bytes ++ shown b ∷ g
map-snoc [] b g = refl
map-snoc (x ∷ bytes) b g = ap (λ xs. shown x ∷ xs) (map-snoc bytes b g)

pub length-shown : (bytes : List ℕ) → length (map shown bytes) ≡ length bytes
length-shown [] = refl
length-shown (b ∷ bytes) = ap suc (length-shown bytes)

-- The text column of a row.
abbrev pub text_of : List ℕ → List ℕ
text_of bytes = b'|' ∷ b' ' ∷ b' ' ∷ (map shown bytes ++ b' ' ∷ b'\n' ∷ [])

end_assoc : (xs ys zs : List ℕ) → (xs ++ (ys ++ zs)) ++ [] ≡ (xs ++ ys) ++ zs
end_assoc xs ys zs = simp list_laws

pub length-snoc : (xs : List ℕ) (x : ℕ) → length (xs ++ x ∷ []) ≡ length xs + 1
length-snoc xs x = length-append xs (x ∷ [])

module _ (size r : ℕ) where
  -- A byte that ends neither its row nor the data.
  byte_step :
      (k b : ℕ) (ascii bytes : List ℕ)
      → k < 15
      → 16 * r + k + 1 ≢ size
      → dump_loop size (16 * r + k) ascii (b ∷ bytes)
        ≡ cell b ++ (gap (k + 1) ++ dump_loop size (16 * r + k + 1) (set ascii k (shown b)) bytes)
  unfolding dump_loop
  byte_step k b ascii bytes below go_on =
      let column : (16 * r + k) % 16 ≡ k = omega (arith, below) in
      let eighth : (16 * r + k + 1) % 8 ≡ (k + 1) % 8 = omega arith in
      let inside : ((16 * r + k + 1) % 16 == 0) ≡ false = ground (arith, below) in
      let more : (16 * r + k + 1 == size) ≡ false = ground (arith, go_on) in
      elim (Bool-cases ((k + 1) % 8 == 0)) [
        | inl e ↦ rw (column, eighth, inside, more, e) refl
        | inr e ↦ rw (column, eighth, inside, more, e) refl
      ]

  -- The last byte of a row.
  pub row_end :
      (k b : ℕ) (ascii bytes : List ℕ)
      → k ≡ 15
      → dump_loop size (16 * r + k) ascii (b ∷ bytes)
        ≡ cell b
          ++ (b' '
              ∷ (text_column (set ascii k (shown b))
                  ++ dump_loop size (16 * r + 16) (set ascii k (shown b)) bytes))
  unfolding dump_loop
  row_end k b ascii bytes last =
      let column : (16 * r + k) % 16 ≡ k = omega (arith, last) in
      let next : 16 * r + k + 1 ≡ 16 * r + 16 = omega (arith, last) in
      let eighth : ((16 * r + 16) % 8 == 0) ≡ true = ground arith in
      let full : ((16 * r + 16) % 16 == 0) ≡ true = ground arith in
      rw (column, next, eighth, full) refl

  -- The last byte of the data, in a row that is not full.
  pub data_end :
      (k b : ℕ) (ascii : List ℕ)
      → k < 15
      → 16 * r + k + 1 ≡ size
      → dump_loop size (16 * r + k) ascii (b ∷ [])
        ≡ cell b
          ++ (gap (k + 1)
              ++ (filler (k + 1) ++ text_column (set (set ascii k (shown b)) (k + 1) 0)))
  unfolding dump_loop
  data_end k b ascii below last =
      let column : (16 * r + k) % 16 ≡ k = omega (arith, below) in
      let eighth : (16 * r + k + 1) % 8 ≡ (k + 1) % 8 = omega arith in
      let next : (16 * r + k + 1) % 16 ≡ k + 1 = omega (arith, below) in
      let inside : (k + 1 == 0) ≡ false = ground arith in
      let over : (16 * r + k + 1 == size) ≡ true = ground (arith, last) in
      elim (Bool-cases ((k + 1) % 8 == 0)) [
        | inl e ↦
            rw (column, eighth, next, inside, over, e)
              (ap (λ xs. cell b ++ (b' ' ∷ xs))
                (end_assoc (if leb (k + 1) 8 then b' ' ∷ [] else []) (empty_cells (16 - (k + 1)))
                  (text_column (set (set ascii k (shown b)) (k + 1) 0))))
        | inr e ↦
            rw (column, eighth, next, inside, over, e)
              (ap (λ xs. cell b ++ (b' ' ∷ xs))
                (end_assoc (if leb (k + 1) 8 then b' ' ∷ [] else []) (empty_cells (16 - (k + 1)))
                  (text_column (set (set ascii k (shown b)) (k + 1) 0))))
      ]

-- The text column while the row is read.
pub write-shown :
    (done : List ℕ) (b x k : ℕ) (g : List ℕ)
    → length done ≡ k
    → set (map shown done ++ x ∷ g) k (shown b) ≡ map shown (done ++ b ∷ []) ++ g
write-shown done b x k g at_k =
    ap (λ j. set (map shown done ++ x ∷ g) j (shown b)) (sym at_k ∙ sym (length-shown done))
    ∙ set-append (map shown done) g x (shown b)
    ∙ sym (map-snoc done b g)

pub text_column-shown : (bytes g : List ℕ) → text_column (map shown bytes ++ 0 ∷ g) ≡ text_of bytes
text_column-shown bytes g =
    ap (λ xs. b'|' ∷ b' ' ∷ b' ' ∷ (xs ++ b' ' ∷ b'\n' ∷ [])) (c_string-shown bytes g)

module _ (size r : ℕ) (more : List ℕ) (behind_row : List ℕ → List ℕ) (n : ℕ)
    (finish : (done : List ℕ) (b x : ℕ) (g : List ℕ)
      → length done + 1 ≡ n
      → length g + length done ≡ 15
      → dump_loop size (16 * r + length done) (map shown done ++ x ∷ (g ++ 0 ∷ [])) (b ∷ more)
        ≡ hexes (length done) (b ∷ [])
          ++ (filler n ++ (text_of (done ++ b ∷ []) ++ behind_row (done ++ b ∷ [])))) where
  -- From column `length done` on, when the last byte of the row does as it should.
  pub row_loop :
      (done : List ℕ) (b : ℕ) (todo : List ℕ) (x : ℕ) (g : List ℕ)
      → length done + 1 + length todo ≡ n
      → n ≤ 16
      → 16 * r + n ≤ size
      → length g + length done ≡ 15
      → dump_loop size
          (16 * r + length done)
          (map shown done ++ x ∷ (g ++ 0 ∷ []))
          (b ∷ (todo ++ more))
        ≡ hexes (length done) (b ∷ todo)
          ++ (filler n ++ (text_of (done ++ b ∷ todo) ++ behind_row (done ++ b ∷ todo)))
  row_loop done b [] x g whole room inside left = finish done b x g (omega (arith, whole)) left
  row_loop done b (c ∷ todo) x [] whole room inside left = absurd (omega (arith, whole, room, left))
  row_loop done b (c ∷ todo) x (y ∷ g) whole room inside left =
      let k = length done in
      let done' = done ++ b ∷ [] in
      let bytes = c ∷ (todo ++ more) in
      let count : length done' ≡ k + 1 = length-snoc done b in
      let index : 16 * r + length done' ≡ 16 * r + k + 1 = omega (arith, count) in
      let rec =
        row_loop done' c todo y g (omega (arith, whole, count)) room inside
          (omega (arith, left, count)) in
      let rest =
        ap (λ a. dump_loop size (16 * r + k + 1) a bytes)
          (write-shown done b x k (y ∷ (g ++ 0 ∷ [])) refl)
        ∙ ap (λ i. dump_loop size i (map shown done' ++ y ∷ (g ++ 0 ∷ [])) bytes) (sym index)
        ∙ rec
        ∙ ap
            (λ j.
              hexes j (c ∷ todo)
              ++ (filler n ++ (text_of (done' ++ c ∷ todo) ++ behind_row (done' ++ c ∷ todo))))
            count
        ∙ ap (λ ds. hexes (k + 1) (c ∷ todo) ++ (filler n ++ (text_of ds ++ behind_row ds)))
            (append_assoc done (b ∷ []) (c ∷ todo)) in
      byte_step size r k b (map shown done ++ x ∷ (y ∷ g ++ 0 ∷ [])) bytes
        (omega (arith, whole, room)) (omega (arith, whole, inside))
      ∙ ap (λ xs. cell b ++ (gap (k + 1) ++ xs)) rest
      ∙ ap (λ xs. cell b ++ xs) (sym (append_assoc (gap (k + 1)) (hexes (k + 1) (c ∷ todo)) _))
