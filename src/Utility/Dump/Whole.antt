-- ===== src/Utility/Dump/Whole.antt =====
-- A whole hex dump, row by row.
use tcp_dpdk.Base.{
  ℕ, fun_ext, suc, zero, ◌+◌, ◌*◌, ◌≡◌, ◌<◌, ◌≤◌, refl, ap, sym, ◌∙◌, List, [], ◌∷◌, ◌++◌,
  append_assoc, list_laws, append-nil, length, length-append, set, take, All, length-take, arith,
}
use mathlib.Core.List.{map}
use tcp_dpdk.Utility.Dump.{cell, shown, text_column, dump_loop, dump_hex}
use tcp_dpdk.Utility.Dump.Text.{printed_row, row-printed}
use tcp_dpdk.Utility.Dump.Rows.{
  gap, hexes, filler, row, text_of, row_end, data_end, row_loop, write-shown, text_column-shown,
  length-shown, length-snoc, set-append,
}

row-append :
    (bytes rest : List ℕ) (n : ℕ)
    → length bytes ≡ n
    → hexes 0 bytes ++ (filler n ++ (text_of bytes ++ rest)) ≡ row bytes ++ rest
row-append bytes rest n at_n =
    ap (λ j. hexes 0 bytes ++ (filler j ++ (text_of bytes ++ rest))) (sym at_n) ∙ simp list_laws

module _ (size r : ℕ) (more : List ℕ) where
  -- What is left behind a row.
  abbrev go_on : List ℕ → List ℕ
  go_on bytes = dump_loop size (16 * r + 16) (map shown bytes ++ 0 ∷ []) more

  finish_full :
      (done : List ℕ) (b x : ℕ) (g : List ℕ)
      → length done + 1 ≡ 16
      → length g + length done ≡ 15
      → dump_loop size (16 * r + length done) (map shown done ++ x ∷ (g ++ 0 ∷ [])) (b ∷ more)
        ≡ hexes (length done) (b ∷ [])
          ++ (filler 16 ++ (text_of (done ++ b ∷ []) ++ go_on (done ++ b ∷ [])))
  finish_full done b x (y ∷ g) whole left = absurd (omega (arith, whole, left))
  finish_full done b x [] whole left =
      let ds = done ++ b ∷ [] in
      row_end size r (length done) b (map shown done ++ x ∷ 0 ∷ []) more (omega (arith, whole))
      ∙ ap (λ a. cell b ++ (b' ' ∷ (text_column a ++ dump_loop size (16 * r + 16) a more)))
          (write-shown done b x (length done) (0 ∷ []) refl)
      ∙ ap (λ t. cell b ++ (b' ' ∷ (t ++ go_on ds))) (text_column-shown ds [])
      ∙ ap (λ j. cell b ++ ((gap j ++ []) ++ (text_of ds ++ go_on ds))) (sym whole)

  full_row :
      (b : ℕ) (todo : List ℕ) (x : ℕ) (g : List ℕ)
      → length todo ≡ 15
      → length g ≡ 15
      → 16 * r + 16 ≤ size
      → dump_loop size (16 * r) (x ∷ (g ++ 0 ∷ [])) (b ∷ (todo ++ more))
        ≡ row (b ∷ todo) ++ go_on (b ∷ todo)
  full_row b todo x g whole left inside =
      let start : 16 * r ≡ 16 * r + 0 = omega arith in
      ap (λ i. dump_loop size i (x ∷ (g ++ 0 ∷ [])) (b ∷ (todo ++ more))) start
      ∙ row_loop size r more go_on 16 finish_full [] b todo x g (omega (arith, whole)) (omega arith)
          inside (omega (arith, left))
      ∙ row-append (b ∷ todo) (go_on (b ∷ todo)) 16 (omega (arith, whole))

module _ (size r n : ℕ) (short : n < 16) (end : 16 * r + n ≡ size) where
  finish_part :
      (done : List ℕ) (b x : ℕ) (g : List ℕ)
      → length done + 1 ≡ n
      → length g + length done ≡ 15
      → dump_loop size (16 * r + length done) (map shown done ++ x ∷ (g ++ 0 ∷ [])) (b ∷ [])
        ≡ hexes (length done) (b ∷ []) ++ (filler n ++ (text_of (done ++ b ∷ []) ++ []))
  finish_part done b x [] whole left = absurd (omega (arith, whole, left, short))
  finish_part done b x (y ∷ g) whole left =
      let k = length done in
      let ds = done ++ b ∷ [] in
      let count : length (map shown ds) ≡ k + 1 = length-shown ds ∙ length-snoc done b in
      let column =
        ap (λ a. text_column (set a (k + 1) 0)) (write-shown done b x k (y ∷ (g ++ 0 ∷ [])) refl)
        ∙ ap (λ j. text_column (set (map shown ds ++ y ∷ (g ++ 0 ∷ [])) j 0)) (sym count)
        ∙ ap text_column (set-append (map shown ds) (g ++ 0 ∷ []) y 0)
        ∙ text_column-shown ds (g ++ 0 ∷ []) in
      data_end size r k b (map shown done ++ x ∷ (y ∷ g ++ 0 ∷ [])) (omega (arith, whole, short))
        (omega (arith, whole, end))
      ∙ ap (λ t. cell b ++ (gap (k + 1) ++ (filler (k + 1) ++ t))) column
      ∙ ap (λ xs. cell b ++ (xs ++ (filler (k + 1) ++ text_of ds))) (sym (append-nil (gap (k + 1))))
      ∙ ap (λ xs. cell b ++ ((gap (k + 1) ++ []) ++ (filler (k + 1) ++ xs)))
          (sym (append-nil (text_of ds)))
      ∙ ap (λ j. cell b ++ ((gap (k + 1) ++ []) ++ (filler j ++ (text_of ds ++ [])))) whole

  part_row :
      (b : ℕ) (todo : List ℕ) (x : ℕ) (g : List ℕ)
      → length todo + 1 ≡ n
      → length g ≡ 15
      → dump_loop size (16 * r) (x ∷ (g ++ 0 ∷ [])) (b ∷ todo) ≡ row (b ∷ todo)
  part_row b todo x g whole left =
      let start : 16 * r ≡ 16 * r + 0 = omega arith in
      ap (λ i. dump_loop size i (x ∷ (g ++ 0 ∷ [])) (b ∷ todo)) start
      ∙ ap (λ xs. dump_loop size (16 * r + 0) (x ∷ (g ++ 0 ∷ [])) (b ∷ xs)) (sym (append-nil todo))
      ∙ row_loop size r [] (λ bytes. []) n finish_part [] b todo x g (omega (arith, whole))
          (omega (arith, short)) (omega (arith, end)) (omega (arith, left))
      ∙ row-append (b ∷ todo) [] n (omega (arith, whole))
      ∙ append-nil (row (b ∷ todo))

abbrev pub join : List (List ℕ) → List ℕ
join [] = []
join (xs ∷ xss) = xs ++ join xss

-- The row of what is left, if anything is.
abbrev pub end_row : (List ℕ → List ℕ) → List ℕ → List ℕ
end_row f [] = []
end_row f (b ∷ bytes) = f (b ∷ bytes)

dump_loop-rows :
    (size r : ℕ) (full : List (List ℕ)) (rest : List ℕ) (x : ℕ) (g : List ℕ)
    → All (λ xs. length xs ≡ 16) full
    → length rest < 16
    → length g ≡ 15
    → 16 * r + length (join full ++ rest) ≡ size
    → dump_loop size (16 * r) (x ∷ (g ++ 0 ∷ [])) (join full ++ rest)
      ≡ join (map row full) ++ end_row row rest
unfolding dump_loop
dump_loop-rows size r [] [] x g are_full short left end = refl
dump_loop-rows size r [] (b ∷ rest) x g are_full short left end =
    part_row size r (length rest + 1) (omega (arith, short)) (omega (arith, end)) b rest x g refl
      left
dump_loop-rows size r ([] ∷ full) rest x g (is_full, are_full) short left end =
    absurd (omega (arith, is_full))
dump_loop-rows size r ((b ∷ todo) ∷ full) rest x g (is_full, are_full) short left end =
    let bytes = join full ++ rest in
    let split : ((b ∷ todo) ++ join full) ++ rest ≡ b ∷ (todo ++ bytes) =
      append_assoc (b ∷ todo) (join full) rest in
    let whole : length (b ∷ (todo ++ bytes)) ≡ 16 + length bytes =
      length-append (b ∷ todo) bytes ∙ ap (λ n. n + length bytes) is_full in
    let size_is : 16 * r + (16 + length bytes) ≡ size =
      ap (λ n. 16 * r + n) (sym whole ∙ ap length (sym split)) ∙ end in
    let index : 16 * r + 16 ≡ 16 * (r + 1) = omega arith in
    ap (dump_loop size (16 * r) (x ∷ (g ++ 0 ∷ []))) split
    ∙ full_row size r bytes b todo x g (omega (arith, is_full)) left (omega (arith, size_is))
    ∙ ap (λ i. row (b ∷ todo) ++ dump_loop size i (map shown (b ∷ todo) ++ 0 ∷ []) bytes) index
    ∙ ap (λ xs. row (b ∷ todo) ++ xs)
        (dump_loop-rows size (r + 1) full rest (shown b) (map shown todo) are_full short
          (length-shown todo ∙ omega (arith, is_full)) (omega (arith, size_is)))
    ∙ sym (append_assoc (row (b ∷ todo)) (join (map row full)) (end_row row rest))

set_last : (n : ℕ) (xs : List ℕ) (v : ℕ) → length xs ≡ n + 1 → set xs n v ≡ take n xs ++ v ∷ []
set_last n [] v h = absurd (omega (arith, h))
set_last zero (x ∷ []) v h = refl
set_last zero (x ∷ (y ∷ xs)) v h = absurd (omega (arith, h))
set_last (suc n) (x ∷ xs) v h = ap (λ ys. x ∷ ys) (set_last n xs v (omega (arith, h)))

dump_hex-row :
    (garbage : List ℕ) (full : List (List ℕ)) (rest : List ℕ)
    → length garbage ≡ 17
    → All (λ xs. length xs ≡ 16) full
    → length rest < 16
    → dump_hex garbage (join full ++ rest) ≡ join (map row full) ++ end_row row rest
unfolding dump_hex
dump_hex-row [] full rest wide are_full short = absurd (omega (arith, wide))
dump_hex-row (x ∷ garbage) full rest wide are_full short =
    ap (λ g. dump_loop (length (join full ++ rest)) 0 (x ∷ g) (join full ++ rest))
      (set_last 15 garbage 0 (omega (arith, wide)))
    ∙ dump_loop-rows (length (join full ++ rest)) 0 full rest x (take 15 garbage) are_full short
        (length-take 15 garbage ∙ omega (arith, wide)) (omega arith)

-- Whatever the stack holds in the 17 bytes of `ascii`, the dump of rows of 16 bytes and of fewer
-- than 16 bytes behind them is the text of each row, one behind the other, and of what is left, if
-- there is anything. A row has two hex characters and a blank for each byte, a blank behind each
-- eight, and behind a bar the bytes from 32 to 126 themselves, with points for the others; a row
-- that is not full has blanks where bytes are missing.
pub dump_hex-rows :
    (garbage : List ℕ) (full : List (List ℕ)) (rest : List ℕ)
    → length garbage ≡ 17
    → All (λ xs. length xs ≡ 16) full
    → length rest < 16
    → dump_hex garbage (join full ++ rest) ≡ join (map printed_row full) ++ end_row printed_row rest
dump_hex-rows garbage full rest wide are_full short =
    dump_hex-row garbage full rest wide are_full short
    ∙ ap (λ f. join (map f full) ++ end_row f rest) (fun_ext row-printed)
