-- ===== src/Parser/Numbers/Suffixes.antt =====
-- `parser_read_uint64` on the decimal notation of a number, with a unit behind it.
use tcp_dpdk.Base.{
  ℕ, ◌*◌, ◌%◌, ◌^◌, ◌≡◌, ◌<◌, refl, ap, ◌∙◌, true, false, List, [], ◌∷◌, ◌++◌, isspace, isdigit,
  skip_spaces, digits, decimal, Starts, decimal-Starts, digits-decimal, EndsNumber, ltb, ltb_iff,
  All, u64_mod, arith,
}
use tcp_dpdk.Parser.Numbers.{
  value, at_end, scale, mul_1024, finish, read_number, parser_read_uint64,
}

-- The units that a number may have.
pub data Multiple : Type 0 where
  ones small_kilo kilo mega giga tera : Multiple

abbrev pub letter : Multiple → List ℕ
letter ones = []
letter small_kilo = b'k' ∷ []
letter kilo = b'K' ∷ []
letter mega = b'M' ∷ []
letter giga = b'G' ∷ []
letter tera = b'T' ∷ []

abbrev pub factor : Multiple → ℕ
factor ones = 1
factor small_kilo = 1024
factor kilo = 1024
factor mega = 1024 ^ 2
factor giga = 1024 ^ 3
factor tera = 1024 ^ 4

abbrev pub AreSpaces : List ℕ → Type 0
AreSpaces s = All (λ c. isspace c ≡ true) s

pub skip_spaces-append :
    (front s : List ℕ) → AreSpaces front → skip_spaces (front ++ s) ≡ skip_spaces s
skip_spaces-append [] s spaces = refl
skip_spaces-append (c ∷ front) s spaces =
    rw (spaces.0, skip_spaces) (skip_spaces-append front s spaces.1)

pub skip_spaces_all : (back : List ℕ) → AreSpaces back → skip_spaces back ≡ []
skip_spaces_all [] spaces = refl
skip_spaces_all (c ∷ back) spaces = rw (spaces.0, skip_spaces) (skip_spaces_all back spaces.1)

spaces-EndsNumber : (back : List ℕ) → AreSpaces back → EndsNumber back
spaces-EndsNumber [] spaces = tt
spaces-EndsNumber (c ∷ back) spaces = ground (arith, spaces.0)

letter-EndsNumber : (m : Multiple) (back : List ℕ) → AreSpaces back → EndsNumber (letter m ++ back)
letter-EndsNumber ones back spaces = spaces-EndsNumber back spaces
letter-EndsNumber small_kilo back spaces = refl
letter-EndsNumber kilo back spaces = refl
letter-EndsNumber mega back spaces = refl
letter-EndsNumber giga back spaces = refl
letter-EndsNumber tera back spaces = refl

mul_1024_mod : (a b : ℕ) → b ≡ a * 1024 → mul_1024 (a % u64_mod) ≡ b % u64_mod
mul_1024_mod a b e = omega (arith, e)

mul_1024_first : (n : ℕ) → n < u64_mod → mul_1024 n ≡ n * 1024 % u64_mod
mul_1024_first n small = refl

scale_spaces : (v : ℕ) (back : List ℕ) → AreSpaces back → scale v back ≡ (v, back)
scale_spaces v [] spaces = refl
scale_spaces v (c ∷ back) spaces = ground (arith, spaces.0)

-- The value with its unit, wrapped.
scale-letter :
    (m : Multiple) (n : ℕ) (back : List ℕ)
    → n < u64_mod
    → AreSpaces back
    → scale n (letter m ++ back) ≡ (n * factor m % u64_mod, back)
scale-letter ones n back small spaces =
    let same : n ≡ n * 1 % u64_mod = omega arith in
    scale_spaces n back spaces ∙ ap (λ v. (v, back)) same
scale-letter small_kilo n back small spaces = refl
scale-letter kilo n back small spaces = refl
scale-letter mega n back small spaces =
    ap (λ v. (v, back)) (mul_1024_mod (n * 1024) (n * factor mega) (omega arith))
scale-letter giga n back small spaces =
    ap (λ v. (v, back))
      (ap mul_1024 (mul_1024_mod (n * 1024) (n * factor mega) (omega arith))
        ∙ mul_1024_mod (n * factor mega) (n * factor giga) (omega arith))
scale-letter tera n back small spaces =
    ap (λ v. (v, back))
      (ap (λ v. mul_1024 (mul_1024 v)) (mul_1024_mod (n * 1024) (n * factor mega) (omega arith))
        ∙ ap mul_1024 (mul_1024_mod (n * factor mega) (n * factor giga) (omega arith))
        ∙ mul_1024_mod (n * factor giga) (n * factor tera) (omega arith))

read_number_digit :
    (c : ℕ) (cs rest : List ℕ) (n : ℕ)
    → isdigit c ≡ true
    → n < u64_mod
    → digits 0 (c ∷ cs) ≡ (n, rest)
    → read_number (skip_spaces (c ∷ cs)) ≡ finish (scale n rest)
read_number_digit c cs rest n digit small read =
    let other : isspace c ≡ false = ground arith in
    let fits : ltb n u64_mod ≡ true = (ltb_iff n u64_mod).1 small in
    rw (other, skip_spaces) (rw (read, digit, fits) refl)

-- A text that starts with a digit is no white space and goes to `digits`.
read_number-digits :
    (s rest : List ℕ) (n : ℕ)
    → Starts s
    → n < u64_mod
    → digits 0 s ≡ (n, rest)
    → read_number (skip_spaces s) ≡ finish (scale n rest)
read_number-digits s rest n starts small read =
    rw starts.parts (
      read_number_digit starts.first starts.more rest n starts.digit small
        (rw starts.parts at read))

Starts-append : (s t : List ℕ) → Starts s → Starts (s ++ t)
Starts-append s t h = record {
  first = h.first;
  more = h.more ++ t;
  parts = ap (λ l. l ++ t) h.parts;
  digit = h.digit;
}

-- The decimal notation of a number below 2 ^ 64, a unit behind it or none, white space around the
-- two: `parser_read_uint64` reads the number times the unit's power of 1024, modulo 2 ^ 64.
pub parser_read_uint64-decimal :
    (front back : List ℕ) (n : ℕ) (m : Multiple)
    → n < u64_mod
    → AreSpaces front
    → AreSpaces back
    → parser_read_uint64 (front ++ (decimal n ++ (letter m ++ back)))
      ≡ value (n * factor m % u64_mod)
unfolding parser_read_uint64
parser_read_uint64-decimal front back n m small before behind =
    let text = decimal n ++ (letter m ++ back) in
    ap read_number (skip_spaces-append front text before)
    ∙ read_number-digits text (letter m ++ back) n
        (Starts-append (decimal n) (letter m ++ back) (decimal-Starts n)) small
        (digits-decimal n (letter m ++ back) (omega (arith, small))
          (letter-EndsNumber m back behind))
    ∙ ap finish (scale-letter m n back small behind)
    ∙ ap (at_end (value (n * factor m % u64_mod))) (skip_spaces_all back behind)
