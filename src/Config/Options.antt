-- ===== src/Config/Options.antt =====
-- What `parse_args` makes of the options in front of "--".
use tcp_dpdk.Base.{
  ℕ, ◌+◌, ◌*◌, ◌≡◌, refl, ap, ◌∙◌, inl, inr, Bool, true, List, [], ◌∷◌, ◌++◌, none, some, ok, fault,
  overrun, ltb, length, codes, Bool-cases, arith, ◌&&◌, if◌then◌else◌,
}
use tcp_dpdk.Config.{Settings, Field, assign, kind, args_loop, parse_args}

abbrev pub option_name : Field → List ℕ
option_name Field.src_ip = codes "src_ip"
option_name Field.src_mac = codes "src_mac"
option_name Field.dst_mac = codes "dst_mac"

-- The arguments that set the fields of `l`.
abbrev pub option_args : List (Field × List ℕ) → List (List ℕ)
option_args [] = []
option_args ((f, v) ∷ l) = option_name f ∷ v ∷ option_args l

-- The last value of each field, or the one before where the options have none for it.
abbrev pub last_src_ip : List (Field × List ℕ) → List ℕ → List ℕ
last_src_ip [] old = old
last_src_ip ((Field.src_ip, v) ∷ l) old = last_src_ip l v
last_src_ip ((_, v) ∷ l) old = last_src_ip l old

abbrev pub last_src_mac : List (Field × List ℕ) → List ℕ → List ℕ
last_src_mac [] old = old
last_src_mac ((Field.src_mac, v) ∷ l) old = last_src_mac l v
last_src_mac ((_, v) ∷ l) old = last_src_mac l old

abbrev pub last_dst_mac : List (Field × List ℕ) → List ℕ → List ℕ
last_dst_mac [] old = old
last_dst_mac ((Field.dst_mac, v) ∷ l) old = last_dst_mac l v
last_dst_mac ((_, v) ∷ l) old = last_dst_mac l old

abbrev pub last_given : List (Field × List ℕ) → Settings → Settings
last_given l s = record {
  src_ip = last_src_ip l s.src_ip;
  src_mac = last_src_mac l s.src_mac;
  dst_mac = last_dst_mac l s.dst_mac;
}

last_given-assign :
    (f : Field) (v : List ℕ) (l : List (Field × List ℕ)) (s : Settings)
    → last_given l (assign f v s) ≡ last_given ((f, v) ∷ l) s
last_given-assign Field.src_ip v l s = refl
last_given-assign Field.src_mac v l s = refl
last_given-assign Field.dst_mac v l s = refl

abbrev pub all_fit : List (Field × List ℕ) → Bool
all_fit [] = true
all_fit ((f, v) ∷ l) = ltb (length v) 50 && all_fit l

args_loop-option :
    (f : Field) (i : ℕ) (s : Settings) (argv : List (List ℕ))
    → args_loop i none s (option_name f ∷ argv) ≡ args_loop (i + 1) (some f) s argv
unfolding args_loop kind
args_loop-option Field.src_ip i s argv = refl
args_loop-option Field.src_mac i s argv = refl
args_loop-option Field.dst_mac i s argv = refl

args_loop-value :
    (f : Field) (i : ℕ) (s : Settings) (v : List ℕ) (argv : List (List ℕ))
    → args_loop i (some f) s (v ∷ argv)
      ≡ (if ltb (length v) 50 then args_loop (i + 1) none (assign f v s) argv else fault overrun)
unfolding args_loop
args_loop-value f i s v argv = elim (Bool-cases (ltb (length v) 50)) [
  | inl fits ↦ rw fits refl
  | inr long ↦ rw long refl
]

args_loop-option_args :
    (l : List (Field × List ℕ)) (i j : ℕ) (s : Settings) (rest : List (List ℕ))
    → j ≡ i + 2 * length l
    → args_loop i none s (option_args l ++ codes "--" ∷ rest)
      ≡ (if all_fit l then ok (last_given l s, some j) else fault overrun)
args_loop-option_args [] i j s rest e =
    let same : j ≡ i = omega (arith, e) in rw same (unfold args_loop kind in refl)
args_loop-option_args ((f, v) ∷ l) i j s rest e =
    args_loop-option f i s (v ∷ (option_args l ++ codes "--" ∷ rest))
    ∙ args_loop-value f (i + 1) s v (option_args l ++ codes "--" ∷ rest)
    ∙ elim (Bool-cases (ltb (length v) 50)) [
      | inl fits ↦ rw fits (
          args_loop-option_args l (i + 1 + 1) j (assign f v s) rest (omega (arith, e))
          ∙ ap (λ t. if all_fit l then ok (t, some j) else fault overrun)
              (last_given-assign f v l s))
      | inr long ↦ rw long refl
    ]

-- Options with their values, in any order and any number of times, and "--" behind them: if each
-- value fits its array of 50 bytes then `parse_args` leaves the last value that is given for each
-- of the three fields there, a field without one stays as it was, and the result is the place of
-- "--"; if one does not fit, an array is overrun.
pub parse_args-option_args :
    (l : List (Field × List ℕ)) (s : Settings) (name : List ℕ) (rest : List (List ℕ))
    → parse_args s (name ∷ (option_args l ++ codes "--" ∷ rest))
      ≡ (if all_fit l then ok (last_given l s, some (1 + 2 * length l)) else fault overrun)
unfolding parse_args
parse_args-option_args l s name rest = args_loop-option_args l 1 (1 + 2 * length l) s rest refl
