-- ===== src/Parser/CpuCore.antt =====
-- `parse_cpu_core` of src/cli/parser.c, which reads "[sX][cY][h]" or the number of a core. The
-- digits of a number go to `num`, an array of eight bytes.
pub mod Digits
pub mod Fuel
use tcp_dpdk.Base.{
  ℕ, zero, suc, ◌+◌, ◌%◌, Bool, true, false, not, ◌&&◌, ◌||◌, List, [], ◌∷◌, ◌++◌, Option, none,
  some, length, isdigit, skip_spaces, digits, ltb, ◌==◌, u32_mod, Outcome, ok, overrun, guard,
  ◌>>=◌, ◌>>◌, if◌then◌else◌,
}

-- `struct cpu_core_params`
pub record CpuCoreParams : Type 0 where
  pub socket_id : ℕ
  pub core_id : ℕ
  pub thread_id : ℕ

-- The local variables `s`, `c`, `h`, as parameters, and which letters were seen.
pub record Progress : Type 0 where
  pub params : CpuCoreParams
  pub s_parsed : Bool
  pub c_parsed : Bool
  pub h_parsed : Bool

-- `type`
pub data Kind : Type 0 where
  socket core thread : Kind

-- The loop over the digits: those before `next`, `num_len` of them, and the text from it on. `none`
-- is -EINVAL, for a text that goes on behind eight digits.
abbrev pub num_loop : ℕ → List ℕ → List ℕ → Option (List ℕ × List ℕ)
num_loop num_len num [] = some (num, [])
num_loop num_len num (c ∷ cs) = elim (num_len == 8) [
  | true ↦ none
  | false ↦ elim (isdigit c) [
    | true ↦ num_loop (num_len + 1) (num ++ c ∷ []) cs
    | false ↦ some (num, c ∷ cs)
  ]
]

-- The letter or digit at `next`: the kind, what is marked as seen, and where the number starts.
abbrev pub classify : Progress → ℕ → List ℕ → Option (Kind × Progress × List ℕ)
classify t c cs =
    if (c == b's') || (c == b'S')
    then (if t.s_parsed || t.c_parsed || t.h_parsed
        then none
        else some (socket, record t { s_parsed = true }, cs))
    else if (c == b'c') || (c == b'C')
    then (if t.c_parsed || t.h_parsed then none else some (core, record t { c_parsed = true }, cs))
    else if (c == b'h') || (c == b'H')
    then (if t.h_parsed then none else some (thread, record t { h_parsed = true }, cs))
    else if not (isdigit c) || t.s_parsed || t.c_parsed || t.h_parsed
    then none
    else some (core, t, c ∷ cs)

abbrev pub is_thread : Kind → Bool
is_thread thread = true
is_thread _ = false

-- `h` is reset before the value is stored.
abbrev pub assign : Kind → ℕ → CpuCoreParams → CpuCoreParams
assign socket val p = record p { socket_id = val; thread_id = 0 }
assign core val p = record p { core_id = val; thread_id = 0 }
assign thread val p = record p { thread_id = 1 }

-- From the number on: the terminating NUL goes to `num[num_len]`.
unfoldable pub store_number : Kind → Progress → List ℕ → Outcome (Option Progress)
store_number kind t num =
    let num_len = length num in
    if (num_len == 0) && not (is_thread kind)
    then ok none
    else if not (num_len == 0) && is_thread kind
    then ok none
    else (do
      guard (ltb num_len 8) overrun
      ok (some (record t { params = assign kind ((digits 0 num).0 % u32_mod) t.params })))

abbrev pub with_rest : List ℕ → Option Progress → Option (Progress × List ℕ)
with_rest rest none = none
with_rest rest (some u) = some (u, rest)

-- One round at a text that is not empty.
abbrev pub at_number :
    Kind → Progress → Option (List ℕ × List ℕ) → Outcome (Option (Progress × List ℕ))
at_number kind t none = ok none
at_number kind t (some (num, rest)) = store_number kind t num >>= λ r. ok (with_rest rest r)

abbrev pub at_kind : Option (Kind × Progress × List ℕ) → Outcome (Option (Progress × List ℕ))
at_kind none = ok none
at_kind (some (kind, t, next)) = at_number kind t (num_loop 0 [] next)

unfoldable pub round : Progress → ℕ → List ℕ → Outcome (Option (Progress × List ℕ))
round t c cs = if t.s_parsed && t.c_parsed && t.h_parsed then ok none else at_kind (classify t c cs)

abbrev pub then_core :
    (Progress → List ℕ → Outcome (Option CpuCoreParams))
    → Option (Progress × List ℕ)
    → Outcome (Option CpuCoreParams)
then_core more none = ok none
then_core more (some (t, rest)) = more t rest

-- The loop, with fuel for as many rounds.
unfoldable pub core_loop : ℕ → Progress → List ℕ → Outcome (Option CpuCoreParams)
core_loop fuel t [] = ok (some t.params)
core_loop zero t (c ∷ cs) = ok none
core_loop (suc fuel) t (c ∷ cs) = round t c cs >>= then_core (core_loop fuel)

abbrev pub nothing_parsed : Progress
nothing_parsed = record {
  params = record { socket_id = 0; core_id = 0; thread_id = 0 };
  s_parsed = false;
  c_parsed = false;
  h_parsed = false;
}

-- `none` is -EINVAL; `p` is not NULL.
unfoldable pub parse_cpu_core : List ℕ → Outcome (Option CpuCoreParams)
parse_cpu_core entry = let next = skip_spaces entry in core_loop (length next) nothing_parsed next
