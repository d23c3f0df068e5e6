-- ===== src/Parser/Address.antt =====
-- `inet_pton4` and `parse_ipv4_addr` of src/cli/parser.c.
pub mod Octets
pub mod Dotted
pub mod Parts
pub mod Exact
use tcp_dpdk.Base.{
  ℕ, zero, suc, ◌+◌, ◌-◌, ◌*◌, ◌/◌, ◌%◌, Bool, true, false, not, ◌&&◌, List, [], ◌∷◌, ◌++◌, Option,
  none, some, length, isdigit, ltb, leb, ◌==◌, if◌then◌else◌,
}

-- What `inet_pton4` keeps in its loop: `saw_digit`, `octets`, the bytes before `*tp`, and `*tp`.
pub record Quads : Type 0 where
  pub saw_digit : Bool
  pub octets : ℕ
  pub before : List ℕ
  pub current : ℕ

-- `*tp = new`, at the first digit of an octet and at a later one.
abbrev pub take_digit : Quads → ℕ → Option Quads
take_digit t new =
    if ltb 255 new
    then none
    else if t.saw_digit
    then some (record t { current = new })
    else if ltb 4 (t.octets + 1)
    then none
    else some (record t { saw_digit = true; octets = t.octets + 1; current = new })

-- One character: `none` is `return 0`.
unfoldable pub step4 : Quads → ℕ → Option Quads
step4 t ch =
    if isdigit ch
    then take_digit t (t.current * 10 + (ch - b'0'))
    else if (ch == b'.') && t.saw_digit
    then (if t.octets == 4
        then none
        else some
            (record t { saw_digit = false; before = t.before ++ t.current ∷ []; current = 0 }))
    else none

abbrev pub end4 : Quads → Option (List ℕ)
end4 t = if ltb t.octets 4 then none else some (t.before ++ t.current ∷ [])

abbrev pub then_loop4 : (Quads → Option (List ℕ)) → Option Quads → Option (List ℕ)
then_loop4 loop none = none
then_loop4 loop (some t) = loop t

unfoldable pub loop4 : List ℕ → Quads → Option (List ℕ)
loop4 [] t = end4 t
loop4 (ch ∷ src) t = then_loop4 (loop4 src) (step4 t ch)

-- The bytes written to `dst`, with the result 1; `none` is 0.
unfoldable pub inet_pton4 : List ℕ → Option (List ℕ)
inet_pton4 src = loop4 src (record { saw_digit = false; octets = 0; before = []; current = 0 })

-- `none` is -EINVAL; INET_ADDRSTRLEN is 16.
unfoldable pub parse_ipv4_addr : List ℕ → Option (List ℕ)
parse_ipv4_addr token = if leb 16 (length token) then none else inet_pton4 token
