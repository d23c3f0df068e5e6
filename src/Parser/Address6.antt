-- ===== src/Parser/Address6.antt =====
-- `inet_pton6` and `parse_ipv6_addr` of src/cli/parser.c. The 16 bytes of `tmp` are a list, `tp`
-- and `colonp` places in it; a write behind its end is a fault.
pub mod Bounds
use tcp_dpdk.Base.{
  ℕ, zero, suc, ◌+◌, ◌-◌, ◌*◌, ◌/◌, ◌%◌, bit_or, Bool, true, false, not, ◌&&◌, List, [], ◌∷◌,
  Option, none, some, length, get_elem?, set, replicate, ltb, leb, ◌==◌, Outcome, ok, overrun,
  guard, ◌>>=◌, ◌>>◌, if◌then◌else◌,
}
use tcp_dpdk.Parser.Numbers.{xdigit}
use tcp_dpdk.Parser.Address.{inet_pton4}

pub record Words6 : Type 0 where
  pub tmp : List ℕ
  pub tp : ℕ
  pub colonp : Option ℕ
  pub curtok : List ℕ
  pub saw_xdigit : Bool
  pub count_xdigit : ℕ
  pub val : ℕ
  pub dbloct_count : ℕ

-- `*tp++ = byte`
abbrev pub push : Words6 → ℕ → Outcome Words6
push t byte = do
  guard (ltb t.tp (length t.tmp)) overrun
  ok (record t { tmp = set t.tmp t.tp byte; tp = t.tp + 1 })

-- A 16-bit group, high byte first; `none` is `return 0` for want of room.
abbrev pub push_group : Words6 → Outcome (Option Words6)
push_group t = if ltb 16 (t.tp + 2) then ok none else (do
  u ← push t (t.val / 256 % 256)
  v ← push u (t.val % 256)
  ok (some (record v { dbloct_count = t.dbloct_count + 1 })))

-- A hexadecimal digit of value `d`.
abbrev pub take_xdigit : Words6 → ℕ → Option Words6
take_xdigit t d =
    let val = bit_or (t.val * 16) d in
    if leb 4 t.count_xdigit
    then none
    else if ltb 0xffff val
    then none
    else some (record t { val = val; saw_xdigit = true; count_xdigit = t.count_xdigit + 1 })

abbrev pub begin_group : Option Words6 → Option Words6
begin_group none = none
begin_group (some t) = some (record t { saw_xdigit = false; count_xdigit = 0; val = 0 })

abbrev pub is_set : Option ℕ → Bool
is_set none = false
is_set (some p) = true

abbrev pub is_end : List ℕ → Bool
is_end [] = true
is_end (c ∷ cs) = false

-- A colon, with `src` behind it.
abbrev pub take_colon : Words6 → List ℕ → Outcome (Option Words6)
take_colon t src =
    let u = record t { curtok = src } in
    if not t.saw_xdigit
    then ok (if is_set t.colonp then none else some (record u { colonp = some u.tp }))
    else if is_end src
    then ok none
    else (do r ← push_group u; ok (begin_group r))

abbrev pub push_all : Words6 → List ℕ → Outcome Words6
push_all t [] = ok t
push_all t (b ∷ bs) = do u ← push t b; push_all u bs

-- The four bytes of an IPv4 address at the end.
abbrev pub push_quad : Words6 → Option (List ℕ) → Outcome (Option Words6)
push_quad t none = ok none
push_quad t (some bs) = do
  u ← push_all t bs
  ok (some (record u { saw_xdigit = false; dbloct_count = t.dbloct_count + 2 }))

abbrev pub take_dot : Words6 → Outcome (Option Words6)
take_dot t = if leb (t.tp + 4) 16 then push_quad t (inet_pton4 t.curtok) else ok none

abbrev pub then6 : (Words6 → Outcome (Option Words6)) → Option Words6 → Outcome (Option Words6)
then6 more none = ok none
then6 more (some t) = more t

-- The loop; `none` is `return 0`.
unfoldable pub loop6 : List ℕ → Words6 → Outcome (Option Words6)
loop6 [] t = ok (some t)
loop6 (ch ∷ src) t = elim (xdigit ch) [
  | some d ↦ then6 (loop6 src) (take_xdigit t d)
  | none ↦ elim (ch == b':') [
    | true ↦ take_colon t src >>= then6 (loop6 src)
    | false ↦ if ch == b'.' then take_dot t else ok none
  ]
]

-- `endp[-i] = colonp[n - i]; colonp[n - i] = 0`
abbrev pub move_byte : List ℕ → ℕ → ℕ → Option ℕ → Outcome (List ℕ)
move_byte tmp from to none = ok tmp
move_byte tmp from to (some b) = do
  guard (ltb to (length tmp)) overrun
  ok (set (set tmp to b) from 0)

-- The loop from `i` on, `left` times.
unfoldable pub shift_loop : ℕ → ℕ → ℕ → ℕ → List ℕ → Outcome (List ℕ)
shift_loop zero i colonp n tmp = ok tmp
shift_loop (suc left) i colonp n tmp = do
  guard (ltb (colonp + n - i) (length tmp)) overrun
  tmp' ← move_byte tmp (colonp + n - i) (16 - i) (get_elem? tmp (colonp + n - i))
  shift_loop left (i + 1) colonp n tmp'

-- The group that the text ends with.
abbrev pub last_group : Words6 → Outcome (Option Words6)
last_group t = if t.saw_xdigit then push_group t else ok (some t)

-- The zeros that "::" stands for.
abbrev pub fill_gap : Words6 → Option ℕ → Outcome (Option (List ℕ))
fill_gap t none = ok (if t.tp == 16 then some t.tmp else none)
fill_gap t (some colonp) =
    if t.dbloct_count == 8
    then ok none
    else (do tmp ← shift_loop (t.tp - colonp) 1 colonp (t.tp - colonp) t.tmp; ok (some tmp))

abbrev pub finish6 : Option Words6 → Outcome (Option (List ℕ))
finish6 none = ok none
finish6 (some t) = fill_gap t t.colonp

abbrev pub ended : Option Words6 → Outcome (Option (List ℕ))
ended none = ok none
ended (some t) = last_group t >>= finish6

abbrev pub start6 : List ℕ → Words6
start6 src = record {
  tmp = replicate 16 0;
  tp = 0;
  colonp = none;
  curtok = src;
  saw_xdigit = false;
  count_xdigit = 0;
  val = 0;
  dbloct_count = 0;
}

abbrev pub from_start : List ℕ → Outcome (Option (List ℕ))
from_start src = loop6 src (start6 src) >>= ended

-- A leading colon must have another one behind it, which the loop starts at.
unfoldable pub inet_pton6 : List ℕ → Outcome (Option (List ℕ))
inet_pton6 [] = from_start []
inet_pton6 (c ∷ []) = if c == b':' then ok none else from_start (c ∷ [])
inet_pton6 (c ∷ e ∷ src) =
    if c == b':'
    then (if e == b':' then from_start (e ∷ src) else ok none)
    else from_start (c ∷ e ∷ src)

-- `none` is -EINVAL; INET6_ADDRSTRLEN is 46.
unfoldable pub parse_ipv6_addr : List ℕ → Outcome (Option (List ℕ))
parse_ipv6_addr token = if leb 46 (length token) then ok none else inet_pton6 token
