-- ===== src/Parser/Address6/Bounds.antt =====
-- The places of the 16 bytes that `inet_pton6` works on.
use tcp_dpdk.Base.{
  ℕ, zero, suc, ◌+◌, ◌-◌, ◌*◌, ◌≡◌, ◌≤◌, ◌<◌, refl, Bool, true, false, inl, inr, List, [], ◌∷◌,
  Option, none, some, length, length-set, get_elem?, set, ltb, leb, ltb_iff, leb_iff, ◌==◌,
  Bool-cases, Option-cases, Outcome, ok, Returns, not, bit_or, ◌/◌, ◌%◌, bind-Returns, Returns-mono,
  Returns-if, arith, if◌then◌else◌,
}
use tcp_dpdk.Parser.Numbers.{xdigit}
use tcp_dpdk.Parser.Address.{inet_pton4}
use tcp_dpdk.Parser.Address.Octets.{IsQuad, inet_pton4-IsQuad}
use tcp_dpdk.Parser.Address6.{
  Words6, push_group, take_xdigit, begin_group, is_set, is_end, take_colon, push_all, push_quad,
  take_dot, then6, loop6, move_byte, shift_loop, last_group, fill_gap, finish6, ended, start6,
  from_start, inet_pton6,
}

-- `tp` is in the buffer, and `colonp` no further.
abbrev IsBefore : Option ℕ → ℕ → Type 0
IsBefore none tp = Unit
IsBefore (some p) tp = p ≤ tp

record IsInside (t : Words6) : Type 0 where
  size : length t.tmp ≡ 16
  place : t.tp ≤ 16
  gap : IsBefore t.colonp t.tp

abbrev IfInside : Option Words6 → Type 0
IfInside none = Unit
IfInside (some t) = IsInside t

abbrev pub IsWhole : Option (List ℕ) → Type 0
IsWhole none = Unit
IsWhole (some bs) = length bs ≡ 16

IsBefore-mono : (o : Option ℕ) (n m : ℕ) → n ≤ m → IsBefore o n → IsBefore o m
IsBefore-mono none n m le h = tt
IsBefore-mono (some p) n m le h = omega (arith, h)

has_room : (t : Words6) → IsInside t → t.tp < 16 → ltb t.tp (length t.tmp) ≡ true
has_room t h room = (ltb_iff t.tp (length t.tmp)).1 (omega (arith, h.size))

push-IsInside :
    (t : Words6) (byte : ℕ)
    → IsInside t
    → t.tp < 16
    → IsInside (record t { tmp = set t.tmp t.tp byte; tp = t.tp + 1 })
push-IsInside t byte h room = record {
  size = omega (arith, h.size, length-set t.tmp t.tp byte);
  place = omega (arith, room);
  gap = IsBefore-mono t.colonp t.tp (t.tp + 1) (omega arith) h.gap;
}

push_group-IsInside : (t : Words6) → IsInside t → Returns (push_group t) IfInside
push_group-IsInside t h =
    Returns-if (ltb 16 (t.tp + 2)) _ _ IfInside (λ full. tt)
      (λ free.
        let room : t.tp + 2 ≤ 16 = ground arith in
        let u = record t { tmp = set t.tmp t.tp (t.val / 256 % 256); tp = t.tp + 1 } in
        let inside = push-IsInside t (t.val / 256 % 256) h (omega (arith, room)) in
        let last = push-IsInside u (t.val % 256) inside (omega (arith, room)) in
        rw (has_room t h (omega (arith, room)), has_room u inside (omega (arith, room)))
          (record { size = last.size; place = last.place; gap = last.gap }))

push_all-IsInside :
    (t : Words6) (bs : List ℕ)
    → IsInside t
    → t.tp + length bs ≤ 16
    → Returns (push_all t bs) IsInside
push_all-IsInside t [] h room = h
push_all-IsInside t (b ∷ bs) h room = rw (has_room t h (omega (arith, room))) (
    push_all-IsInside (record t { tmp = set t.tmp t.tp b; tp = t.tp + 1 }) bs
      (push-IsInside t b h (omega (arith, room))) (omega (arith, room)))

push_quad-IsInside :
    (t : Words6) (o : Option (List ℕ))
    → IsInside t
    → IsQuad o
    → t.tp + 4 ≤ 16
    → Returns (push_quad t o) IfInside
push_quad-IsInside t none h quad room = tt
push_quad-IsInside t (some bs) h quad room = bind-Returns (push_all t bs) _ IfInside (
    Returns-mono (push_all t bs) IsInside _
      (λ u inside. record { size = inside.size; place = inside.place; gap = inside.gap })
      (push_all-IsInside t bs h (omega (arith, quad.0, room))))

take_dot-IsInside : (t : Words6) → IsInside t → Returns (take_dot t) IfInside
take_dot-IsInside t h =
    Returns-if (leb (t.tp + 4) 16) _ _ IfInside
      (λ free.
        push_quad-IsInside t (inet_pton4 t.curtok) h (inet_pton4-IsQuad t.curtok)
          ((leb_iff (t.tp + 4) 16).0 free))
      (λ full. tt)

begin_group-IsInside : (o : Option Words6) → IfInside o → IfInside (begin_group o)
begin_group-IsInside none h = tt
begin_group-IsInside (some t) h = record { size = h.size; place = h.place; gap = h.gap }

open_gap-IsInside :
    (b : Bool) (t : Words6)
    → IsInside t
    → IfInside (if b then none else some (record t { colonp = some t.tp }))
open_gap-IsInside true t h = tt
open_gap-IsInside false t h = record { size = h.size; place = h.place; gap = omega arith }

take_colon-IsInside : (t : Words6) (src : List ℕ) → IsInside t → Returns (take_colon t src) IfInside
take_colon-IsInside t src h =
    let u = record t { curtok = src } in
    let inside : IsInside u = record { size = h.size; place = h.place; gap = h.gap } in
    Returns-if (not t.saw_xdigit) _ _ IfInside
      (λ first. open_gap-IsInside (is_set t.colonp) u inside)
      (λ later.
        Returns-if (is_end src) (ok none) _ IfInside (λ last. tt)
          (λ more. bind-Returns (push_group u) _ IfInside (
            Returns-mono (push_group u) IfInside _ begin_group-IsInside
              (push_group-IsInside u inside))))

take_xdigit-IsInside : (t : Words6) (d : ℕ) → IsInside t → IfInside (take_xdigit t d)
take_xdigit-IsInside t d h = elim (Bool-cases (leb 4 t.count_xdigit)) [
  | inl many ↦ rw many tt
  | inr few ↦ elim (Bool-cases (ltb 0xffff (bit_or (t.val * 16) d))) [
    | inl large ↦ rw (few, large) tt
    | inr fits ↦ rw (few, fits) (record { size = h.size; place = h.place; gap = h.gap })
  ]
]

then6-IsInside :
    (more : Words6 → Outcome (Option Words6))
    → ((t : Words6) → IsInside t → Returns (more t) IfInside)
    → (o : Option Words6) → IfInside o
    → Returns (then6 more o) IfInside
then6-IsInside more h none k = tt
then6-IsInside more h (some t) k = h t k

loop6-IsInside : (src : List ℕ) (t : Words6) → IsInside t → Returns (loop6 src t) IfInside
unfolding loop6
loop6-IsInside [] t h = h
loop6-IsInside (ch ∷ src) t h =
    let onward = then6-IsInside (loop6 src) (λ u k. loop6-IsInside src u k) in
    elim (Option-cases (xdigit ch)) [
      | inr (d, is_digit) ↦
          rw (is_digit, loop6) (onward (take_xdigit t d) (take_xdigit-IsInside t d h))
      | inl other ↦ elim (Bool-cases (ch == b':')) [
        | inl colon ↦
            rw (other, colon, loop6)
              (bind-Returns (take_colon t src) (then6 (loop6 src)) IfInside
                (Returns-mono (take_colon t src) IfInside _ onward (take_colon-IsInside t src h)))
        | inr no_colon ↦
            rw (other, no_colon, loop6)
              (Returns-if (ch == b'.') (take_dot t) (ok none) IfInside
                (λ dot. take_dot-IsInside t h) (λ junk. tt))
      ]
    ]

move_byte-size :
    (tmp : List ℕ) (from to : ℕ) (o : Option ℕ)
    → length tmp ≡ 16
    → to < 16
    → Returns (move_byte tmp from to o) (λ r. length r ≡ 16)
move_byte-size tmp from to none size room = size
move_byte-size tmp from to (some b) size room =
    let fits : ltb to (length tmp) ≡ true = (ltb_iff to (length tmp)).1 (omega (arith, size)) in
    rw fits (omega (arith, length-set (set tmp to b) from 0, length-set tmp to b, size))

-- The loop over `i`, from 1 to `n`.
shift_loop-size :
    (left i colonp n : ℕ) (tmp : List ℕ)
    → i + left ≡ n + 1
    → 0 < i
    → colonp + n ≤ 16
    → length tmp ≡ 16
    → Returns (shift_loop left i colonp n tmp) (λ r. length r ≡ 16)
unfolding shift_loop
shift_loop-size zero i colonp n tmp e pos room size = size
shift_loop-size (suc left) i colonp n tmp e pos room size =
    let from = colonp + n - i in
    let fits : ltb from (length tmp) ≡ true =
      (ltb_iff from (length tmp)).1 (omega (arith, size, e, pos, room)) in
    let m = move_byte tmp from (16 - i) (get_elem? tmp from) in
    rw fits (
      bind-Returns m (shift_loop left (i + 1) colonp n) (λ r. length r ≡ 16)
        (Returns-mono m (λ r. length r ≡ 16) _
          (λ r size'.
            shift_loop-size left (i + 1) colonp n r (omega (arith, e)) (omega arith) room size')
          (move_byte-size tmp from (16 - i) (get_elem? tmp from) size (omega (arith, pos)))))

fill_gap-IsWhole :
    (t : Words6) (o : Option ℕ) → IsInside t → IsBefore o t.tp → Returns (fill_gap t o) IsWhole
fill_gap-IsWhole t none h gap = elim (Bool-cases (t.tp == 16)) [
  | inl full ↦ rw full h.size
  | inr short ↦ rw short tt
]
fill_gap-IsWhole t (some colonp) h gap =
    let n = t.tp - colonp in
    Returns-if (t.dbloct_count == 8) (ok none) _ IsWhole (λ many. tt)
      (λ few. bind-Returns (shift_loop n 1 colonp n t.tmp) _ IsWhole (
        shift_loop-size n 1 colonp n t.tmp (omega arith) (omega arith) (omega (arith, gap, h.place))
          h.size))

finish6-IsWhole : (o : Option Words6) → IfInside o → Returns (finish6 o) IsWhole
finish6-IsWhole none h = tt
finish6-IsWhole (some t) h = fill_gap-IsWhole t t.colonp h h.gap

last_group-IsInside : (t : Words6) → IsInside t → Returns (last_group t) IfInside
last_group-IsInside t h =
    Returns-if t.saw_xdigit (push_group t) (ok (some t)) IfInside
      (λ open_group. push_group-IsInside t h) (λ done. h)

ended-IsWhole : (o : Option Words6) → IfInside o → Returns (ended o) IsWhole
ended-IsWhole none h = tt
ended-IsWhole (some t) h =
    bind-Returns (last_group t) finish6 IsWhole
      (Returns-mono (last_group t) IfInside _ finish6-IsWhole (last_group-IsInside t h))

from_start-IsWhole : (src : List ℕ) → Returns (from_start src) IsWhole
from_start-IsWhole src =
    let start : IsInside (start6 src) = record { size = refl; place = omega arith; gap = tt } in
    bind-Returns (loop6 src (start6 src)) ended IsWhole (
      Returns-mono (loop6 src (start6 src)) IfInside _ ended-IsWhole
        (loop6-IsInside src (start6 src) start))

-- Whatever the text is, `inet_pton6` reads and writes nothing outside its buffer of 16 bytes, and
-- if it succeeds it has 16 bytes to copy to `dst`.
pub inet_pton6-IsWhole : (src : List ℕ) → Returns (inet_pton6 src) IsWhole
unfolding inet_pton6
inet_pton6-IsWhole [] = from_start-IsWhole []
inet_pton6-IsWhole (c ∷ []) =
    Returns-if (c == b':') (ok none) _ IsWhole (λ colon. tt) (λ other. from_start-IsWhole (c ∷ []))
inet_pton6-IsWhole (c ∷ e ∷ src) =
    Returns-if (c == b':') _ _ IsWhole
      (λ colon.
        Returns-if (e == b':') (from_start (e ∷ src)) (ok none) IsWhole
          (λ again. from_start-IsWhole (e ∷ src)) (λ single. tt))
      (λ other. from_start-IsWhole (c ∷ e ∷ src))
