-- ===== src/Parser/Address/Octets.antt =====
-- What `inet_pton4` writes.
use tcp_dpdk.Base.{
  ℕ, suc, ◌+◌, ◌*◌, ◌-◌, ◌≡◌, ◌≤◌, ◌<◌, refl, Bool, true, false, List, [], ◌∷◌, ◌++◌, Option, none,
  some, All, length, length-append, inl, inr, ltb, ◌==◌, Bool-cases, arith,
}
use tcp_dpdk.Parser.Address.{Quads, take_digit, step4, end4, then_loop4, loop4, inet_pton4}

-- Four bytes, or no result.
abbrev pub IsQuad : Option (List ℕ) → Type 0
IsQuad none = Unit
IsQuad (some bs) = (length bs ≡ 4) × All (λ b. b < 256) bs

-- How many octets were begun.
abbrev begun : Bool → List ℕ → ℕ
begun true before = suc (length before)
begun false before = length before

record IsCounted (t : Quads) : Type 0 where
  count : t.octets ≡ begun t.saw_digit t.before
  few : t.octets ≤ 4
  room : length t.before ≤ 3
  small : t.current < 256
  bytes : All (λ b. b < 256) t.before

abbrev IfCounted : Option Quads → Type 0
IfCounted none = Unit
IfCounted (some t) = IsCounted t

All-append {ℓ} :
    {A : Type ℓ} (P : A → Type 0) (xs : List A) (y : A) → All P xs → P y → All P (xs ++ y ∷ [])
All-append P [] y h k = (k, tt)
All-append P (x ∷ xs) y h k = (h.0, All-append P xs y h.1 k)

take_digit-IsCounted :
    (saw : Bool) (t : Quads) (new : ℕ)
    → t.saw_digit ≡ saw
    → IsCounted t
    → IfCounted (take_digit t new)
take_digit-IsCounted true t new e h =
    let known : t.octets ≡ suc (length t.before) = rw e at h.count in
    elim (Bool-cases (ltb 255 new)) [
      | inl large ↦ rw large tt
      | inr fits ↦
          rw (fits, e)
            (record {
              count = known;
              few = h.few;
              room = h.room;
              small = ground arith;
              bytes = h.bytes;
            })
    ]
take_digit-IsCounted false t new e h =
    let known : t.octets ≡ length t.before = rw e at h.count in
    let free : ltb 4 (t.octets + 1) ≡ false = ground (arith, h.room) in
    elim (Bool-cases (ltb 255 new)) [
      | inl large ↦ rw large tt
      | inr fits ↦
          rw (fits, e, free)
            (record {
              count = omega (arith, known);
              few = omega (arith, known, h.room);
              room = h.room;
              small = ground arith;
              bytes = h.bytes;
            })
    ]

-- A point ends an octet that was begun.
take_point-IsCounted :
    (t : Quads)
    → t.saw_digit ≡ true
    → (t.octets == 4) ≡ false
    → IsCounted t
    → IsCounted (record t { saw_digit = false; before = t.before ++ t.current ∷ []; current = 0 })
take_point-IsCounted t e other h =
    let known : t.octets ≡ suc (length t.before) = rw e at h.count in
    record {
      count = omega (arith, known, length-append t.before (t.current ∷ []));
      few = h.few;
      room = ground (arith, known, h.few, length-append t.before (t.current ∷ []));
      small = omega arith;
      bytes = All-append (λ b. b < 256) t.before t.current h.bytes h.small;
    }

step4-IsCounted : (t : Quads) (ch : ℕ) → IsCounted t → IfCounted (step4 t ch)
unfolding step4
step4-IsCounted t ch h = ground (
  arith,
  take_digit-IsCounted t.saw_digit t (t.current * 10 + (ch - b'0')) refl h,
  take_point-IsCounted t,
  h,
)

begun-le : (saw : Bool) (before : List ℕ) → begun saw before ≤ suc (length before)
begun-le true before = omega arith
begun-le false before = omega arith

end4-IsQuad : (t : Quads) → IsCounted t → IsQuad (end4 t)
end4-IsQuad t h = elim (Bool-cases (ltb t.octets 4)) [
  | inl early ↦ rw early tt
  | inr all ↦ rw all (
    ground (
      arith,
      begun-le t.saw_digit t.before,
      h.count,
      h.room,
      length-append t.before (t.current ∷ []),
    ),
    All-append (λ b. b < 256) t.before t.current h.bytes h.small,
  )
]

then_loop4-IsQuad :
    (more : Quads → Option (List ℕ))
    → ((u : Quads) → IsCounted u → IsQuad (more u))
    → (o : Option Quads) → IfCounted o
    → IsQuad (then_loop4 more o)
then_loop4-IsQuad more h none k = tt
then_loop4-IsQuad more h (some u) k = h u k

loop4-IsQuad : (src : List ℕ) (t : Quads) → IsCounted t → IsQuad (loop4 src t)
unfolding loop4
loop4-IsQuad [] t h = end4-IsQuad t h
loop4-IsQuad (ch ∷ src) t h =
    then_loop4-IsQuad (loop4 src) (λ u k. loop4-IsQuad src u k) (step4 t ch)
      (step4-IsCounted t ch h)

-- Whatever the text is: if `inet_pton4` succeeds, it has written four bytes, each below 256.
pub inet_pton4-IsQuad : (src : List ℕ) → IsQuad (inet_pton4 src)
unfolding inet_pton4
inet_pton4-IsQuad src =
    loop4-IsQuad src (record { saw_digit = false; octets = 0; before = []; current = 0 })
      (record {
        count = refl;
        few = omega arith;
        room = omega arith;
        small = omega arith;
        bytes = tt;
      })
