-- ===== src/Base/Faults.antt =====
-- The outcome of a C function that can go wrong: a result, or the fault that ends the process
-- or leaves the language's defined behaviour.
use mathlib.Core.Bool.{Bool, true, false}
use mathlib.Core.Path.{◌≡◌, refl}
use tcp_dpdk.Base.Tests.{if◌then◌else◌}

pub data Fault : Type 0 where
  -- a read or a write through NULL; through a pointer to freed memory; past the end of an object
  null_pointer dangling overrun : Fault
  -- `rte_panic`, `rte_exit`, `exit`
  panic exited : Fault

pub data Outcome {ℓ} (A : Type ℓ) : Type ℓ where
  ok : A → Outcome A
  fault : Fault → Outcome A

infixl 5 ◌>>=◌ ◌>>◌
abbrev pub ◌>>=◌ {ℓ κ} : {A : Type ℓ} {B : Type κ} → Outcome A → (A → Outcome B) → Outcome B
ok a >>= f = f a
fault e >>= f = fault e

abbrev pub ◌>>◌ {ℓ} : {B : Type ℓ} → Outcome (Unit {0}) → Outcome B → Outcome B
m >> k = m >>= λ _. k

abbrev pub guard : Bool → Fault → Outcome (Unit {0})
guard true e = ok tt
guard false e = fault e

-- The outcome is a result that satisfies `P`, or a fault that satisfies `F`.
abbrev pub Within {ℓ} : {A : Type ℓ} → (Fault → Type 0) → Outcome A → (A → Type 0) → Type 0
Within F (ok a) P = P a
Within F (fault e) P = F e

-- The outcome is a result, and it satisfies `P`.
abbrev pub Returns {ℓ} : {A : Type ℓ} → Outcome A → (A → Type 0) → Type 0
Returns m P = Within (λ e. ⊥) m P

-- A NULL pointer.
abbrev pub IsNull : Fault → Type 0
IsNull null_pointer = Unit
IsNull _ = ⊥

-- The outcome is a result that satisfies `P`, or the fault of a NULL pointer, and no other.
abbrev pub OrNull {ℓ} : {A : Type ℓ} → Outcome A → (A → Type 0) → Type 0
OrNull m P = Within IsNull m P

-- All but a stale pointer and a panic.
abbrev pub IsFresh : Fault → Type 0
IsFresh dangling = ⊥
IsFresh panic = ⊥
IsFresh _ = Unit

-- The outcome is a result that satisfies `P`, or one of the faults but a stale pointer and a panic.
abbrev pub NoStale {ℓ} : {A : Type ℓ} → Outcome A → (A → Type 0) → Type 0
NoStale m P = Within IsFresh m P

pub bind-Within {ℓ κ} :
    {A : Type ℓ} {B : Type κ} (F : Fault → Type 0) (m : Outcome A) (f : A → Outcome B)
    (P : A → Type 0) (Q : B → Type 0)
    → Within F m P
    → ((a : A) → P a → Within F (f a) Q)
    → Within F (m >>= f) Q
bind-Within F (ok a) f P Q h k = k a h
bind-Within F (fault e) f P Q h k = h

-- The same, with the outcome last.
pub bind-Within_last {ℓ κ} :
    {A : Type ℓ} {B : Type κ} (F : Fault → Type 0) (m : Outcome A) (f : A → Outcome B)
    (P : A → Type 0) (Q : B → Type 0)
    → ((a : A) → P a → Within F (f a) Q)
    → Within F m P
    → Within F (m >>= f) Q
bind-Within_last F m f P Q k h = bind-Within F m f P Q h k

pub Within-mono {ℓ} :
    {A : Type ℓ} (F G : Fault → Type 0) (m : Outcome A) (P Q : A → Type 0)
    → ((e : Fault) → F e → G e)
    → ((a : A) → P a → Q a)
    → Within F m P
    → Within G m Q
Within-mono F G (ok a) P Q g f h = f a h
Within-mono F G (fault e) P Q g f h = g e h

pub Within-if {ℓ} :
    {A : Type ℓ} (F : Fault → Type 0) (b : Bool) (m n : Outcome A) (P : A → Type 0)
    → (b ≡ true → Within F m P)
    → (b ≡ false → Within F n P)
    → Within F (if b then m else n) P
Within-if F true m n P h k = h refl
Within-if F false m n P h k = k refl

pub bind-Returns {ℓ κ} :
    {A : Type ℓ} {B : Type κ} (m : Outcome A) (f : A → Outcome B) (P : B → Type 0)
    → Returns m (λ a. Returns (f a) P)
    → Returns (m >>= f) P
bind-Returns m f P h = bind-Within (λ e. ⊥) m f (λ a. Returns (f a) P) P h (λ a k. k)

pub Returns-mono {ℓ} :
    {A : Type ℓ} (m : Outcome A) (P Q : A → Type 0)
    → ((a : A) → P a → Q a)
    → Returns m P
    → Returns m Q
Returns-mono m P Q f h = Within-mono (λ e. ⊥) (λ e. ⊥) m P Q (λ e k. k) f h

pub Returns-if {ℓ} :
    {A : Type ℓ} (b : Bool) (m n : Outcome A) (P : A → Type 0)
    → (b ≡ true → Returns m P)
    → (b ≡ false → Returns n P)
    → Returns (if b then m else n) P
Returns-if b m n P h k = Within-if (λ e. ⊥) b m n P h k

pub Returns-OrNull {ℓ} : {A : Type ℓ} (m : Outcome A) (P : A → Type 0) → Returns m P → OrNull m P
Returns-OrNull m P h = Within-mono (λ e. ⊥) IsNull m P P (λ e k. absurd k) (λ a k. k) h

pub OrNull-NoStale {ℓ} : {A : Type ℓ} (m : Outcome A) (P : A → Type 0) → OrNull m P → NoStale m P
OrNull-NoStale m P h = Within-mono IsNull IsFresh m P P IsNull-IsFresh (λ a k. k) h
  where
    IsNull-IsFresh : (e : Fault) → IsNull e → IsFresh e
    IsNull-IsFresh null_pointer k = tt
    IsNull-IsFresh dangling k = k
    IsNull-IsFresh overrun k = tt
    IsNull-IsFresh panic k = k
    IsNull-IsFresh exited k = tt
