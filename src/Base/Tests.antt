-- ===== src/Base/Tests.antt =====
-- Boolean tests on the native numbers, and the conditional. They model the comparisons of the Go
-- code.
use Prim.Native.Nat.{ℕ, suc, ◌+◌, ◌≤◌, ◌<◌, compare, Ordering}
use mathlib.Core.Path.{◌≡◌, refl}
use mathlib.Core.Logic.{◌↔◌, ◌⊎◌, inl, inr}
use mathlib.Core.Bool.{Bool, true, false, ◌&&◌}
use mathlib.Core.Option.{Option, none, some}
use native.Mathlib.Omega.{arith}

abbrev pub ltb : ℕ → ℕ → Bool
ltb a b = elim (compare a b) [ Ordering.lt ↦ true | _ ↦ false ]

abbrev pub leb : ℕ → ℕ → Bool
leb a b = elim (compare a b) [ Ordering.gt ↦ false | _ ↦ true ]

infix 50 ◌==◌
abbrev pub ◌==◌ : ℕ → ℕ → Bool
a == b = elim (compare a b) [ Ordering.eq ↦ true | _ ↦ false ]

infix 1 if◌then◌else◌
abbrev pub if◌then◌else◌ {ℓ} : {A : Type ℓ} → Bool → A → A → A
if true then x else y = x
if false then x else y = y

pub ==_iff : (a b : ℕ) → ((a == b) ≡ true) ↔ (a ≡ b)
==_iff a b = ground arith

pub lt→ltb : (a b : ℕ) → a < b → ltb a b ≡ true
lt→ltb a b h = ground arith

pub le→leb : (a b : ℕ) → a ≤ b → leb a b ≡ true
le→leb a b h = ground arith

pub lt→leb_false : (a b : ℕ) → a < b → leb b a ≡ false
lt→leb_false a b h = ground arith

-- To split on a computed value and keep the equation.
pub Bool-cases : (b : Bool) → (b ≡ true) ⊎ (b ≡ false)
Bool-cases true = inl refl
Bool-cases false = inr refl

pub Option-cases {ℓ} : {A : Type ℓ} (o : Option A) → (o ≡ none) ⊎ ((a : A) × (o ≡ some a))
Option-cases none = inl refl
Option-cases (some a) = inr (a, refl)

-- Position `j` lies among the `n` positions from `i` on.
abbrev pub within : ℕ → ℕ → ℕ → Bool
within i n j = leb i j && ltb j (i + n)

-- A range that grows by its first position.
pub within_grow {ℓ} :
    {A : Type ℓ} (f g : ℕ → A) (n i j : ℕ)
    → (if within (i + 1) n j then f j else if j == i then f i else g j)
      ≡ (if within i (suc n) j then f j else g j)
within_grow f g n i j = ground arith

-- What holds of both branches holds of the conditional.
pub if-intro {ℓ κ} :
    {A : Type ℓ} (P : A → Type κ) (b : Bool) {x y : A} → P x → P y → P (if b then x else y)
if-intro P true p q = p
if-intro P false p q = q

-- Only the positions of the range count.
pub within_congr {ℓ} :
    {A : Type ℓ} (i n j : ℕ) (x y z : A)
    → (i ≤ j → j < i + n → x ≡ y)
    → (if within i n j then x else z) ≡ (if within i n j then y else z)
within_congr i n j x y z h = elim (Bool-cases (within i n j)) [
  | inl p ↦ rw p (h (ground arith) (ground arith))
  | inr p ↦ rw p
]

pub within-true : (i n j : ℕ) → i ≤ j → j < i + n → within i n j ≡ true
within-true i n j lo hi = ground arith

pub within_past : (i n j : ℕ) → i + n ≤ j → within i n j ≡ false
within_past i n j h = ground arith
