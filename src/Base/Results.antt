-- ===== src/Base/Results.antt =====
-- Go's `(value, error)` results. `panic` is a run-time panic: an index out of range.
use mathlib.Core.Path.{◌≡◌, refl}
use mathlib.Core.Bool.{Bool, true, false}
use mathlib.Core.Option.{Option, none, some}

pub data Outcome {ℓ κ} (E : Type κ) (A : Type ℓ) : Type (ℓ ⊔ κ) where
  ok : A → Outcome E A
  err : E → Outcome E A
  panic : Outcome E A

infixl 5 ◌>>=◌ ◌>>◌
abbrev pub ◌>>=◌ {ℓ κ μ} :
    {E : Type κ} {A : Type ℓ} {B : Type μ} → Outcome E A → (A → Outcome E B) → Outcome E B
ok a >>= f = f a
err e >>= f = err e
panic >>= f = panic

abbrev pub ◌>>◌ {ℓ κ} : {E : Type κ} {B : Type ℓ} → Outcome E (Unit {0}) → Outcome E B → Outcome E B
m >> k = m >>= λ _. k

-- `if test { return e }`
abbrev pub fail_if {κ} : {E : Type κ} → Bool → E → Outcome E (Unit {0})
fail_if true e = err e
fail_if false e = ok tt

-- `if p == nil { return e }`
abbrev pub non_nil {ℓ κ} : {E : Type κ} {A : Type ℓ} → Option A → E → Outcome E A
non_nil none e = err e
non_nil (some a) e = ok a

-- `fmt.Errorf("...: %w", err)`
abbrev pub map_err {ℓ κ μ} :
    {E : Type κ} {F : Type μ} {A : Type ℓ} → (E → F) → Outcome E A → Outcome F A
map_err f (ok a) = ok a
map_err f (err e) = err (f e)
map_err f panic = panic

pub map_err-eq_ok {ℓ κ μ} :
    {E : Type κ} {F : Type μ} {A : Type ℓ} (f : E → F) (o : Outcome E A) {a : A}
    → map_err f o ≡ ok a
    → o ≡ ok a
map_err-eq_ok f (ok x) h = cc h
map_err-eq_ok f (err e) h = cc
map_err-eq_ok f panic h = cc

-- Inversion of a successful bind, guard by guard.
pub fail_if-eq_ok {ℓ κ} :
    {E : Type κ} {B : Type ℓ} (b : Bool) (e : E) (k : Outcome E B) {x : B}
    → (fail_if b e >> k) ≡ ok x
    → (b ≡ false) × (k ≡ ok x)
fail_if-eq_ok true e k h = cc
fail_if-eq_ok false e k h = (refl, h)

pub non_nil-eq_ok {ℓ κ μ} :
    {E : Type κ} {A : Type ℓ} {B : Type μ} (o : Option A) (e : E) (f : A → Outcome E B) {x : B}
    → (non_nil o e >>= f) ≡ ok x
    → (a : A) × (o ≡ some a) × (f a ≡ ok x)
non_nil-eq_ok none e f h = cc
non_nil-eq_ok (some a) e f h = (a, refl, h)

pub >>=-eq-ok {ℓ κ μ} :
    {E : Type κ} {A : Type ℓ} {B : Type μ} (m : Outcome E A) (f : A → Outcome E B) {x : B}
    → (m >>= f) ≡ ok x
    → (a : A) × (m ≡ ok a) × (f a ≡ ok x)
>>=-eq-ok (ok a) f h = (a, refl, h)
>>=-eq-ok (err e) f h = cc
>>=-eq-ok panic f h = cc

pub ok-injective {ℓ κ} :
    {E : Type κ} {A : Type ℓ} {a b : A} → ◌≡◌ {A = Outcome E A} (ok a) (ok b) → a ≡ b
ok-injective h = cc
