-- ===== src/Base/Outcome.antt =====
-- Go's `(T, error)` pairs: a value, or an error and no value.
use mathlib.Core.Path.{◌≡◌, refl}
use mathlib.Core.Logic.{◌⊎◌, inl, inr}
use mathlib.Core.Bool.{Bool, true, false}

pub data Result {ℓ κ} (E : Type ℓ) (A : Type κ) : Type (ℓ ⊔ κ) where
  ok : A → Result E A
  err : E → Result E A

infixl 5 ◌>>=◌
abbrev pub ◌>>=◌ {ℓ κ μ} :
    {E : Type ℓ} {A : Type κ} {B : Type μ} → Result E A → (A → Result E B) → Result E B
ok a >>= f = f a
err e >>= f = err e

abbrev pub is_ok {ℓ κ} : {E : Type ℓ} {A : Type κ} → Result E A → Bool
is_ok (ok a) = true
is_ok (err e) = false

-- A check that fails with an error, then the rest.
abbrev pub require {ℓ κ} : {E : Type ℓ} {A : Type κ} → Bool → E → Result E A → Result E A
require true e r = r
require false e r = err e

-- A chain that succeeds went through each of its steps.
pub >>=-eq-ok {ℓ κ μ} :
    {E : Type ℓ} {A : Type κ} {B : Type μ} (r : Result E A) (f : A → Result E B) {b : B}
    → (r >>= f) ≡ ok b
    → (a : A) × (r ≡ ok a) × (f a ≡ ok b)
>>=-eq-ok (ok a) f h = (a, refl, h)
>>=-eq-ok (err e) f h = cc

pub Result-cases {ℓ κ} :
    {E : Type ℓ} {A : Type κ} (r : Result E A) → ((e : E) × (r ≡ err e)) ⊎ ((a : A) × (r ≡ ok a))
Result-cases (ok a) = inr (a, refl)
Result-cases (err e) = inl (e, refl)

pub require-eq-ok {ℓ κ} :
    {E : Type ℓ} {A : Type κ} (t : Bool) (e : E) (r : Result E A) {b : A}
    → require t e r ≡ ok b
    → (t ≡ true) × (r ≡ ok b)
require-eq-ok true e r h = (refl, h)
require-eq-ok false e r h = cc

-- What holds of the value that is returned.
pub ok-subst {ℓ κ μ} :
    {E : Type ℓ} {A : Type κ} (P : A → Type μ) {a b : A}
    → P a
    → ◌≡◌ {A = Result E A} (ok a) (ok b)
    → P b
ok-subst P {a} {b} h e = let q : a ≡ b = cc in rw (← q) h
