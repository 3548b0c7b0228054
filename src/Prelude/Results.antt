-- ===== src/Prelude/Results.antt =====
-- Chains of steps that may fail: `Option` for the guards, `Result` for the operations that name
-- their failure.
use mathlib.Core.Path.{◌≡◌, refl, ap}
use mathlib.Core.Logic.{◌⊎◌, inl, inr}
use mathlib.Core.Bool.{Bool, true, false}
use mathlib.Core.Option.{Option, none, some}
use native.Mathlib.Omega.{arith}

infixl 5 ◌>>=◌ ◌>>◌
abbrev pub ◌>>=◌ {ℓ κ} : {A : Type ℓ} {B : Type κ} → Option A → (A → Option B) → Option B
none >>= f = none
some a >>= f = f a

abbrev pub ◌>>◌ {ℓ} : {B : Type ℓ} → Option (Unit {0}) → Option B → Option B
m >> k = m >>= λ _. k

-- A guard of the source: the rest is read only if the test passes.
abbrev pub require : Bool → Option (Unit {0})
require true = some tt
require false = none

pub data Result (E A : Type 0) : Type 0 where
  ok : A → Result E A
  err : E → Result E A

pub bind-eq_some :
    {A B : Type 0} (m : Option A) (f : A → Option B) {b : B}
    → (m >>= f) ≡ some b
    → (a : A) × (m ≡ some a) × (f a ≡ some b)
bind-eq_some none f h = ground arith
bind-eq_some (some a) f h = (a, refl, h)

-- To split on a computed result and keep the equation.
pub Result-cases :
    {E A : Type 0} (r : Result E A) → ((a : A) × (r ≡ ok a)) ⊎ ((e : E) × (r ≡ err e))
Result-cases (ok a) = inl (a, refl)
Result-cases (err e) = inr (e, refl)

abbrev ok_value : {E A : Type 0} → A → Result E A → A
ok_value d (ok a) = a
ok_value d (err e) = d

pub ok-injective : {E A : Type 0} {a b : A} → ◌≡◌ {A = Result E A} (ok a) (ok b) → a ≡ b
ok-injective {a} h = ap (ok_value a) h

abbrev err_value : {E A : Type 0} → E → Result E A → E
err_value d (ok a) = d
err_value d (err e) = e

pub err-injective : {E A : Type 0} {a b : E} → ◌≡◌ {A = Result E A} (err a) (err b) → a ≡ b
err-injective {a} h = ap (err_value a) h

pub ok≢err : {E A : Type 0} {a : A} {e : E} → ¬ (◌≡◌ {A = Result E A} (ok a) (err e))
ok≢err h = cc
