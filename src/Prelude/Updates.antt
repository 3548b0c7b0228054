-- ===== src/Prelude/Updates.antt =====
-- What a search finds in an array, and what an update of the first match keeps.
use mathlib.Core.Path.{◌≡◌, refl}
use mathlib.Core.Bool.{Bool, true, false}
use mathlib.Core.List.{List, [], ◌∷◌, map}
use mathlib.Core.Option.{Option, none, some}
use mathlib.Core.Option
use mathlib.Core.Logic.{inl, inr}
use native.Mathlib.Omega.{arith}
use sandboxengine.Prelude.Tests.{Bool-cases}
use sandboxengine.Prelude.Lists.{all, any, find?, update_first}

module _ {ℓ κ} {A : Type ℓ} {B : Type κ} (p : A → Bool) (f : A → A) (g : A → B) where
  -- An update that keeps a field keeps the array of that field.
  pub map-update_first :
      ((x : A) → g (f x) ≡ g x) → (xs : List A) → map g (update_first p f xs) ≡ map g xs
  map-update_first keep [] = refl
  map-update_first keep (x ∷ xs) = ground (arith, keep x, map-update_first keep xs)

module _ {ℓ} {A : Type ℓ} (p q : A → Bool) (f : A → A) where
  -- A test that the new element passes holds of the array after the update.
  pub all-update_first :
      (xs : List A) (y : A)
      → find? p xs ≡ some y
      → q (f y) ≡ true
      → all q xs ≡ true
      → all q (update_first p f xs) ≡ true
  all-update_first [] y h k a = refl
  all-update_first (x ∷ xs) y h k a = ground (arith, all-update_first xs y)

module _ {ℓ} {A : Type ℓ} (p : A → Bool) where
  pub all-find? :
      (q : A → Bool) (xs : List A) (y : A) → find? p xs ≡ some y → all q xs ≡ true → q y ≡ true
  all-find? q [] y h a = ground arith
  all-find? q (x ∷ xs) y h a = ground (arith, all-find? q xs y)

  pub find?-holds : (xs : List A) (y : A) → find? p xs ≡ some y → p y ≡ true
  find?-holds [] y h = ground arith
  find?-holds (x ∷ xs) y h = ground (arith, find?-holds xs y)

  pub find?-of_any : (xs : List A) → any p xs ≡ true → (y : A) × (find? p xs ≡ some y)
  find?-of_any [] h = ground arith
  find?-of_any (x ∷ xs) h = elim (Bool-cases (p x)) [
    | inl e ↦ (x, rw e)
    | inr n ↦ let (y, k) = find?-of_any xs (rw n at h) in (y, rw n k)
  ]

  -- The search after an update, for a test on what the update keeps.
  pub find?-update_first :
      (f : A → A)
      → ((x : A) → p (f x) ≡ p x)
      → (xs : List A) → find? p (update_first p f xs) ≡ Option.map f (find? p xs)
  find?-update_first f keep [] = refl
  find?-update_first f keep (x ∷ xs) = ground (arith, keep x, find?-update_first f keep xs)

  -- The search by another test that no element passes together with the first.
  pub find?-update_first_ne :
      (q : A → Bool) (f : A → A)
      → ((x : A) → p x ≡ true → q x ≡ false)
      → ((x : A) → q (f x) ≡ q x)
      → (xs : List A) → find? q (update_first p f xs) ≡ find? q xs
  find?-update_first_ne q f apart keep [] = refl
  find?-update_first_ne q f apart keep (x ∷ xs) =
      ground (arith, keep x, apart x, find?-update_first_ne q f apart keep xs)
