-- ===== src/Prelude/Sort.antt =====
-- `array.sort(compare)`: JavaScript's sort is stable, so an insertion sort by the same comparison
-- returns the same array.
use mathlib.Core.Bool.{Bool}
use mathlib.Core.List.{List, [], ◌∷◌}
use sandboxengine.Prelude.Tests.{if◌then◌else◌}

module _ {ℓ} {A : Type ℓ} (le : A → A → Bool) where
  abbrev pub insert_by : A → List A → List A
  insert_by x [] = x ∷ []
  insert_by x (y ∷ ys) = if le x y then x ∷ y ∷ ys else y ∷ insert_by x ys

module _ {ℓ} {A : Type ℓ} (le : A → A → Bool) where
  abbrev pub sort_by : List A → List A
  sort_by [] = []
  sort_by (x ∷ xs) = insert_by le x (sort_by xs)
