-- ===== src/Prelude/Dict.antt =====
-- JavaScript maps with string keys: `map.get`, `map.set` and `map.has`.
use mathlib.Core.Path.{◌≡◌, refl, sym, ◌∙◌, subst}
use mathlib.Core.Logic.{inl, inr}
use mathlib.Core.Bool.{Bool, true, false}
use mathlib.Core.List.{List, [], ◌∷◌}
use mathlib.Core.Option.{Option, none, some}
use mathlib.Core.Option.{some-injective}
use sandboxengine.Prelude.Tests.{if◌then◌else◌, Bool-cases}
use sandboxengine.Prelude.Text.{Text, text_eq, text_eq_iff, text_eq_refl}

abbrev pub Dict {ℓ} : Type ℓ → Type ℓ
Dict A = List (Text × A)

text_eq_at : (i j k : Text) → text_eq i k ≡ true → text_eq i j ≡ text_eq k j
text_eq_at i j k h = let e = (text_eq_iff i k).0 h in rw e refl

-- Two texts that are equal to a third one are equal.
text_eq_apart : (i j k : Text) → text_eq i j ≡ true → text_eq k j ≡ true → text_eq i k ≡ true
text_eq_apart i j k e f =
    let ij = (text_eq_iff i j).0 e in
    let kj = (text_eq_iff k j).0 f in (text_eq_iff i k).1 (ij ∙ sym kj)

module _ {ℓ} {A : Type ℓ} where
  unfoldable pub lookup : Text → Dict A → Option A
  lookup k [] = none
  lookup k ((j, v) ∷ d) = if text_eq j k then some v else lookup k d

  unfoldable pub store : Text → A → Dict A → Dict A
  store k v [] = (k, v) ∷ []
  store k v ((j, w) ∷ d) = if text_eq j k then (k, v) ∷ d else (j, w) ∷ store k v d

  abbrev pub is_stored : Option A → Bool
  is_stored none = false
  is_stored (some a) = true

  pub lookup-store :
      (j k : Text) (v : A) (d : Dict A)
      → lookup j (store k v d) ≡ (if text_eq k j then some v else lookup j d)
  unfolding lookup store
  lookup-store j k v [] = refl
  lookup-store j k v ((i, w) ∷ d) = elim (Bool-cases (text_eq i k)) [
    | inl same ↦ rw same (elim (Bool-cases (text_eq k j)) [
      | inl e ↦ rw e refl
      | inr e ↦ rw (e, text_eq_at i j k same) (rw e refl)
    ])
    | inr other ↦ rw other (elim (Bool-cases (text_eq i j)) [
      | inl e ↦ rw e (elim (Bool-cases (text_eq k j)) [
        | inl f ↦ let bad = text_eq_apart i j k e f in cc
        | inr f ↦ rw f refl
      ])
      | inr e ↦ rw e (lookup-store j k v d)
    ])
  ]

  pub lookup-store_same : (k : Text) (v : A) (d : Dict A) → lookup k (store k v d) ≡ some v
  lookup-store_same k v d = rw (lookup-store k k v d) (rw (text_eq_refl k) refl)

  pub lookup-store_ne :
      (j k : Text) (v : A) (d : Dict A) → text_eq k j ≡ false → lookup j (store k v d) ≡ lookup j d
  lookup-store_ne j k v d h = rw (lookup-store j k v d) (rw h refl)

-- An entry that is stored again.
module _ {ℓ} {A : Type ℓ} where
  pub store_found : (k : Text) (v : A) (d : Dict A) → lookup k d ≡ some v → store k v d ≡ d
  unfolding lookup store
  store_found k v [] h = let bad = h in cc
  store_found k v ((j, w) ∷ d) h = elim (Bool-cases (text_eq j k)) [
    | inl e ↦
        let same : some w ≡ some v = rw e at h in
        rw (e, sym ((text_eq_iff j k).0 e), some-injective _ _ same) refl
    | inr e ↦ let later : lookup k d ≡ some v = rw e at h in rw (e, store_found k v d later) refl
  ]

-- Every entry of a map.
abbrev pub Every {ℓ κ} : {A : Type ℓ} → (Text → A → Type κ) → Dict A → Type (ℓ ⊔ κ)
Every {A = A} P d = (k : Text) (a : A) → lookup k d ≡ some a → P k a

module _ {A : Type 0} (P : Text → A → Type 0) where
  pub Every-store :
      (k : Text) (v : A) (d : Dict A)
      → P k v
      → ((j : Text) (a : A) → text_eq k j ≡ false → lookup j d ≡ some a → P j a)
      → Every P (store k v d)
  Every-store k v d p h j a e = elim (Bool-cases (text_eq k j)) [
    | inl same ↦
        let found : some v ≡ some a = rw (lookup-store j k v d, same) at e in
        subst (λ z. P z a) ((text_eq_iff k j).0 same) (subst (P k) (some-injective _ _ found) p)
    | inr other ↦ h j a other (rw (lookup-store_ne j k v d other) at e)
  ]
