-- ===== src/Contracts/Effect/Parts.antt =====
-- packages/contracts/src/gameplay-effect.ts: the tests of one property, against the form of the objects.
use mathlib.Core.Path.{subst}
use mathlib.Core.Option.{some-injective}
use sandboxengine.Prelude.{
  ◌≤◌, ◌≡◌, refl, ap, true, Option, none, some, List, [], ◌∷◌, length, inl, inr, ◌↔◌, Bool-cases,
  arith,
}
use sandboxengine.Prelude.Int.{ℤ}
use sandboxengine.Prelude.Text.{Text, lit, text_eq}
use sandboxengine.Prelude.Results.{require, bind-eq_some}
use sandboxengine.Contracts.World.{WorldItemPosition, location, holder}
use sandboxengine.Contracts.Value.{
  Value, null, bool, num, str, arr, obj, integer, fraction, not_finite, Fields, keys, get,
  has_only_keys, as_integer, is_text, is_bounded_text, is_id,
}
use sandboxengine.Contracts.Effect.{as_id, as_source_id, as_item_position, as_item_position_fields}
use sandboxengine.Contracts.Effect.Form.{OnlyKeys, IsId, IsPlace, only_keys, all_keys, is_text_iff}

as_id-some : (v : Option Value) (k : Text) → as_id v ≡ some k → (v ≡ some (str k)) × IsId k
unfolding is_id is_bounded_text
as_id-some (some (str s)) k h =
    let same : s ≡ k = ground arith in
    let ok : is_id s ≡ true = ground arith in
    (ap (λ z. some (str z)) same, subst IsId same (ground arith))
as_id-some none k h = cc
as_id-some (some null) k h = cc
as_id-some (some (bool b)) k h = cc
as_id-some (some (num n)) k h = cc
as_id-some (some (arr vs)) k h = cc
as_id-some (some (obj fs)) k h = cc

pub as_id_iff : (v : Option Value) (k : Text) → (as_id v ≡ some k) ↔ (v ≡ some (str k)) × IsId k
unfolding is_id is_bounded_text
as_id_iff v k = (as_id-some v k, λ h. let (low, high, form) = h.1 in rw h.0 (ground arith))

as_source_id-some :
    (v : Option Value) (k : Text)
    → as_source_id v ≡ some k
    → (v ≡ some (str k)) × (1 ≤ length k) × (length k ≤ 200)
unfolding is_bounded_text
as_source_id-some (some (str s)) k h =
    let same : s ≡ k = ground arith in
    (
      ap (λ z. some (str z)) same,
      subst (λ z. 1 ≤ length z) same (ground arith),
      subst (λ z. length z ≤ 200) same (ground arith),
    )
as_source_id-some none k h = cc
as_source_id-some (some null) k h = cc
as_source_id-some (some (bool b)) k h = cc
as_source_id-some (some (num n)) k h = cc
as_source_id-some (some (arr vs)) k h = cc
as_source_id-some (some (obj fs)) k h = cc

pub as_source_id_iff :
    (v : Option Value) (k : Text)
    → (as_source_id v ≡ some k) ↔ (v ≡ some (str k)) × (1 ≤ length k) × (length k ≤ 200)
unfolding is_bounded_text
as_source_id_iff v k = (as_source_id-some v k, λ (e, low, high). rw e (ground arith))

as_integer-some : (v : Option Value) (d : ℤ) → as_integer v ≡ some d → v ≡ some (num (integer d))
as_integer-some (some (num (integer z))) d h =
    ap (λ z. some (num (integer z))) (some-injective _ _ h)
as_integer-some none d h = cc
as_integer-some (some null) d h = cc
as_integer-some (some (bool b)) d h = cc
as_integer-some (some (num fraction)) d h = cc
as_integer-some (some (num not_finite)) d h = cc
as_integer-some (some (str s)) d h = cc
as_integer-some (some (arr vs)) d h = cc
as_integer-some (some (obj fs)) d h = cc

pub as_integer_iff :
    (v : Option Value) (d : ℤ) → (as_integer v ≡ some d) ↔ (v ≡ some (num (integer d)))
as_integer_iff v d = (as_integer-some v d, λ h. rw h refl)

pub require-only :
    (fs : Fields) (ks : List Text) → require (has_only_keys fs ks) ≡ some tt → OnlyKeys fs ks
require-only fs ks h = only_keys (keys fs) ks (ground arith)

-- The tests of a form, read as the form.
as_item_position_fields_iff :
    (fs : Fields) (p : WorldItemPosition) → (as_item_position_fields fs ≡ some p) ↔ IsPlace fs p
unfolding text_eq
as_item_position_fields_iff fs p = (there fs p, back fs p)
  where
    there :
        (fs : Fields) (p : WorldItemPosition) → as_item_position_fields fs ≡ some p → IsPlace fs p
    there fs p h = elim (Bool-cases (is_text (get (lit "kind") fs) (lit "location"))) [
      | inl e ↦
          let ks = lit "kind" ∷ lit "locationId" ∷ [] in
          let (_, only, h1) = bind-eq_some (require (has_only_keys fs ks)) _ (rw e at h) in
          let (l, read, h2) = bind-eq_some (as_id (get (lit "locationId") fs)) _ h1 in
          subst (λ z. IsPlace fs z) (some-injective _ _ h2)
            (
              (is_text_iff (get (lit "kind") fs) (lit "location")).0 e,
              require-only fs ks only,
              (as_id_iff (get (lit "locationId") fs) l).0 read,
            )
      | inr e ↦ elim (Bool-cases (is_text (get (lit "kind") fs) (lit "holder"))) [
        | inl f ↦
            let ks = lit "kind" ∷ lit "holderId" ∷ [] in
            let (_, only, h1) = bind-eq_some (require (has_only_keys fs ks)) _ (rw (e, f) at h) in
            let (l, read, h2) = bind-eq_some (as_id (get (lit "holderId") fs)) _ h1 in
            subst (λ z. IsPlace fs z) (some-injective _ _ h2)
              (
                (is_text_iff (get (lit "kind") fs) (lit "holder")).0 f,
                require-only fs ks only,
                (as_id_iff (get (lit "holderId") fs) l).0 read,
              )
        | inr f ↦ let bad = rw (e, f) at h in cc
      ]
    ]

    back :
        (fs : Fields) (p : WorldItemPosition) → IsPlace fs p → as_item_position_fields fs ≡ some p
    back fs (location l) (kind, only, named) =
        let keys_ok = all_keys (keys fs) (lit "kind" ∷ lit "locationId" ∷ []) only in
        let read = (as_id_iff (get (lit "locationId") fs) l).1 named in
        rw (kind, keys_ok, read) refl
    back fs (holder l) (kind, only, named) =
        let keys_ok = all_keys (keys fs) (lit "kind" ∷ lit "holderId" ∷ []) only in
        let read = (as_id_iff (get (lit "holderId") fs) l).1 named in rw (kind, keys_ok, read) refl

as_item_position-some :
    (v : Option Value) (p : WorldItemPosition)
    → as_item_position v ≡ some p
    → (at : Fields) × (v ≡ some (obj at)) × IsPlace at p
as_item_position-some (some (obj fs)) p h = (fs, refl, (as_item_position_fields_iff fs p).0 h)
as_item_position-some none p h = cc
as_item_position-some (some null) p h = cc
as_item_position-some (some (bool b)) p h = cc
as_item_position-some (some (num n)) p h = cc
as_item_position-some (some (str s)) p h = cc
as_item_position-some (some (arr vs)) p h = cc

pub as_item_position_iff :
    (v : Option Value) (p : WorldItemPosition)
    → (as_item_position v ≡ some p) ↔ ((at : Fields) × (v ≡ some (obj at)) × IsPlace at p)
as_item_position_iff v p =
    (as_item_position-some v p, λ (at, e, place). rw e ((as_item_position_fields_iff at p).1 place))
