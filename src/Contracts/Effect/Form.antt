-- ===== src/Contracts/Effect/Form.antt =====
-- packages/contracts/src/gameplay-effect.ts: the objects of effects, apart from the code of the guard.
use mathlib.Core.Path.{subst}
use sandboxengine.Prelude.{
  ◌≤◌, ◌≡◌, refl, sym, ap, true, Option, none, some, List, [], ◌∷◌, length, all, any, inl, inr, ◌⊎◌,
  ◌↔◌, Bool-cases, arith,
}
use sandboxengine.Prelude.Text.{Text, lit, text_eq, text_eq_iff}
use sandboxengine.Contracts.World.{WorldItemPosition, location, holder}
use sandboxengine.Contracts.Value.{
  Value, null, bool, num, str, arr, obj, integer, Fields, keys, get, includes, is_text, matches_id,
}
use sandboxengine.Contracts.Effect.{GameplayEffect, resource_change, item_transfer, entity_move}

-- One of some texts.
abbrev pub In : Text → List Text → Type 0
In k [] = ⊥
In k (j ∷ js) = (k ≡ j) ⊎ In k js

abbrev pub OnlyKeys : Fields → List Text → Type 0
OnlyKeys fs ks = (k : Text) → In k (keys fs) → In k ks

abbrev pub IsId : Text → Type 0
IsId k = (1 ≤ length k) × (length k ≤ 200) × (matches_id k ≡ true)

-- A property that is a text, or an id.
abbrev pub HasText : Fields → Text → Text → Type 0
HasText fs k s = get k fs ≡ some (str s)

abbrev pub HasId : Fields → Text → Text → Type 0
HasId fs k s = HasText fs k s × IsId s

-- The object of a position.
abbrev pub IsPlace : Fields → WorldItemPosition → Type 0
IsPlace fs (location l) =
    HasText fs (lit "kind") (lit "location")
    × OnlyKeys fs (lit "kind" ∷ lit "locationId" ∷ [])
    × HasId fs (lit "locationId") l
IsPlace fs (holder h) =
    HasText fs (lit "kind") (lit "holder")
    × OnlyKeys fs (lit "kind" ∷ lit "holderId" ∷ [])
    × HasId fs (lit "holderId") h

-- The version, the type and the source, which is a text of 1 to 200 units.
abbrev pub IsHeader : Fields → Text → Text → Type 0
IsHeader fs type s =
    HasText fs (lit "schemaVersion") (lit "1.0")
    × HasText fs (lit "type") type
    × HasText fs (lit "sourceId") s
    × (1 ≤ length s)
    × (length s ≤ 200)

-- The keys of each type.
abbrev pub change_keys : List Text
change_keys =
    lit "schemaVersion" ∷ lit "type" ∷ lit "sourceId" ∷ lit "resourceId" ∷ lit "delta" ∷ []

abbrev pub transfer_keys : List Text
transfer_keys =
    lit "schemaVersion" ∷ lit "type" ∷ lit "sourceId" ∷ lit "itemId" ∷ lit "destination" ∷ []

abbrev pub move_keys : List Text
move_keys =
    lit "schemaVersion" ∷ lit "type" ∷ lit "sourceId" ∷ lit "entityId" ∷ lit "locationId" ∷ []

-- The object of an effect.
abbrev pub IsEffect : Fields → GameplayEffect → Type 0
IsEffect fs (resource_change s r d) =
    IsHeader fs (lit "resource.change") s
    × OnlyKeys fs change_keys
    × HasId fs (lit "resourceId") r
    × (get (lit "delta") fs ≡ some (num (integer d)))
IsEffect fs (item_transfer s i p) =
    IsHeader fs (lit "item.transfer") s
    × OnlyKeys fs transfer_keys
    × HasId fs (lit "itemId") i
    × ((at : Fields) × (get (lit "destination") fs ≡ some (obj at)) × IsPlace at p)
IsEffect fs (entity_move s e l) =
    IsHeader fs (lit "entity.move") s
    × OnlyKeys fs move_keys
    × HasId fs (lit "entityId") e
    × HasId fs (lit "locationId") l

any_iff : (k : Text) (ks : List Text) → (any (text_eq k) ks ≡ true) ↔ In k ks
any_iff k [] = (λ h. cc, λ h. absurd h)
any_iff k (j ∷ js) = (
  λ h. elim (Bool-cases (text_eq k j)) [
    | inl e ↦ inl ((text_eq_iff k j).0 e)
    | inr e ↦ inr ((any_iff k js).0 (ground arith))
  ],
  λ h. elim h [
    | inl e ↦ let same = (text_eq_iff k j).1 e in ground arith
    | inr e ↦ let later = (any_iff k js).1 e in ground arith
  ],
)

pub only_keys : (xs ks : List Text) → all (includes ks) xs ≡ true → (k : Text) → In k xs → In k ks
only_keys [] ks h k e = absurd e
only_keys (x ∷ xs) ks h k (inl e) = subst (λ z. In z ks) (sym e) ((any_iff x ks).0 (ground arith))
only_keys (x ∷ xs) ks h k (inr e) = only_keys xs ks (ground arith) k e

pub all_keys : (xs ks : List Text) → ((k : Text) → In k xs → In k ks) → all (includes ks) xs ≡ true
all_keys [] ks h = refl
all_keys (x ∷ xs) ks h =
    let first : includes ks x ≡ true = (any_iff x ks).1 (h x (inl refl)) in
    let rest : all (includes ks) xs ≡ true = all_keys xs ks (λ k e. h k (inr e)) in ground arith

is_text-some : (v : Option Value) (t : Text) → is_text v t ≡ true → v ≡ some (str t)
is_text-some (some (str s)) t h = ap (λ z. some (str z)) ((text_eq_iff s t).0 h)
is_text-some none t h = cc
is_text-some (some null) t h = cc
is_text-some (some (bool b)) t h = cc
is_text-some (some (num n)) t h = cc
is_text-some (some (arr vs)) t h = cc
is_text-some (some (obj fs)) t h = cc

pub is_text_iff : (v : Option Value) (t : Text) → (is_text v t ≡ true) ↔ (v ≡ some (str t))
is_text_iff v t = (is_text-some v t, λ h. rw h ((text_eq_iff t t).1 refl))
