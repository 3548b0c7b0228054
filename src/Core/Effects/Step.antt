-- ===== src/Core/Effects/Step.antt =====
-- One effect on the trial arrays: what it keeps.
use sandboxengine.Prelude.{
  ◌≡◌, refl, ◌∙◌, true, none, some, List, [], ◌∷◌, all, any, find?, arith, map-update_first,
  all-update_first, Option-cases, Bool-cases, if◌then◌else◌, inl, inr, update_first,
}
use sandboxengine.Prelude.Int.{ℤ, ◌+ℤ◌, is_safe_integer}
use sandboxengine.Prelude.Text.{Text}
use sandboxengine.Prelude.Results.{ok, err}
use sandboxengine.Contracts.World.{
  WorldLocation, WorldResource, WorldItem, WorldEntity, WorldItemPosition, location, holder,
  location_ids, entity_ids, resource_ids, item_ids, has, position_known, entity_location_known,
  item_position_known,
}
use sandboxengine.Contracts.Effect.{GameplayEffect, resource_change, item_transfer, entity_move}
use sandboxengine.Core.Resource.{is_safe_resource, fits}
use sandboxengine.Core.Effects.{
  Trial, change_resource, refuse_destination, move_item, apply_effect, location_not_found,
  is_resource, is_item, is_entity, is_location, with_value, with_position, with_location,
}

-- The ids of a trial are those of the start, and every reference of it is known.
pub record IsTrial (ls : List WorldLocation) (start t : Trial) : Type 0 where
  pub resource_ids_kept : resource_ids t.resources ≡ resource_ids start.resources
  pub item_ids_kept : item_ids t.items ≡ item_ids start.items
  pub entity_ids_kept : entity_ids t.entities ≡ entity_ids start.entities
  pub locations_known : all (entity_location_known (location_ids ls)) t.entities ≡ true
  pub positions_known :
      all (item_position_known (location_ids ls) (entity_ids t.entities)) t.items ≡ true

-- A search by id succeeds exactly if the set of ids has it.
pub has-location_ids :
    (k : Text) (ls : List WorldLocation) → has (location_ids ls) k ≡ any (is_location k) ls
unfolding has
has-location_ids k [] = refl
has-location_ids k (l ∷ ls) = ground (arith, has-location_ids k ls)

pub has-entity_ids :
    (k : Text) (es : List WorldEntity) → has (entity_ids es) k ≡ any (is_entity k) es
unfolding has
has-entity_ids k [] = refl
has-entity_ids k (e ∷ es) = ground (arith, has-entity_ids k es)

refuse_destination-none :
    (ls : List WorldLocation) (es : List WorldEntity) (p : WorldItemPosition)
    → refuse_destination ls es p ≡ none
    → position_known (location_ids ls) (entity_ids es) p ≡ true
unfolding refuse_destination
refuse_destination-none ls es (location l) h = ground (arith, has-location_ids l ls)
refuse_destination-none ls es (holder l) h = ground (arith, has-entity_ids l es)

-- What an accepted effect has found and checked, and the trial that it leaves.
abbrev pub Applied : List WorldLocation → Trial → GameplayEffect → Trial → Type 0
Applied ls t (resource_change s k d) t' =
    (r : WorldResource) × (find? (is_resource k) t.resources ≡ some r)
    × (is_safe_integer d ≡ true)
    × (is_safe_resource r ≡ true)
    × (fits r (r.value +ℤ d) ≡ true)
    × (t' ≡ record t {
      resources = update_first (is_resource k) (with_value (r.value +ℤ d)) t.resources;
    })
Applied ls t (item_transfer s k p) t' =
    (i : WorldItem) × (find? (is_item k) t.items ≡ some i)
    × (position_known (location_ids ls) (entity_ids t.entities) p ≡ true)
    × (t' ≡ record t { items = update_first (is_item k) (with_position p) t.items })
Applied ls t (entity_move s k l) t' =
    (e : WorldEntity) × (find? (is_entity k) t.entities ≡ some e)
    × (has (location_ids ls) l ≡ true)
    × (t' ≡ record t { entities = update_first (is_entity k) (with_location l) t.entities })

change_resource-Applied :
    (t : Trial) (k : Text) (d : ℤ) (r : WorldResource) (t' : Trial)
    → change_resource t k d r ≡ ok t'
    → (is_safe_resource r ≡ true)
      × (fits r (r.value +ℤ d) ≡ true)
      × (t' ≡ record t {
        resources = update_first (is_resource k) (with_value (r.value +ℤ d)) t.resources;
      })
unfolding change_resource
change_resource-Applied t k d r t' h = ground arith

pub apply_effect-Applied :
    (ls : List WorldLocation) (t : Trial) (e : GameplayEffect) (t' : Trial)
    → apply_effect ls t e ≡ ok t'
    → Applied ls t e t'
unfolding apply_effect
apply_effect-Applied ls t (resource_change s k d) t' h =
    elim (Option-cases (find? (is_resource k) t.resources)) [
      | inl e ↦ ground arith
      | inr (r, e) ↦ elim (Bool-cases (is_safe_integer d)) [
        | inl safe ↦
            let (a, b, c) = change_resource-Applied t k d r t' (rw (e, safe) at h) in
            (r, e, safe, a, b, c)
        | inr n ↦ ground arith
      ]
    ]
apply_effect-Applied ls t (item_transfer s k p) t' h =
    elim (Option-cases (find? (is_item k) t.items)) [
      | inl e ↦ ground arith
      | inr (i, e) ↦
          let moved : move_item t k p (refuse_destination ls t.entities p) ≡ ok t' =
            rw (e, apply_effect) at h in
          (i, e, ground (arith, refuse_destination-none ls t.entities p), ground arith)
    ]
apply_effect-Applied ls t (entity_move s k l) t' h =
    elim (Option-cases (find? (is_entity k) t.entities)) [
      | inl e ↦ ground arith
      | inr (i, e) ↦
          let moved : (if any (is_location l) ls
                then ok (record t {
                  entities = update_first (is_entity k) (with_location l) t.entities;
                })
                else err location_not_found)
              ≡ ok t' =
            rw (e, apply_effect) at h in
          (i, e, ground (arith, has-location_ids l ls), ground arith)
    ]

module _ (ls : List WorldLocation) (start t : Trial) (h : IsTrial ls start t) where
  Applied-IsTrial : (e : GameplayEffect) (t' : Trial) → Applied ls t e t' → IsTrial ls start t'
  unfolding item_position_known entity_location_known
  Applied-IsTrial (resource_change s k d) t' (r, found, _, _, _, e) = rw e (record {
    resource_ids_kept =
        map-update_first (is_resource k) (with_value (r.value +ℤ d)) (λ r. r.id) (λ x. refl)
          t.resources
        ∙ h.resource_ids_kept;
    item_ids_kept = h.item_ids_kept;
    entity_ids_kept = h.entity_ids_kept;
    locations_known = h.locations_known;
    positions_known = h.positions_known;
  })
  Applied-IsTrial (item_transfer s k p) t' (i, found, known, e) = rw e (record {
    resource_ids_kept = h.resource_ids_kept;
    item_ids_kept =
        map-update_first (is_item k) (with_position p) (λ i. i.id) (λ x. refl) t.items
        ∙ h.item_ids_kept;
    entity_ids_kept = h.entity_ids_kept;
    locations_known = h.locations_known;
    positions_known =
        all-update_first (is_item k) (item_position_known (location_ids ls) (entity_ids t.entities))
          (with_position p) t.items i found known h.positions_known;
  })
  Applied-IsTrial (entity_move s k l) t' (i, found, known, e) =
      let ids : entity_ids (update_first (is_entity k) (with_location l) t.entities)
          ≡ entity_ids t.entities =
        map-update_first (is_entity k) (with_location l) (λ i. i.id) (λ x. refl) t.entities in
      rw e (record {
        resource_ids_kept = h.resource_ids_kept;
        item_ids_kept = h.item_ids_kept;
        entity_ids_kept = ids ∙ h.entity_ids_kept;
        locations_known =
            all-update_first (is_entity k) (entity_location_known (location_ids ls))
              (with_location l) t.entities i found known h.locations_known;
        positions_known = rw ids h.positions_known;
      })

  -- An accepted effect keeps the ids and the references.
  pub apply_effect-IsTrial :
      (e : GameplayEffect) (t' : Trial) → apply_effect ls t e ≡ ok t' → IsTrial ls start t'
  apply_effect-IsTrial e t' a = Applied-IsTrial e t' (apply_effect-Applied ls t e t' a)

-- Every resource of the trial passes the check of its bounds.
abbrev pub IsBounded : Trial → Type 0
IsBounded t = all is_safe_resource t.resources ≡ true

is_safe_resource-with_value :
    (r : WorldResource) (v : ℤ)
    → is_safe_resource r ≡ true
    → fits r v ≡ true
    → is_safe_resource (with_value v r) ≡ true
unfolding is_safe_resource fits
is_safe_resource-with_value r v h k = ground arith

-- An accepted effect keeps every resource within its bounds.
pub apply_effect-IsBounded :
    (ls : List WorldLocation) (t : Trial) (e : GameplayEffect) (t' : Trial)
    → apply_effect ls t e ≡ ok t'
    → IsBounded t
    → IsBounded t'
apply_effect-IsBounded ls t (resource_change s k d) t' a b =
    let (r, found, _, safe, fit, e) = apply_effect-Applied ls t (resource_change s k d) t' a in
    rw e (
      all-update_first (is_resource k) is_safe_resource (with_value (r.value +ℤ d)) t.resources r
        found (is_safe_resource-with_value r (r.value +ℤ d) safe fit) b)
apply_effect-IsBounded ls t (item_transfer s k p) t' a b =
    let (i, found, known, e) = apply_effect-Applied ls t (item_transfer s k p) t' a in rw e b
apply_effect-IsBounded ls t (entity_move s k l) t' a b =
    let (i, found, known, e) = apply_effect-Applied ls t (entity_move s k l) t' a in rw e b
