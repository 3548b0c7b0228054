-- ===== src/Contracts/Effect.antt =====
-- packages/contracts/src/gameplay-effect.ts: the executable effects and their guard.
pub mod Form
pub mod Parts
pub mod Guard
use sandboxengine.Prelude.{Option, none, some, [], ◌∷◌, if◌then◌else◌}
use sandboxengine.Prelude.Int.{ℤ}
use sandboxengine.Prelude.Text.{Text, lit}
use sandboxengine.Prelude.Results.{◌>>=◌, ◌>>◌, require}
use sandboxengine.Contracts.World.{WorldItemPosition, location, holder}
use sandboxengine.Contracts.Value.{
  Value, str, num, obj, integer, Fields, end, field, get, has_only_keys, as_text, as_integer,
  as_record, is_text, is_bounded_text, is_id, schema_version,
}

pub data GameplayEffect : Type 0 where
  resource_change : (source_id resource_id : Text) (delta : ℤ) → GameplayEffect
  item_transfer : (source_id item_id : Text) (destination : WorldItemPosition) → GameplayEffect
  entity_move : (source_id entity_id location_id : Text) → GameplayEffect

abbrev pub as_id : Option Value → Option Text
as_id v = do s ← as_text v; require (is_id s); some s

-- isSourceId
abbrev pub as_source_id : Option Value → Option Text
as_source_id v = do s ← as_text v; require (is_bounded_text 200 s); some s

-- isItemPosition
abbrev pub as_item_position_fields : Fields → Option WorldItemPosition
as_item_position_fields fs =
    if is_text (get (lit "kind") fs) (lit "location")
    then (do
      require (has_only_keys fs (lit "kind" ∷ lit "locationId" ∷ []))
      l ← as_id (get (lit "locationId") fs)
      some (location l))
    else if is_text (get (lit "kind") fs) (lit "holder")
    then (do
      require (has_only_keys fs (lit "kind" ∷ lit "holderId" ∷ []))
      h ← as_id (get (lit "holderId") fs)
      some (holder h))
    else none

abbrev pub as_item_position : Option Value → Option WorldItemPosition
as_item_position (some (obj fs)) = as_item_position_fields fs
as_item_position _ = none

abbrev as_resource_change : Fields → Option GameplayEffect
as_resource_change fs = do
  require (
      has_only_keys fs
        (lit "schemaVersion" ∷ lit "type" ∷ lit "sourceId" ∷ lit "resourceId" ∷ lit "delta" ∷ []))
  s ← as_source_id (get (lit "sourceId") fs)
  r ← as_id (get (lit "resourceId") fs)
  d ← as_integer (get (lit "delta") fs)
  some (resource_change s r d)

abbrev as_item_transfer : Fields → Option GameplayEffect
as_item_transfer fs = do
  require (
      has_only_keys fs
        (lit "schemaVersion" ∷ lit "type" ∷ lit "sourceId" ∷ lit "itemId" ∷ lit "destination" ∷ []))
  s ← as_source_id (get (lit "sourceId") fs)
  i ← as_id (get (lit "itemId") fs)
  p ← as_item_position (get (lit "destination") fs)
  some (item_transfer s i p)

abbrev as_entity_move : Fields → Option GameplayEffect
as_entity_move fs = do
  require (
      has_only_keys fs (
        lit "schemaVersion" ∷ lit "type" ∷ lit "sourceId" ∷ lit "entityId" ∷ lit "locationId" ∷ []))
  s ← as_source_id (get (lit "sourceId") fs)
  e ← as_id (get (lit "entityId") fs)
  l ← as_id (get (lit "locationId") fs)
  some (entity_move s e l)

-- isGameplayEffect, with the effect that the value is read as when the guard holds.
as_gameplay_effect_fields : Fields → Option GameplayEffect
as_gameplay_effect_fields fs =
    if is_text (get (lit "schemaVersion") fs) schema_version
    then (if is_text (get (lit "type") fs) (lit "resource.change")
        then as_resource_change fs
        else if is_text (get (lit "type") fs) (lit "item.transfer")
        then as_item_transfer fs
        else if is_text (get (lit "type") fs) (lit "entity.move")
        then as_entity_move fs
        else none)
    else none

unfoldable pub as_gameplay_effect : Value → Option GameplayEffect
unfolding as_gameplay_effect_fields
as_gameplay_effect v = do fs ← as_record v; as_gameplay_effect_fields fs

-- The object literals that the program builds for its effects.
abbrev pub position_value : WorldItemPosition → Value
position_value (location l) =
    obj (field (lit "kind") (str (lit "location")) (field (lit "locationId") (str l) end))
position_value (holder h) =
    obj (field (lit "kind") (str (lit "holder")) (field (lit "holderId") (str h) end))

unfoldable pub effect_value : GameplayEffect → Value
effect_value (resource_change s r d) = obj (
    field (lit "schemaVersion") (str schema_version) (
      field (lit "type") (str (lit "resource.change")) (
        field (lit "sourceId") (str s)
          (field (lit "resourceId") (str r) (field (lit "delta") (num (integer d)) end)))))
effect_value (item_transfer s i p) = obj (
    field (lit "schemaVersion") (str schema_version) (
      field (lit "type") (str (lit "item.transfer")) (
        field (lit "sourceId") (str s)
          (field (lit "itemId") (str i) (field (lit "destination") (position_value p) end)))))
effect_value (entity_move s e l) = obj (
    field (lit "schemaVersion") (str schema_version) (
      field (lit "type") (str (lit "entity.move")) (
        field (lit "sourceId") (str s)
          (field (lit "entityId") (str e) (field (lit "locationId") (str l) end)))))
