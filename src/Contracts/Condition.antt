-- ===== src/Contracts/Condition.antt =====
-- packages/contracts/src/condition.ts: declarative conditions and their guard.
use sandboxengine.Prelude.{
  ℕ, zero, suc, ◌&&◌, Option, none, some, List, [], ◌∷◌, leb, length, if◌then◌else◌,
}
use sandboxengine.Prelude.Int.{ℤ, is_safe_integer}
use sandboxengine.Prelude.Text.{Text, lit}
use sandboxengine.Prelude.Results.{◌>>=◌, ◌>>◌, require}
use sandboxengine.Contracts.Value.{
  Value, arr, Fields, items, get, has_only_keys, as_integer, as_record, is_text, schema_version,
}
use sandboxengine.Contracts.Effect.{as_id}

mutual
  pub data Condition : Type 0 where
    resource_at_least : (resource_id : Text) (value : ℤ) → Condition
    entity_at : (entity_id location_id : Text) → Condition
    item_held_by : (item_id holder_id : Text) → Condition
    all_of : Conditions → Condition
    any_of : Conditions → Condition
    not_of : Condition → Condition

  pub data Conditions : Type 0 where
    nil : Conditions
    cons : Condition → Conditions → Conditions

-- Array.isArray
abbrev pub as_array : Option Value → Option (List Value)
as_array (some (arr vs)) = some (items vs)
as_array _ = none

abbrev as_safe_integer : Option Value → Option ℤ
as_safe_integer v = do z ← as_integer v; require (is_safe_integer z); some z

-- `every` of a guard, with the conditions read.
abbrev pub as_conditions : (Value → Option Condition) → List Value → Option Conditions
as_conditions read [] = some nil
as_conditions read (v ∷ vs) = do c ← read v; cs ← as_conditions read vs; some (cons c cs)

abbrev as_resource_at_least : Fields → Option Condition
as_resource_at_least fs = do
  require
      (has_only_keys fs (lit "schemaVersion" ∷ lit "type" ∷ lit "resourceId" ∷ lit "value" ∷ []))
  r ← as_id (get (lit "resourceId") fs)
  v ← as_safe_integer (get (lit "value") fs)
  some (resource_at_least r v)

abbrev as_entity_at : Fields → Option Condition
as_entity_at fs = do
  require
      (has_only_keys fs (lit "schemaVersion" ∷ lit "type" ∷ lit "entityId" ∷ lit "locationId" ∷ []))
  e ← as_id (get (lit "entityId") fs)
  l ← as_id (get (lit "locationId") fs)
  some (entity_at e l)

abbrev as_item_held_by : Fields → Option Condition
as_item_held_by fs = do
  require (has_only_keys fs (lit "schemaVersion" ∷ lit "type" ∷ lit "itemId" ∷ lit "holderId" ∷ []))
  i ← as_id (get (lit "itemId") fs)
  h ← as_id (get (lit "holderId") fs)
  some (item_held_by i h)

-- The array of `all` and `any`: 1 to 64 conditions.
abbrev as_condition_list : (Value → Option Condition) → Fields → Option Conditions
as_condition_list read fs = do
  require (has_only_keys fs (lit "schemaVersion" ∷ lit "type" ∷ lit "conditions" ∷ []))
  vs ← as_array (get (lit "conditions") fs)
  require (leb 1 (length vs) && leb (length vs) 64)
  as_conditions read vs

abbrev pub read_value : (Value → Option Condition) → Option Value → Option Condition
read_value read none = none
read_value read (some v) = read v

abbrev as_negation : (Value → Option Condition) → Fields → Option Condition
as_negation read fs = do
  require (has_only_keys fs (lit "schemaVersion" ∷ lit "type" ∷ lit "condition" ∷ []))
  c ← read_value read (get (lit "condition") fs)
  some (not_of c)

-- The switch on `value.type`, with the guard of the children.
as_condition_fields : (Value → Option Condition) → Fields → Option Condition
as_condition_fields read fs =
    if is_text (get (lit "type") fs) (lit "resource.atLeast")
    then as_resource_at_least fs
    else if is_text (get (lit "type") fs) (lit "entity.at")
    then as_entity_at fs
    else if is_text (get (lit "type") fs) (lit "item.heldBy")
    then as_item_held_by fs
    else if is_text (get (lit "type") fs) (lit "all")
    then (do cs ← as_condition_list read fs; some (all_of cs))
    else if is_text (get (lit "type") fs) (lit "any")
    then (do cs ← as_condition_list read fs; some (any_of cs))
    else if is_text (get (lit "type") fs) (lit "not")
    then as_negation read fs
    else none

-- isConditionAtDepth. The depth is counted down: `levels` is 33 - depth, so that it is 0 just when
-- the source's depth is above 32.
unfoldable pub as_condition_at : ℕ → Value → Option Condition
unfolding as_condition_fields
as_condition_at zero v = none
as_condition_at (suc levels) v = do
  fs ← as_record v
  require (is_text (get (lit "schemaVersion") fs) schema_version)
  as_condition_fields (as_condition_at levels) fs

-- isCondition, with the condition that the value is read as when the guard holds.
unfoldable pub as_condition : Value → Option Condition
unfolding as_condition_at
as_condition = as_condition_at 33
