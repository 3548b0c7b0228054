-- ===== src/Tests/Data.antt =====
-- A small world, its effects and events.
use sandboxengine.Prelude.{none, some, List, [], ◌∷◌}
use sandboxengine.Prelude.Int.{pos, negsuc, ◌+ℤ◌}
use sandboxengine.Prelude.Text.{lit, text_eq}
use sandboxengine.Contracts.World.{
  WorldState, WorldLocation, WorldEntity, WorldResource, WorldItem, location, holder, has, distinct,
  entity_location_known, item_position_known, has_valid_world_state_references,
}
use sandboxengine.Contracts.Value.{Value, is_id, is_bounded_text, schema_version}
use sandboxengine.Contracts.Effect.{
  GameplayEffect, resource_change, item_transfer, entity_move, as_gameplay_effect, effect_value,
}
use sandboxengine.Core.Resource.{is_safe_resource, fits}
use sandboxengine.Core.Effects.{
  change_resource, refuse_destination, apply_effect, failure, apply_raw, apply_from, is_valid_state,
  try_apply_effect_batch,
}

-- All that a run of a batch computes with.
unfoldable pub batches : Unit {0}
unfolding ◌+ℤ◌ text_eq has distinct entity_location_known item_position_known
    has_valid_world_state_references is_id is_bounded_text as_gameplay_effect effect_value
    is_safe_resource fits change_resource refuse_destination apply_effect failure apply_raw
    apply_from is_valid_state try_apply_effect_batch
batches = tt

abbrev hall : WorldLocation
hall = record { id = lit "hall" }

abbrev yard : WorldLocation
yard = record { id = lit "yard" }

abbrev pub ann : WorldEntity
ann = record {
  id = lit "ann";
  type = lit "person";
  status = lit "ok";
  location_id = some (lit "hall");
}

abbrev pub paint : WorldResource
paint = record { id = lit "paint"; unit = lit "l"; value = pos 10; min = pos 0; max = pos 20 }

abbrev pub brush : WorldItem
brush = record { id = lit "brush"; position = location (lit "yard") }

abbrev pub world : WorldState
world = record {
  schema_version = schema_version;
  revision = pos 4;
  clock = record { elapsed_seconds = pos 60 };
  locations = hall ∷ yard ∷ [];
  entities = ann ∷ [];
  resources = paint ∷ [];
  items = brush ∷ [];
  terminal = none;
}

abbrev pub spend : GameplayEffect
spend = resource_change (lit "s") (lit "paint") (negsuc 2)

abbrev pub hand : GameplayEffect
hand = item_transfer (lit "s") (lit "brush") (holder (lit "ann"))

abbrev pub walk : GameplayEffect
walk = entity_move (lit "s") (lit "ann") (lit "yard")

-- More paint than there is.
abbrev pub overspend : GameplayEffect
overspend = resource_change (lit "s") (lit "paint") (negsuc 10)

abbrev pub first_effects : List Value
first_effects = effect_value spend ∷ effect_value hand ∷ []
