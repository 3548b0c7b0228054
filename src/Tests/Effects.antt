-- ===== src/Tests/Effects.antt =====
-- Batches on the small world.
use sandboxengine.Prelude.{◌≡◌, ◌↔◌, refl, true, ◌++◌, some, List, [], ◌∷◌, all, map, length}
use sandboxengine.Prelude.Int.{pos}
use sandboxengine.Prelude.Text.{lit}
use sandboxengine.Prelude.Results.{ok, err}
use sandboxengine.Contracts.World.{holder, resource_ids, item_ids, entity_ids}
use sandboxengine.Contracts.Value.{Value, Fields, str, obj, end, field, schema_version}
use sandboxengine.Contracts.Effect.{entity_move, as_gameplay_effect, effect_value}
use sandboxengine.Contracts.Effect.Form.{IsEffect}
use sandboxengine.Contracts.Effect.Guard.{as_gameplay_effect_iff}
use sandboxengine.Core.Resource.{is_safe_resource}
use sandboxengine.Core.Effects.{
  EffectBatchSuccess, EffectBatchFailure, trial_of, is_valid_state, try_apply_effect_batch,
  resource_out_of_bounds,
}
use sandboxengine.Core.Effects.Batch.{try_apply-is_valid_state, try_apply-bounded, try_apply-frame}
use sandboxengine.Core.Effects.Compose.{after, later_by, try_apply-append, try_apply-blame}
use sandboxengine.Core.Effects.View.{view_of, act_all, try_apply-refines}
use sandboxengine.Tests.Data.{
  batches, world, paint, brush, spend, hand, walk, overspend, first_effects,
}

abbrev after_first : EffectBatchSuccess
after_first = record {
  state = record world {
    resources = record paint { value = pos 7 } ∷ [];
    items = record brush { position = holder (lit "ann") } ∷ [];
  };
  applied_effects = spend ∷ hand ∷ [];
}

first_run : try_apply_effect_batch world first_effects ≡ ok after_first
unfolding batches
first_run = refl

try_apply-append_example :
    try_apply_effect_batch world (first_effects ++ effect_value walk ∷ [])
    ≡ after
        (spend ∷ hand ∷ [])
        2
        (try_apply_effect_batch after_first.state (effect_value walk ∷ []))
try_apply-append_example =
    try_apply-append world first_effects (effect_value walk ∷ []) after_first first_run

try_apply-refines_example :
    (map as_gameplay_effect first_effects ≡ map some (spend ∷ hand ∷ []))
    × (view_of (trial_of after_first.state)
        ≡ act_all (view_of (trial_of world)) (spend ∷ hand ∷ []))
try_apply-refines_example = try_apply-refines world first_effects after_first first_run

try_apply-is_valid_state_example : is_valid_state after_first.state ≡ true
try_apply-is_valid_state_example =
    try_apply-is_valid_state world first_effects after_first first_run

world_bounded : all is_safe_resource world.resources ≡ true
unfolding batches
world_bounded = refl

try_apply-bounded_example : all is_safe_resource after_first.state.resources ≡ true
try_apply-bounded_example =
    try_apply-bounded world first_effects after_first first_run world_bounded

try_apply-frame_example :
    (after_first.state.schema_version ≡ world.schema_version)
    × (after_first.state.revision ≡ world.revision)
    × (after_first.state.clock ≡ world.clock)
    × (after_first.state.locations ≡ world.locations)
    × (after_first.state.terminal ≡ world.terminal)
    × (resource_ids after_first.state.resources ≡ resource_ids world.resources)
    × (item_ids after_first.state.items ≡ item_ids world.items)
    × (entity_ids after_first.state.entities ≡ entity_ids world.entities)
try_apply-frame_example = try_apply-frame world first_effects after_first first_run

abbrev failing_effects : List Value
failing_effects = effect_value hand ∷ effect_value overspend ∷ effect_value walk ∷ []

abbrev blamed : EffectBatchFailure
blamed = record {
  code = resource_out_of_bounds;
  effect_index = pos 1;
  effect_type = some (lit "resource.change");
  source_id = some (lit "s");
}

failing_run : try_apply_effect_batch world failing_effects ≡ err blamed
unfolding batches
failing_run = refl

world_valid : is_valid_state world ≡ true
unfolding batches
world_valid = refl

try_apply-blame_example :
    (pre : List Value) × (raw : Value) × (post : List Value) × (r : EffectBatchSuccess)
    × (g : EffectBatchFailure) × (failing_effects ≡ pre ++ raw ∷ post)
    × (try_apply_effect_batch world pre ≡ ok r)
    × (try_apply_effect_batch r.state (raw ∷ []) ≡ err g)
    × (blamed ≡ later_by (length pre) g)
try_apply-blame_example = try_apply-blame world failing_effects blamed world_valid failing_run

-- The keys stand in another order than in the literal.
abbrev turned : Value
turned = obj (
    field (lit "type") (str (lit "entity.move")) (
      field (lit "locationId") (str (lit "hall")) (
        field (lit "entityId") (str (lit "ann")) (
          field (lit "sourceId") (str (lit "s"))
            (field (lit "schemaVersion") (str schema_version) end)))))

turned_run : as_gameplay_effect turned ≡ some (entity_move (lit "s") (lit "ann") (lit "hall"))
unfolding batches
turned_run = refl

as_gameplay_effect_iff_example :
    (as_gameplay_effect turned ≡ some (entity_move (lit "s") (lit "ann") (lit "hall"))) ↔ (
      (fs : Fields) × (turned ≡ obj fs)
      × IsEffect fs (entity_move (lit "s") (lit "ann") (lit "hall")))
as_gameplay_effect_iff_example =
    as_gameplay_effect_iff turned (entity_move (lit "s") (lit "ann") (lit "hall"))
