-- ===== src/Core/Effects.antt =====
-- packages/core/src/effects.ts: a batch of effects on a trial copy of the world state. The frozen
-- copies of the source are the values of the model.
pub mod Step
pub mod Batch
pub mod Compose
pub mod View
use sandboxengine.Prelude.{
  ℕ, zero, suc, ◌+◌, Bool, true, false, not, ◌&&◌, Option, none, some, List, [], ◌∷◌, ◌++◌, any,
  find?, update_first, if◌then◌else◌,
}
use sandboxengine.Prelude.Int.{ℤ, pos, negsuc, ◌+ℤ◌, is_safe_integer}
use sandboxengine.Prelude.Text.{Text, lit, text_eq}
use sandboxengine.Prelude.Results.{Result, ok, err, ◌>>=◌}
use sandboxengine.Contracts.World.{
  WorldState, WorldLocation, WorldResource, WorldItem, WorldEntity, WorldItemPosition, location,
  holder, has_valid_world_state_references,
}
use sandboxengine.Contracts.Value.{Value, Fields, get, as_text, as_record, includes, schema_version}
use sandboxengine.Contracts.Effect.{
  GameplayEffect, resource_change, item_transfer, entity_move, as_gameplay_effect,
}
use sandboxengine.Core.Resource.{is_safe_resource, fits}

pub data EffectBatchFailureCode : Type 0 where
  invalid_state invalid_effect unsupported_effect invalid_delta : EffectBatchFailureCode
  resource_not_found resource_out_of_bounds item_not_found : EffectBatchFailureCode
  entity_not_found holder_not_found location_not_found : EffectBatchFailureCode

pub record EffectBatchSuccess : Type 0 where
  pub state : WorldState
  pub applied_effects : List GameplayEffect

pub record EffectBatchFailure : Type 0 where
  pub code : EffectBatchFailureCode
  pub effect_index : ℤ
  pub effect_type : Option Text
  pub source_id : Option Text

abbrev pub EffectBatchResult : Type 0
EffectBatchResult = Result EffectBatchFailure EffectBatchSuccess

-- The arrays that the loop of `tryApplyEffectBatch` rewrites.
pub record Trial : Type 0 where
  pub resources : List WorldResource
  pub items : List WorldItem
  pub entities : List WorldEntity

abbrev pub is_location : Text → WorldLocation → Bool
is_location k l = text_eq l.id k

abbrev pub is_resource : Text → WorldResource → Bool
is_resource k r = text_eq r.id k

abbrev pub is_item : Text → WorldItem → Bool
is_item k i = text_eq i.id k

abbrev pub is_entity : Text → WorldEntity → Bool
is_entity k e = text_eq e.id k

abbrev pub with_value : ℤ → WorldResource → WorldResource
with_value v r = record r { value = v }

abbrev pub with_position : WorldItemPosition → WorldItem → WorldItem
with_position p i = record i { position = p }

abbrev pub with_location : Text → WorldEntity → WorldEntity
with_location l e = record e { location_id = some l }

unfoldable pub change_resource :
    Trial → Text → ℤ → WorldResource → Result EffectBatchFailureCode Trial
change_resource t k d r =
    if is_safe_resource r
    then (if fits r (r.value +ℤ d)
        then ok (record t {
          resources = update_first (is_resource k) (with_value (r.value +ℤ d)) t.resources;
        })
        else err resource_out_of_bounds)
    else err invalid_state

-- The destination names a place that is there: `none`, or the code of the refusal.
unfoldable pub refuse_destination :
    List WorldLocation → List WorldEntity → WorldItemPosition → Option EffectBatchFailureCode
refuse_destination ls es (holder h) = if any (is_entity h) es then none else some holder_not_found
refuse_destination ls es (location l) =
    if any (is_location l) ls then none else some location_not_found

abbrev pub move_item :
    Trial
    → Text
    → WorldItemPosition
    → Option EffectBatchFailureCode
    → Result EffectBatchFailureCode Trial
move_item t k p (some c) = err c
move_item t k p none = ok (record t { items = update_first (is_item k) (with_position p) t.items })

-- One turn of the loop, for an effect that has passed the guard. The locations are the initial
-- state's. (A hole in an array, `!resource`, is not representable.)
unfoldable pub apply_effect :
    List WorldLocation → Trial → GameplayEffect → Result EffectBatchFailureCode Trial
apply_effect ls t (resource_change s k d) =
    if is_safe_integer d
    then elim (find? (is_resource k) t.resources) [
      | none ↦ err resource_not_found
      | some r ↦ change_resource t k d r
    ]
    else err invalid_delta
apply_effect ls t (item_transfer s k p) = elim (find? (is_item k) t.items) [
  | none ↦ err item_not_found
  | some i ↦ move_item t k p (refuse_destination ls t.entities p)
]
apply_effect ls t (entity_move s k l) = elim (find? (is_entity k) t.entities) [
  | none ↦ err entity_not_found
  | some e ↦
      if any (is_location l) ls
      then ok (record t { entities = update_first (is_entity k) (with_location l) t.entities })
      else err location_not_found
]

-- asRecord(raw)?.[key], when it is a string
abbrev pub text_at : Text → Value → Option Text
text_at k raw = do fs ← as_record raw; as_text (get k fs)

-- failure
unfoldable pub failure : EffectBatchFailureCode → ℤ → Value → EffectBatchFailure
failure c i raw = record {
  code = c;
  effect_index = i;
  effect_type = text_at (lit "type") raw;
  source_id = text_at (lit "sourceId") raw;
}

-- GAMEPLAY_EFFECT_TYPES
abbrev pub gameplay_effect_types : List Text
gameplay_effect_types = lit "entity.move" ∷ lit "item.transfer" ∷ lit "resource.change" ∷ []

-- The code of a value that fails the guard.
abbrev pub guard_code : Option Text → EffectBatchFailureCode
guard_code none = invalid_effect
guard_code (some t) =
    if includes gameplay_effect_types t then invalid_effect else unsupported_effect

abbrev pub or_blame :
    Value
    → ℕ
    → GameplayEffect
    → Result EffectBatchFailureCode Trial
    → Result EffectBatchFailure (Trial × GameplayEffect)
or_blame raw i e (err c) = err (failure c (pos i) raw)
or_blame raw i e (ok t) = ok (t, e)

-- One turn of the loop, at index `i`.
unfoldable pub apply_raw :
    List WorldLocation → Trial → ℕ → Value → Result EffectBatchFailure (Trial × GameplayEffect)
apply_raw ls t i raw = elim (as_gameplay_effect raw) [
  | none ↦ err (failure (guard_code (text_at (lit "type") raw)) (pos i) raw)
  | some e ↦ or_blame raw i e (apply_effect ls t e)
]

-- The loop from index `i` on, with the effects applied so far.
unfoldable pub apply_from :
    List WorldLocation
    → Trial
    → ℕ
    → List GameplayEffect
    → List Value
    → Result EffectBatchFailure (Trial × List GameplayEffect)
apply_from ls t i applied [] = ok (t, applied)
apply_from ls t i applied (raw ∷ rest) = elim (apply_raw ls t i raw) [
  | err f ↦ err f
  | ok (t', e) ↦ apply_from ls t' (suc i) (applied ++ e ∷ []) rest
]

abbrev pub trial_of : WorldState → Trial
trial_of s = record { resources = s.resources; items = s.items; entities = s.entities }

abbrev pub with_trial : WorldState → Trial → WorldState
with_trial s t = record s { resources = t.resources; items = t.items; entities = t.entities }

-- The check of the state that effects.ts, conditions.ts and social.ts begin with.
unfoldable pub is_valid_state : WorldState → Bool
is_valid_state s = text_eq s.schema_version schema_version && has_valid_world_state_references s

abbrev pub finish :
    WorldState → Result EffectBatchFailure (Trial × List GameplayEffect) → EffectBatchResult
finish s (err f) = err f
finish s (ok (t, applied)) = ok (record { state = with_trial s t; applied_effects = applied })

unfoldable pub try_apply_effect_batch : WorldState → List Value → EffectBatchResult
try_apply_effect_batch s effects =
    if is_valid_state s
    then finish s (apply_from s.locations (trial_of s) 0 [] effects)
    else err (record {
      code = invalid_state;
      effect_index = negsuc 0;
      effect_type = none;
      source_id = none;
    })
