-- ===== src/Core/Actions.antt =====
-- packages/core/src/actions.ts: the paint action. All numbers of the calculation are safe integers,
-- so the floored quotient of two of them is the integer quotient, and a product is a safe integer
-- in floating point just if the exact one is.
pub mod Paint
mod Units
use sandboxengine.Prelude.{
  ℕ, ◌+◌, ◌*◌, ◌/◌, min, Bool, true, false, not, ◌&&◌, ◌||◌, Option, none, some, List, [], ◌∷◌, leb,
  ltb, ◌==◌, all, find?, length, if◌then◌else◌,
}
use sandboxengine.Prelude.Int.{
  ℤ, pos, negsuc, pos_part, neg_ℤ, ◌-ℤ◌, leb_ℤ, is_safe_integer, is_safe_natural,
}
use sandboxengine.Prelude.Text.{Text, lit, text_eq}
use sandboxengine.Prelude.Results.{Result, ok, err}
use sandboxengine.Contracts.Value.{
  Value, Fields, keys, get, as_integer, is_bounded_text, schema_version, end, field,
}
use sandboxengine.Contracts.World.{WorldState, WorldResource}
use sandboxengine.Contracts.Effect.{GameplayEffect, resource_change, effect_value}
use sandboxengine.Contracts.Event.{is_gameplay_effect}
use sandboxengine.Core.Resource.{is_safe_resource}
use sandboxengine.Core.Effects.{
  EffectBatchFailure, EffectBatchSuccess, is_resource, try_apply_effect_batch,
}

pub record PaintActionDefinition : Type 0 where
  pub id : Text
  pub action_type : Text
  pub resource_id : Text
  pub resource_units_per_unit : ℤ
  pub duration_seconds_per_unit : ℤ
  pub allow_partial : Bool

-- The fields of an intent that the resolver reads.
pub record ResolvedIntent : Type 0 where
  pub schema_version : Text
  pub action_type : Text
  pub args : Fields

pub data CalculatedActionStatus : Type 0 where
  executed partial conditional blocked : CalculatedActionStatus

pub record PaintCalculatedAction : Type 0 where
  pub status : CalculatedActionStatus
  pub reason_code : Option Text
  pub requested_units : ℕ
  pub completed_units : ℕ
  pub duration_seconds : ℕ
  pub effects : List GameplayEffect

pub data ResolvePaintFailureCode : Type 0 where
  invalid_definition invalid_intent invalid_state : ResolvePaintFailureCode
  resource_not_found calculation_overflow effect_application_failed : ResolvePaintFailureCode

pub record ResolvePaintSuccess : Type 0 where
  pub action : PaintCalculatedAction
  pub state : WorldState

pub record ResolvePaintFailure : Type 0 where
  pub code : ResolvePaintFailureCode
  pub effect_failure : Option EffectBatchFailure

abbrev pub ResolvePaintResult : Type 0
ResolvePaintResult = Result ResolvePaintFailure ResolvePaintSuccess

-- "core.paint"
abbrev pub core_paint : Text
core_paint = lit "core.paint"

-- isValidDefinition
unfoldable pub is_valid_definition : PaintActionDefinition → Bool
is_valid_definition d =
    text_eq d.action_type core_paint
    && leb 1 (length d.id)
    && leb 1 (length d.resource_id)
    && is_safe_integer d.resource_units_per_unit
    && leb_ℤ (pos 1) d.resource_units_per_unit
    && is_safe_integer d.duration_seconds_per_unit
    && leb_ℤ (pos 0) d.duration_seconds_per_unit

abbrev pub positive_safe : Option ℤ → Option ℕ
positive_safe none = none
positive_safe (some z) = if is_safe_integer z && leb_ℤ (pos 1) z then some (pos_part z) else none

-- keys.length === 1 and keys[0] === "units"
abbrev pub only_units : List Text → Bool
only_units (k ∷ []) = text_eq k (lit "units")
only_units _ = false

-- readRequestedUnits
unfoldable pub read_requested_units : ResolvedIntent → Option ℕ
read_requested_units i =
    if not (text_eq i.schema_version schema_version) || not (text_eq i.action_type core_paint)
    then none
    else if not (only_units (keys i.args))
    then none
    else positive_safe (as_integer (get (lit "units") i.args))

-- isReasonCode of calculated-action.ts
abbrev pub is_reason_code : Option Text → Bool
is_reason_code none = true
is_reason_code (some t) = is_bounded_text 100 t

-- The part of isCalculatedAction for core.paint that a typed action can fail.
unfoldable pub is_calculated_action : PaintCalculatedAction → Bool
is_calculated_action a =
    is_reason_code a.reason_code
    && leb 1 a.requested_units
    && all (λ e. is_gameplay_effect (effect_value e)) a.effects

abbrev pub paint_failure : ResolvePaintFailureCode → ResolvePaintResult
paint_failure c = err (record { code = c; effect_failure = none })

-- createCalculatedAction, and the answer of the resolver with it.
unfoldable pub answer : PaintCalculatedAction → WorldState → ResolvePaintResult
answer a s =
    if is_calculated_action a
    then ok (record { action = a; state = s })
    else paint_failure calculation_overflow

-- "RESOURCE_LIMIT"
abbrev pub resource_limit : Text
resource_limit = lit "RESOURCE_LIMIT"

abbrev pub blocked_action : ℕ → PaintCalculatedAction
blocked_action requested = record {
  status = blocked;
  reason_code = some resource_limit;
  requested_units = requested;
  completed_units = 0;
  duration_seconds = 0;
  effects = [];
}

abbrev pub spend_effect : PaintActionDefinition → ℕ → GameplayEffect
spend_effect d spent = resource_change d.id d.resource_id (neg_ℤ (pos spent))

abbrev pub done_action : PaintActionDefinition → ℕ → ℕ → PaintCalculatedAction
done_action d requested completed = record {
  status = if ltb completed requested then partial else executed;
  reason_code = if ltb completed requested then some resource_limit else none;
  requested_units = requested;
  completed_units = completed;
  duration_seconds = completed * pos_part d.duration_seconds_per_unit;
  effects = spend_effect d (completed * pos_part d.resource_units_per_unit) ∷ [];
}

-- The units are done: the resource is spent through a batch of one effect.
unfoldable pub paint_units : WorldState → PaintActionDefinition → ℕ → ℕ → ResolvePaintResult
paint_units s d requested completed =
    let spent = completed * pos_part d.resource_units_per_unit in
    let duration = completed * pos_part d.duration_seconds_per_unit in
    if not (is_safe_integer (pos spent)) || not (is_safe_integer (pos duration))
    then paint_failure calculation_overflow
    else elim (try_apply_effect_batch s (effect_value (spend_effect d spent) ∷ [])) [
      | err f ↦ err (record { code = effect_application_failed; effect_failure = some f })
      | ok r ↦ answer (done_action d requested completed) r.state
    ]

-- possibleUnits
abbrev pub possible_units : PaintActionDefinition → WorldResource → ℕ
possible_units d r = pos_part (r.value -ℤ r.min) / pos_part d.resource_units_per_unit

unfoldable pub paint_resource :
    WorldState → PaintActionDefinition → ℕ → Option WorldResource → ResolvePaintResult
paint_resource s d requested none = paint_failure resource_not_found
paint_resource s d requested (some r) =
    let possible = possible_units d r in
    if not (is_safe_resource r)
    then paint_failure invalid_state
    else if not (is_safe_natural (r.value -ℤ r.min))
    then paint_failure invalid_state
    else if not (is_safe_natural (pos possible))
    then paint_failure calculation_overflow
    else if leb possible 0 || not d.allow_partial && ltb possible requested
    then answer (blocked_action requested) s
    else paint_units s d requested (min requested possible)

unfoldable pub resolve_paint_action :
    WorldState → PaintActionDefinition → ResolvedIntent → ResolvePaintResult
resolve_paint_action s d i =
    if not (is_valid_definition d)
    then paint_failure invalid_definition
    else elim (read_requested_units i) [
      | none ↦ paint_failure invalid_intent
      | some requested ↦
          if not (text_eq s.schema_version schema_version)
          then paint_failure invalid_state
          else paint_resource s d requested (find? (is_resource d.resource_id) s.resources)
    ]
