-- ===== src/Plugins/DiceCheck.antt =====
-- packages/plugins/src/dice-check.ts: definitions, the resolver and the projection of its plans.
use sandboxengine.Prelude.{
  Bool, true, not, ◌&&◌, ◌||◌, Option, none, some, List, [], ◌∷◌, leb, length, all, map,
  if◌then◌else◌,
}
use sandboxengine.Prelude.Int.{ℤ, pos, neg_ℤ, ◌+ℤ◌, leb_ℤ, ltb_ℤ, eqb_ℤ, is_safe_integer}
use sandboxengine.Prelude.Text.{Text, lit, text_eq}
use sandboxengine.Prelude.Results.{Result, ok, err}
use sandboxengine.Contracts.Value.{is_id}
use sandboxengine.Contracts.World.{WorldItemPosition, location, holder}
use sandboxengine.Contracts.Effect.{GameplayEffect, resource_change, item_transfer, entity_move}
use sandboxengine.Core.Rng.{
  DeterministicRngState, DeterministicRngProvenance, DrawFailureCode, Draw, draw_deterministic_int,
}
use sandboxengine.Plugins.Narrative.{is_narrative_template, replace_placeholders, integer_text}

pub data DiceCheckEffectTemplate : Type 0 where
  change_template : (resource_id : Text) (delta : ℤ) → DiceCheckEffectTemplate
  move_template : (entity_id location_id : Text) → DiceCheckEffectTemplate
  transfer_template : (item_id : Text) (destination : WorldItemPosition) → DiceCheckEffectTemplate

-- `schemaVersion` is the known version in every definition.
pub record DiceCheckDefinition : Type 0 where
  pub definition_id : Text
  pub difficulty : ℤ
  pub modifier : ℤ
  pub duration_seconds : ℤ
  pub on_success_effects : List DiceCheckEffectTemplate
  pub on_failure_effects : List DiceCheckEffectTemplate
  pub success_narrative : Text
  pub failure_narrative : Text

pub data DiceCheckOutcome : Type 0 where
  success failure : DiceCheckOutcome

pub record DiceCheckResult : Type 0 where
  pub roll : ℤ
  pub modifier : ℤ
  pub total : ℤ
  pub difficulty : ℤ
  pub outcome : DiceCheckOutcome
  pub narrative : Text

abbrev pub dice_check_d20_sides : ℤ
dice_check_d20_sides = pos 20

abbrev pub dice_check_action_type_id : Text
dice_check_action_type_id = lit "dice-check.action.skill-check"

-- isIntegerBetween
abbrev pub is_integer_between : ℤ → ℤ → ℤ → Bool
is_integer_between n min max = is_safe_integer n && leb_ℤ min n && leb_ℤ n max

abbrev pub is_destination : WorldItemPosition → Bool
is_destination (location l) = is_id l
is_destination (holder h) = is_id h

-- isEffectTemplate, on templates of this type
abbrev pub is_effect_template : DiceCheckEffectTemplate → Bool
is_effect_template (change_template r delta) =
    is_id r && is_safe_integer delta && not (eqb_ℤ delta (pos 0))
is_effect_template (move_template e l) = is_id e && is_id l
is_effect_template (transfer_template i p) = is_id i && is_destination p

abbrev pub is_effect_template_array : List DiceCheckEffectTemplate → Bool
is_effect_template_array ts = leb (length ts) 50 && all is_effect_template ts

-- validateDiceCheckDefinition, on definitions of this type
unfoldable pub validate_dice_check_definition : DiceCheckDefinition → Bool
validate_dice_check_definition d =
    is_id d.definition_id
    && is_integer_between d.difficulty (pos 1) (pos 40)
    && is_integer_between d.modifier (neg_ℤ (pos 20)) (pos 20)
    && is_integer_between d.duration_seconds (pos 0) (pos 86400)
    && is_effect_template_array d.on_success_effects
    && is_effect_template_array d.on_failure_effects
    && is_narrative_template d.success_narrative
    && is_narrative_template d.failure_narrative

-- materializeEffect
abbrev pub materialize_effect : Text → DiceCheckEffectTemplate → GameplayEffect
materialize_effect source_id (change_template r delta) = resource_change source_id r delta
materialize_effect source_id (move_template e l) = entity_move source_id e l
materialize_effect source_id (transfer_template i p) = item_transfer source_id i p

abbrev pub templates_of : DiceCheckDefinition → DiceCheckOutcome → List DiceCheckEffectTemplate
templates_of d success = d.on_success_effects
templates_of d failure = d.on_failure_effects

abbrev pub reason_of : DiceCheckOutcome → Text
reason_of success = lit "DICE_CHECK_SUCCESS"
reason_of failure = lit "DICE_CHECK_FAILURE"

abbrev pub narrative_of : DiceCheckDefinition → DiceCheckOutcome → Text
narrative_of d success = d.success_narrative
narrative_of d failure = d.failure_narrative

-- The fields of a ValidatedPluginActionPlan that are read here; `status` as whether it is "executed".
pub record PluginActionPlan : Type 0 where
  pub action_type_id : Text
  pub executed : Bool
  pub requested_units : ℤ
  pub completed_units : ℤ
  pub duration_seconds : ℤ
  pub reason_code : Text
  pub effects : List GameplayEffect
  pub rng_trace : List DeterministicRngProvenance

abbrev pub plan_of : DiceCheckDefinition → Text → Draw → PluginActionPlan
plan_of d action_type_id drawn =
    let total = drawn.provenance.value +ℤ pos 1 +ℤ d.modifier in
    let outcome = if leb_ℤ d.difficulty total then success else failure in
    record {
      action_type_id = action_type_id;
      executed = true;
      requested_units = pos 1;
      completed_units = pos 1;
      duration_seconds = d.duration_seconds;
      reason_code = reason_of outcome;
      effects = map (materialize_effect action_type_id) (templates_of d outcome);
      rng_trace = drawn.provenance ∷ [];
    }

-- resolve of the registration, once the definition is found, with the trace of its one draw
unfoldable pub resolve_dice_check :
    DiceCheckDefinition
    → Text
    → DeterministicRngState
    → Result DrawFailureCode (PluginActionPlan × DeterministicRngState)
resolve_dice_check d action_type_id rng = elim (draw_deterministic_int rng dice_check_d20_sides) [
  | err e ↦ err e
  | ok drawn ↦ ok (plan_of d action_type_id drawn, drawn.state)
]

abbrev pub outcome_text : DiceCheckOutcome → Text
outcome_text success = lit "success"
outcome_text failure = lit "failure"

-- The replacements of renderDiceCheckNarrative; any other key is kept.
abbrev pub replacement : ℤ → ℤ → ℤ → ℤ → DiceCheckOutcome → Text → Text
replacement roll modifier total difficulty outcome k =
    if text_eq k (lit "roll")
    then integer_text roll
    else if text_eq k (lit "modifier")
    then integer_text modifier
    else if text_eq k (lit "total")
    then integer_text total
    else if text_eq k (lit "difficulty")
    then integer_text difficulty
    else outcome_text outcome

-- renderDiceCheckNarrative. A template has no other keys than these five.
unfoldable pub render_dice_check_narrative : Text → ℤ → ℤ → ℤ → ℤ → DiceCheckOutcome → Option Text
render_dice_check_narrative template roll modifier total difficulty outcome =
    if is_narrative_template template
      && is_integer_between roll (pos 1) dice_check_d20_sides
      && is_integer_between modifier (neg_ℤ (pos 20)) (pos 20)
      && is_safe_integer total
      && is_integer_between difficulty (pos 1) (pos 40)
    then some (replace_placeholders (replacement roll modifier total difficulty outcome) 0 template)
    else none

abbrev pub result_with :
    ℤ → DiceCheckDefinition → DiceCheckOutcome → Option Text → Option DiceCheckResult
result_with roll d outcome none = none
result_with roll d outcome (some narrative) = some (record {
  roll = roll;
  modifier = d.modifier;
  total = roll +ℤ d.modifier;
  difficulty = d.difficulty;
  outcome = outcome;
  narrative = narrative;
})

-- projectDiceCheckResult of a plan with one draw. `json_text` is what JSON.stringify prints.
unfoldable pub project_trace :
    (List GameplayEffect → Text)
    → DiceCheckDefinition
    → PluginActionPlan
    → DeterministicRngProvenance
    → Option DiceCheckResult
project_trace json_text d plan trace =
    let roll = trace.value +ℤ pos 1 in
    let total = roll +ℤ d.modifier in
    let outcome = if leb_ℤ d.difficulty total then success else failure in
    let expected = map (materialize_effect dice_check_action_type_id) (templates_of d outcome) in
    if not (eqb_ℤ trace.max_exclusive dice_check_d20_sides)
      || not (is_safe_integer trace.value)
      || ltb_ℤ trace.value (pos 0)
      || leb_ℤ dice_check_d20_sides trace.value
    then none
    else if not (text_eq plan.reason_code (reason_of outcome))
    then none
    else if not (text_eq (json_text plan.effects) (json_text expected))
    then none
    else result_with roll d outcome (
        render_dice_check_narrative (narrative_of d outcome) roll d.modifier total d.difficulty
          outcome)

unfoldable pub project_dice_check_result :
    (List GameplayEffect → Text) → DiceCheckDefinition → PluginActionPlan → Option DiceCheckResult
project_dice_check_result json_text d plan =
    if not (validate_dice_check_definition d)
      || not (text_eq plan.action_type_id dice_check_action_type_id)
      || not plan.executed
      || not (eqb_ℤ plan.requested_units (pos 1))
      || not (eqb_ℤ plan.completed_units (pos 1))
    then none
    else elim plan.rng_trace [
      | [] ↦ none
      | trace ∷ rest ↦ elim rest [ [] ↦ project_trace json_text d plan trace | x ∷ xs ↦ none ]
    ]
