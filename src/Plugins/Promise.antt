-- ===== src/Plugins/Promise.antt =====
-- What the result of a dice check and its plan are to be, apart from the code of dice-check.ts.
use sandboxengine.Prelude.{◌≡◌, some, List, [], ◌∷◌, ◌⊎◌}
use sandboxengine.Prelude.Int.{ℤ, pos, ◌+ℤ◌, ◌≤ℤ◌, ◌<ℤ◌}
use sandboxengine.Prelude.Text.{Text, lit}
use sandboxengine.Contracts.World.{WorldItemPosition}
use sandboxengine.Contracts.Effect.{GameplayEffect, resource_change, item_transfer, entity_move}
use sandboxengine.Core.Rng.{DeterministicRngProvenance}
use sandboxengine.Plugins.Narrative.{integer_text}
use sandboxengine.Plugins.Rendering.{Rendered}
use sandboxengine.Plugins.DiceCheck.{
  DiceCheckEffectTemplate, change_template, move_template, transfer_template, DiceCheckDefinition,
  success, failure, DiceCheckResult, PluginActionPlan, project_dice_check_result,
}

-- The source of the effects of a check.
abbrev pub check_source : Text
check_source = lit "dice-check.action.skill-check"

-- Effects that are made of templates, one by one and in their order.
pub data AreMade : List DiceCheckEffectTemplate → List GameplayEffect → Type 0 where
  none_made : AreMade [] []
  change_made :
      (resource_id : Text) (delta : ℤ) (ts : List DiceCheckEffectTemplate)
      (es : List GameplayEffect)
      → AreMade ts es
      → AreMade
          (change_template resource_id delta ∷ ts)
          (resource_change check_source resource_id delta ∷ es)
  move_made :
      (entity_id location_id : Text) (ts : List DiceCheckEffectTemplate) (es : List GameplayEffect)
      → AreMade ts es
      → AreMade
          (move_template entity_id location_id ∷ ts)
          (entity_move check_source entity_id location_id ∷ es)
  transfer_made :
      (item_id : Text) (destination : WorldItemPosition) (ts : List DiceCheckEffectTemplate)
      (es : List GameplayEffect)
      → AreMade ts es
      → AreMade
          (transfer_template item_id destination ∷ ts)
          (item_transfer check_source item_id destination ∷ es)

-- The texts of the placeholders, but for the outcome.
pub record IsReplacement (texts : Text → Text) (result : DiceCheckResult) : Type 0 where
  pub roll : texts (lit "roll") ≡ integer_text result.roll
  pub modifier : texts (lit "modifier") ≡ integer_text result.modifier
  pub total : texts (lit "total") ≡ integer_text result.total
  pub difficulty : texts (lit "difficulty") ≡ integer_text result.difficulty

pub record IsSuccess (d : DiceCheckDefinition) (plan : PluginActionPlan) (texts : Text → Text)
    (result : DiceCheckResult) : Type 0 where
  pub reached : d.difficulty ≤ℤ result.total
  pub outcome : result.outcome ≡ success
  pub outcome_text : texts (lit "outcome") ≡ lit "success"
  pub reason : plan.reason_code ≡ lit "DICE_CHECK_SUCCESS"
  pub effects : AreMade d.on_success_effects plan.effects
  pub narrative : Rendered texts d.success_narrative result.narrative

pub record IsFailure (d : DiceCheckDefinition) (plan : PluginActionPlan) (texts : Text → Text)
    (result : DiceCheckResult) : Type 0 where
  pub missed : result.total <ℤ d.difficulty
  pub outcome : result.outcome ≡ failure
  pub outcome_text : texts (lit "outcome") ≡ lit "failure"
  pub reason : plan.reason_code ≡ lit "DICE_CHECK_FAILURE"
  pub effects : AreMade d.on_failure_effects plan.effects
  pub narrative : Rendered texts d.failure_narrative result.narrative

-- A plan with one draw is projected to the result of its roll, which decides the outcome, the effects
-- and the narrative.
pub record IsProjected (json_text : List GameplayEffect → Text) (d : DiceCheckDefinition)
    (plan : PluginActionPlan) : Type 0 where
  pub trace : DeterministicRngProvenance
  pub drawn : plan.rng_trace ≡ trace ∷ []
  pub duration : plan.duration_seconds ≡ d.duration_seconds
  pub result : DiceCheckResult
  pub projected : project_dice_check_result json_text d plan ≡ some result
  pub roll : result.roll ≡ trace.value +ℤ pos 1
  pub at_least : pos 1 ≤ℤ result.roll
  pub at_most : result.roll ≤ℤ pos 20
  pub modifier : result.modifier ≡ d.modifier
  pub difficulty : result.difficulty ≡ d.difficulty
  pub total : result.total ≡ result.roll +ℤ d.modifier
  pub texts : Text → Text
  pub replacement : IsReplacement texts result
  pub either : IsSuccess d plan texts result ⊎ IsFailure d plan texts result
