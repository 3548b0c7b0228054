-- ===== src/Tests/Dice.antt =====
-- A check of a modest difficulty.
use sandboxengine.Prelude.{◌≡◌, refl, List, [], ◌∷◌}
use sandboxengine.Prelude.Int.{pos}
use sandboxengine.Prelude.Text.{Text, lit}
use sandboxengine.Prelude.Results.{ok}
use sandboxengine.Contracts.Effect.{GameplayEffect}
use sandboxengine.Core.Rng.{Draw, algorithm_name}
use sandboxengine.Core.Rng.Draws.{rng_at}
use sandboxengine.Plugins.Narrative.{
  replace_placeholders, placeholder_keys, has_pair, is_narrative_template, digits, integer_text,
}
use sandboxengine.Plugins.DiceCheck.{
  DiceCheckDefinition, change_template, validate_dice_check_definition, dice_check_action_type_id,
  plan_of, resolve_dice_check, render_dice_check_narrative, project_trace,
  project_dice_check_result,
}
use sandboxengine.Plugins.Promise.{IsProjected}
use sandboxengine.Plugins.Projection.{project-resolve}
use sandboxengine.Tests.Data.{batches}
use sandboxengine.Tests.Rng.{draws, stream}

-- All that a check computes with.
unfoldable checked : Unit {0}
unfolding batches draws replace_placeholders placeholder_keys has_pair is_narrative_template digits
    integer_text validate_dice_check_definition resolve_dice_check render_dice_check_narrative
    project_trace project_dice_check_result
checked = tt

abbrev climb : DiceCheckDefinition
climb = record {
  definition_id = lit "climb";
  difficulty = pos 12;
  modifier = pos 3;
  duration_seconds = pos 60;
  on_success_effects = change_template (lit "paint") (pos 1) ∷ [];
  on_failure_effects = [];
  success_narrative = lit "You rolled {{roll}}.";
  failure_narrative = lit "{{total}} is too low.";
}

abbrev no_json : List GameplayEffect → Text
no_json es = []

abbrev drawn : Draw
drawn = record {
  state = rng_at 42 (lit "dice") 1083814273 1;
  provenance = record {
    algorithm = algorithm_name;
    seed = pos 42;
    stream_id = lit "dice";
    draw_index = pos 0;
    raw_uint32 = pos 1083814273;
    max_exclusive = pos 20;
    value = pos 5;
  };
}

-- 5 is drawn: a roll of 6, and a total of 9.
resolved :
    resolve_dice_check climb dice_check_action_type_id stream
    ≡ ok (plan_of climb dice_check_action_type_id drawn, drawn.state)
unfolding checked
resolved = refl

rendered : replace_placeholders (λ k. lit "9") 0 (lit "{{total}} is too low.") ≡ lit "9 is too low."
unfolding checked
rendered = refl

project-resolve_example : IsProjected no_json climb (plan_of climb dice_check_action_type_id drawn)
unfolding checked
project-resolve_example =
    project-resolve no_json climb stream drawn.state (plan_of climb dice_check_action_type_id drawn)
      refl resolved
