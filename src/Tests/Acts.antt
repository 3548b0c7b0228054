-- ===== src/Tests/Acts.antt =====
-- A task, a paint action and a social act in the small world.
use sandboxengine.Prelude.{ℕ, ◌≡◌, ◌≤◌, refl, true, some, List, [], ◌∷◌, find?}
use sandboxengine.Prelude.Int.{pos, ◌-ℤ◌}
use sandboxengine.Prelude.Text.{lit, text_eq}
use sandboxengine.Prelude.Results.{ok}
use sandboxengine.Contracts.World.{WorldResource, has, entity_ids}
use sandboxengine.Contracts.Value.{
  Value, str, num, integer, arr, obj, nil, cons, end, field, schema_version,
}
use sandboxengine.Contracts.Effect.{effect_value}
use sandboxengine.Contracts.Event.{SchedulerEvent, ScheduledTask, is_effect_list, is_scheduled_task}
use sandboxengine.Contracts.Social.{
  in_word, is_json_value, as_social_action_subject, as_social_act, accept,
}
use sandboxengine.Core.Effects.{is_resource}
use sandboxengine.Core.Tasks.{has_clock, project_task_events}
use sandboxengine.Core.Tasks.Projection.{AreTaskEvents, project_task_events_total}
use sandboxengine.Core.Actions.{
  PaintActionDefinition, ResolvedIntent, ResolvePaintSuccess, done_action, is_valid_definition,
  read_requested_units, is_calculated_action, answer, paint_units, paint_resource,
  resolve_paint_action, core_paint,
}
use sandboxengine.Core.Actions.Paint.{IsPainted, resolve_paint_action-IsPainted}
use sandboxengine.Core.Social.{
  SocialCalculatedAction, responded, validate_pair, answer_request, resolve_social_response,
}
use sandboxengine.Tests.Data.{batches, world, paint, spend}
use sandboxengine.Tests.Scheduler.{intervals}

abbrev sweeping : ScheduledTask
sweeping = record {
  schema_version = schema_version;
  task_id = lit "sweep";
  source_id = lit "s";
  actor_entity_id = lit "ann";
  start_at_elapsed_seconds = pos 60;
  complete_at_elapsed_seconds = pos 60;
  base_order = pos 19;
  start_effects = [];
  completion_effects = effect_value spend ∷ [];
}

world_clock : has_clock world ≡ true
unfolding text_eq
world_clock = refl

sweeping_valid : is_scheduled_task sweeping ≡ true
unfolding intervals is_effect_list is_scheduled_task
sweeping_valid = refl

ann_known : has (entity_ids world.entities) (lit "ann") ≡ true
unfolding batches
ann_known = refl

project_task_events_total_example :
    (es : List SchedulerEvent) × (project_task_events world sweeping ≡ ok es)
    × AreTaskEvents sweeping es
project_task_events_total_example =
    project_task_events_total world sweeping world_clock sweeping_valid refl ann_known

-- All that the paint action computes with.
unfoldable painting : Unit {0}
unfolding intervals ◌-ℤ◌ is_valid_definition read_requested_units is_calculated_action answer
    paint_units paint_resource resolve_paint_action
painting = tt

abbrev fence : PaintActionDefinition
fence = record {
  id = lit "fence";
  action_type = core_paint;
  resource_id = lit "paint";
  resource_units_per_unit = pos 3;
  duration_seconds_per_unit = pos 60;
  allow_partial = true;
}

abbrev five_units : ResolvedIntent
five_units = record {
  schema_version = schema_version;
  action_type = core_paint;
  args = field (lit "units") (num (integer (pos 5))) end;
}

abbrev painted : ResolvePaintSuccess
painted = record {
  action = done_action fence 5 3;
  state = record world { resources = record paint { value = pos 1 } ∷ [] };
}

paint_run : resolve_paint_action world fence five_units ≡ ok painted
unfolding painting
paint_run = refl

resolve_paint_action-IsPainted_example :
    (requested : ℕ) × (r : WorldResource) × (read_requested_units five_units ≡ some requested)
    × (1 ≤ requested)
    × (find? (is_resource fence.resource_id) world.resources ≡ some r)
    × IsPainted world fence requested r painted
resolve_paint_action-IsPainted_example =
    resolve_paint_action-IsPainted world fence five_units painted paint_run

-- All that a social act computes with.
unfoldable meeting : Unit {0}
unfolding batches in_word is_json_value as_social_action_subject as_social_act validate_pair
    answer_request resolve_social_response
meeting = tt

abbrev asked : Value
asked = obj (
    field (lit "schemaVersion") (str schema_version) (
      field (lit "type") (str (lit "request")) (
        field (lit "proposalId") (str (lit "p1")) (
          field (lit "fromEntityId") (str (lit "ann")) (
            field (lit "toEntityId") (str (lit "ann")) (
              field (lit "subject")
                (obj (
                  field (lit "actionType") (str (lit "core.paint")) (
                    field (lit "targetIds") (arr (cons (str (lit "fence")) nil))
                      (field (lit "args") (obj end) end))))
                end))))))

abbrev answered : Value
answered = obj (
    field (lit "schemaVersion") (str schema_version) (
      field (lit "type") (str (lit "response")) (
        field (lit "responseId") (str (lit "r1")) (
          field (lit "proposalId") (str (lit "p1")) (
            field (lit "responderId") (str (lit "ann"))
              (field (lit "decision") (str (lit "accept")) end))))))

abbrev agreed : SocialCalculatedAction
agreed = responded (record {
  response_id = lit "r1";
  proposal_id = lit "p1";
  responder_id = lit "ann";
  decision = accept;
})

meeting_run : resolve_social_response world asked answered ≡ ok agreed
unfolding meeting
meeting_run = refl
