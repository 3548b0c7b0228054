-- ===== src/Core/Tasks.antt =====
-- packages/core/src/tasks.ts: the events of a task and of a deadline.
pub mod Projection
use sandboxengine.Prelude.{
  ℕ, Bool, true, false, not, ◌&&◌, ◌||◌, Option, none, some, List, [], ◌∷◌, ◌++◌, any,
  if◌then◌else◌,
}
use sandboxengine.Prelude.Int.{ℤ, pos, eqb_ℤ, is_safe_natural}
use sandboxengine.Prelude.Text.{Text, lit, text_eq}
use sandboxengine.Prelude.Results.{Result, ok, err}
use sandboxengine.Contracts.Value.{Value, schema_version}
use sandboxengine.Contracts.World.{WorldState, has, entity_ids}
use sandboxengine.Contracts.Event.{
  SchedulerEvent, EventPayload, marker, effects, terminal, ScheduledTask, is_scheduler_event,
  is_scheduled_task,
}

-- CORE_TASK_STEP_PRIORITY, CORE_DEADLINE_PRIORITY and CORE_TASK_START_INTERNAL_ORDER of scheduler.ts
abbrev pub core_task_step_priority : ℤ
core_task_step_priority = pos 20

abbrev pub core_deadline_priority : ℤ
core_deadline_priority = pos 100

abbrev pub core_task_start_internal_order : ℤ
core_task_start_internal_order = pos 19

pub data TaskProjectionFailureCode : Type 0 where
  invalid_state invalid_task invalid_task_priority : TaskProjectionFailureCode
  actor_not_found invalid_projected_event : TaskProjectionFailureCode

pub record DeadlineDefinition : Type 0 where
  pub deadline_id : Text
  pub at_elapsed_seconds : ℤ
  pub order : ℤ
  pub source_id : Text
  pub reason : Text
  pub outcome : Text

-- The payload of buildTaskEvent. The copies of the effects are the effects.
unfoldable pub task_payload : Text → List Value → EventPayload
task_payload marker_id [] = marker marker_id
task_payload marker_id (e ∷ es) = effects (e ∷ es)

-- buildTaskEvent
unfoldable pub build_task_event : Text → ℤ → ℤ → Text → Text → List Value → SchedulerEvent
build_task_event event_id at order source_id marker_id es = record {
  schema_version = schema_version;
  event_id = event_id;
  at_elapsed_seconds = at;
  order = order;
  source_id = source_id;
  payload = task_payload marker_id es;
}

abbrev pub task_start : ScheduledTask → SchedulerEvent
task_start t =
    build_task_event (t.task_id ++ lit ".start") t.start_at_elapsed_seconds
      core_task_start_internal_order t.source_id (lit "task.start") t.start_effects

abbrev pub task_complete : ScheduledTask → SchedulerEvent
task_complete t =
    build_task_event (t.task_id ++ lit ".complete") t.complete_at_elapsed_seconds
      core_task_step_priority t.source_id (lit "task.complete") t.completion_effects

-- The state that projectTaskEvents takes.
abbrev pub has_clock : WorldState → Bool
has_clock s = text_eq s.schema_version schema_version && is_safe_natural s.clock.elapsed_seconds

unfoldable pub project_task_events :
    WorldState → ScheduledTask → Result TaskProjectionFailureCode (List SchedulerEvent)
project_task_events s t =
    if not (has_clock s)
    then err invalid_state
    else if not (is_scheduled_task t)
    then err invalid_task
    else if not (eqb_ℤ t.base_order core_task_start_internal_order)
    then err invalid_task_priority
    else if not (has (entity_ids s.entities) t.actor_entity_id)
    then err actor_not_found
    else if not (is_scheduler_event (task_start t)) || not (is_scheduler_event (task_complete t))
    then err invalid_projected_event
    else ok (task_start t ∷ task_complete t ∷ [])

abbrev pub deadline_event : DeadlineDefinition → SchedulerEvent
deadline_event d = record {
  schema_version = schema_version;
  event_id = d.deadline_id ++ lit ".terminal";
  at_elapsed_seconds = d.at_elapsed_seconds;
  order = core_deadline_priority;
  source_id = d.source_id;
  payload = terminal d.reason d.outcome;
}

-- `none` is the failure invalid_deadline.
unfoldable pub project_deadline_event : DeadlineDefinition → Option SchedulerEvent
project_deadline_event d =
    if not (eqb_ℤ d.order core_deadline_priority)
    then none
    else if not (is_scheduler_event (deadline_event d))
    then none
    else some (deadline_event d)
