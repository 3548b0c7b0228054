-- ===== src/Tests/Scheduler.antt =====
-- An interval of the small world.
use mathlib.Core.List.{Permᴰ}
use sandboxengine.Prelude.{ℕ, ◌≡◌, refl, true, none, some, List, [], ◌∷◌, ◌⊎◌, length}
use sandboxengine.Prelude.Int.{pos, ◌+ℤ◌, ◌≤ℤ◌, max_safe_integer}
use sandboxengine.Prelude.Text.{Text, lit, text_lt}
use sandboxengine.Prelude.Results.{ok, err}
use sandboxengine.Contracts.World.{WorldState}
use sandboxengine.Contracts.Value.{schema_version}
use sandboxengine.Contracts.Effect.{effect_value}
use sandboxengine.Contracts.Event.{
  SchedulerEvent, EventPayload, marker, effects, terminal, is_gameplay_effect, is_payload,
  is_scheduler_event,
}
use sandboxengine.Core.Effects.{is_valid_state}
use sandboxengine.Core.Scheduler.{
  TimeAdvancePlan, compare_scheduler_events, in_order, check_events, is_schedulable, split_events,
  plan_checked, plan_time_advance, event_limit,
}
use sandboxengine.Core.Scheduler.Plan.{IsPlanOf, plan_time_advance-IsPlanOf, plan_time_advance-perm}
use sandboxengine.Core.Advance.{
  TimeAdvanceApplySuccess, TimeAdvanceApplyFailure, is_sorted, is_valid_plan_shape, apply_event,
  apply_due, apply_time_advance_plan, revision_overflow, event_effect_failed,
}
use sandboxengine.Core.Advance.Run.{IsAdvance, apply_time_advance_plan-IsAdvance}
use sandboxengine.Core.Advance.Shape.{plan_time_advance-is_valid_plan_shape, apply_planned}
use sandboxengine.Tests.Data.{batches, world, paint, spend}

-- All that planning and applying compute with.
unfoldable pub intervals : Unit {0}
unfolding batches text_lt is_gameplay_effect is_payload is_scheduler_event compare_scheduler_events
    in_order check_events is_schedulable split_events plan_checked plan_time_advance is_sorted
    is_valid_plan_shape apply_event apply_due apply_time_advance_plan
intervals = tt

abbrev pub event : Text → ℕ → EventPayload → SchedulerEvent
event id at payload = record {
  schema_version = schema_version;
  event_id = id;
  at_elapsed_seconds = pos at;
  order = pos 10;
  source_id = lit "s";
  payload = payload;
}

abbrev pub delivery : SchedulerEvent
delivery = event (lit "delivery") 65 (effects (effect_value spend ∷ []))

abbrev pub bell : SchedulerEvent
bell = event (lit "bell") 70 (terminal (lit "bell") (lit "over"))

abbrev pub late : SchedulerEvent
late = event (lit "late") 71 (marker (lit "m"))

abbrev pub night : SchedulerEvent
night = event (lit "night") 500 (marker (lit "n"))

abbrev given : List SchedulerEvent
given = night ∷ late ∷ bell ∷ delivery ∷ []

abbrev pub made : TimeAdvancePlan
made = record {
  start_elapsed_seconds = pos 60;
  end_elapsed_seconds = pos 80;
  due_events = delivery ∷ bell ∷ late ∷ [];
  pending_events = night ∷ [];
}

plan_run : plan_time_advance world (pos 20) given none ≡ ok made
unfolding intervals
plan_run = refl

plan_time_advance-IsPlanOf_example :
    IsPlanOf (pos 60) (pos 60 +ℤ pos 20) given made
    × (pos (length made.due_events) ≤ℤ event_limit none)
plan_time_advance-IsPlanOf_example =
    plan_time_advance-IsPlanOf world (pos 20) given none made plan_run

plan_time_advance-perm_example :
    plan_time_advance world (pos 20) (late ∷ night ∷ bell ∷ delivery ∷ []) none ≡ ok made
plan_time_advance-perm_example =
    plan_time_advance-perm world (pos 20) given (late ∷ night ∷ bell ∷ delivery ∷ []) none made
      (Permᴰ.swap refl refl) plan_run

plan_time_advance-is_valid_plan_shape_example : is_valid_plan_shape made ≡ true
plan_time_advance-is_valid_plan_shape_example =
    plan_time_advance-is_valid_plan_shape world (pos 20) given none made plan_run

world_valid : is_valid_state world ≡ true
unfolding batches
world_valid = refl

abbrev advanced : TimeAdvanceApplySuccess
advanced = record {
  state = record world {
    revision = pos 5;
    clock = record { elapsed_seconds = pos 70 };
    resources = record paint { value = pos 7 } ∷ [];
    terminal = some (record { reason = lit "bell"; outcome = lit "over" });
  };
  applied_events = delivery ∷ bell ∷ [];
  pending_events = night ∷ [];
  interrupted = true;
  interruption_event_id = some (lit "bell");
  unprocessed_events = late ∷ [];
}

apply_run : apply_time_advance_plan world made ≡ ok advanced
unfolding intervals
apply_run = refl

apply_time_advance_plan-IsAdvance_example : IsAdvance world made advanced
apply_time_advance_plan-IsAdvance_example =
    apply_time_advance_plan-IsAdvance world made advanced world_valid apply_run

abbrev full_world : WorldState
full_world = record world { revision = pos max_safe_integer }

full_plan : plan_time_advance full_world (pos 20) given none ≡ ok made
unfolding intervals
full_plan = refl

abbrev full_failure : TimeAdvanceApplyFailure
full_failure = record {
  code = revision_overflow;
  event_index = none;
  event_id = none;
  effect_failure = none;
}

full_run : apply_time_advance_plan full_world made ≡ err full_failure
unfolding intervals
full_run = refl

apply_planned_example :
    ((full_failure.code ≡ revision_overflow) × (full_world.revision ≡ pos max_safe_integer))
    ⊎ ((full_failure.code ≡ event_effect_failed)
        × (apply_due 0 full_world [] made.due_events ≡ err full_failure))
apply_planned_example =
    apply_planned full_world (pos 20) given none made full_plan full_failure full_run
