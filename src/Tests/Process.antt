-- ===== src/Tests/Process.antt =====
-- An interval of the small world with a handler that answers the delivery with a knock.
use native.Mathlib.Decide.{ℕ_discrete}
use sandboxengine.Prelude.{ℕ, ◌≡◌, refl, true, none, some, [], ◌∷◌, if◌then◌else◌}
use sandboxengine.Prelude.Int.{pos, ◌-ℤ◌}
use sandboxengine.Prelude.Text.{lit, text_eq}
use sandboxengine.Prelude.Results.{ok}
use sandboxengine.Contracts.Event.{SchedulerEvent, marker}
use sandboxengine.Core.Process.{
  QueueEntry, SchedulerEventHandler, SchedulerProcessingOptions, SchedulerProcessingSuccess,
  in_queue_order, child_entry, add_child, refuse_child, add_children, handle, process_entry,
  process_from,
}
use sandboxengine.Core.Process.Start.{
  process_time_advance_plan, plan_discrete, start_processing, matches_canonical_plan, number_events,
}
use sandboxengine.Core.Process.Promise.{IsProcessed, process_time_advance_plan-IsProcessed}
use sandboxengine.Core.Advance.{TimeAdvanceApplySuccess, apply_time_advance_plan}
use sandboxengine.Core.Process.Agrees.{Agrees, process_time_advance_plan-Agrees}
use sandboxengine.Tests.Data.{world, paint}
use sandboxengine.Tests.Scheduler.{intervals, event, delivery, bell, late, night, made}

-- All that processing computes with.
unfoldable processing : Unit {0}
unfolding intervals ◌-ℤ◌ in_queue_order child_entry add_child refuse_child add_children handle
    process_entry process_from start_processing number_events matches_canonical_plan plan_discrete
    process_time_advance_plan
processing = tt

abbrev knock : SchedulerEvent
knock = event (lit "knock") 65 (marker (lit "k"))

abbrev knocking : SchedulerEventHandler
knocking e s c = if text_eq e.event_id (lit "delivery") then some (knock ∷ []) else some []

abbrev handled : SchedulerProcessingOptions
handled = record { max_steps = some (pos 3); max_events = some (pos 5); handler = some knocking }

abbrev entry : SchedulerEvent → ℕ → QueueEntry
entry e n = record { event = e; effective_order = pos 10; sequence = n }

abbrev processed : SchedulerProcessingSuccess
processed = record {
  state = record world {
    revision = pos 5;
    clock = record { elapsed_seconds = pos 70 };
    resources = record paint { value = pos 7 } ∷ [];
    terminal = some (record { reason = lit "bell"; outcome = lit "over" });
  };
  processed_events = entry delivery 0 ∷ entry knock 3 ∷ entry bell 1 ∷ [];
  applied_events = delivery ∷ knock ∷ bell ∷ [];
  pending_events = night ∷ [];
  interrupted = true;
  interruption_event_id = some (lit "bell");
  unprocessed_events = late ∷ [];
}

process_run : process_time_advance_plan world made handled ≡ ok processed
unfolding processing ℕ_discrete
process_run = refl

process_time_advance_plan-IsProcessed_example : IsProcessed world made handled processed
process_time_advance_plan-IsProcessed_example =
    process_time_advance_plan-IsProcessed world made handled processed process_run

abbrev unhandled : SchedulerProcessingOptions
unhandled = record { max_steps = none; max_events = none; handler = none }

abbrev processed_alone : SchedulerProcessingSuccess
processed_alone = record processed {
  processed_events = entry delivery 0 ∷ entry bell 1 ∷ [];
  applied_events = delivery ∷ bell ∷ [];
}

alone_run : process_time_advance_plan world made unhandled ≡ ok processed_alone
unfolding processing ℕ_discrete
alone_run = refl

process_time_advance_plan-Agrees_example :
    (a : TimeAdvanceApplySuccess) × (apply_time_advance_plan world made ≡ ok a)
    × Agrees processed_alone a
process_time_advance_plan-Agrees_example =
    process_time_advance_plan-Agrees world made unhandled processed_alone refl alone_run
