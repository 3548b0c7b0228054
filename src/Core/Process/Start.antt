-- ===== src/Core/Process/Start.antt =====
-- packages/core/src/scheduler-process.ts: `processTimeAdvancePlan` around its loop.
use native.Mathlib.Decide.{ℕ_discrete}
use sandboxengine.Prelude.{
  ℕ, suc, Bool, true, false, not, ◌&&◌, Option, none, some, List, [], ◌∷◌, ◌++◌, length,
  if◌then◌else◌,
}
use sandboxengine.Prelude.Int.{
  ℤ, pos, pos_part, ◌-ℤ◌, ltb_ℤ, leb_ℤ, eqb_ℤ, is_safe_integer, is_safe_natural, max_safe_integer,
}
use sandboxengine.Prelude.Sort.{sort_by}
use sandboxengine.Prelude.Results.{Result, ok, err}
use sandboxengine.Contracts.World.{WorldState}
use sandboxengine.Contracts.Event.{SchedulerEvent}
use sandboxengine.Core.Effects.{is_valid_state}
use sandboxengine.Core.Scheduler.{
  TimeAdvancePlan, TimeAdvancePlanResult, is_schedulable, is_terminal, plan_time_advance,
  hard_max_events_per_interval,
}
use sandboxengine.Core.Advance.{event_ids, advance, effective_end, is_interrupted, interruption_id}
use sandboxengine.Core.Process.{
  SchedulerProcessingFailure, SchedulerProcessingResult, SchedulerProcessingOptions, QueueEntry,
  Processing, in_queue_order, failed_with, process_from, invalid_state, already_terminal,
  invalid_plan, plan_state_mismatch, revision_overflow, invalid_options, event_limit_exceeded,
}

-- DEFAULT_MAX_SCHEDULER_STEPS and DEFAULT_MAX_SCHEDULER_EVENTS, which are both 200, and the hard
-- limits, which are both 2000
abbrev pub default_scheduler_limit : ℤ
default_scheduler_limit = pos 200

abbrev pub hard_scheduler_limit : ℤ
hard_scheduler_limit = pos 2000

-- options.maxSteps ?? DEFAULT_MAX_SCHEDULER_STEPS, and the same for maxEvents
abbrev pub scheduler_limit : Option ℤ → ℤ
scheduler_limit none = default_scheduler_limit
scheduler_limit (some m) = m

-- isBoundedPositiveInteger
abbrev pub is_bounded_positive_integer : ℤ → ℤ → Bool
is_bounded_positive_integer m max = is_safe_integer m && leb_ℤ (pos 1) m && leb_ℤ m max

unfoldable pub plan_discrete : Discrete TimeAdvancePlan
plan_discrete = hlevel (ℕ_discrete)

abbrev pub is_yes {ℓ} : {A : Type ℓ} → Dec A → Bool
is_yes (yes a) = true
is_yes (no n) = false

abbrev pub is_plan : TimeAdvancePlan → TimeAdvancePlanResult → Bool
is_plan p (err f) = false
is_plan p (ok q) = is_yes (plan_discrete q p)

-- matchesCanonicalPlan: the two plans hold the same event values, so they print the same canonical
-- JSON just if they are equal.
unfoldable pub matches_canonical_plan : WorldState → TimeAdvancePlan → Bool
matches_canonical_plan s p = is_plan p (
    plan_time_advance s (p.end_elapsed_seconds -ℤ p.start_elapsed_seconds)
      (p.due_events ++ p.pending_events) (some hard_max_events_per_interval))

-- The queue of the due events: each with its own order, numbered from `n` on.
unfoldable pub number_events : ℕ → List SchedulerEvent → List QueueEntry
number_events n [] = []
number_events n (e ∷ es) =
    record { event = e; effective_order = e.order; sequence = n } ∷ number_events (suc n) es

-- The variables when the loop begins.
unfoldable pub start_processing : WorldState → TimeAdvancePlan → Processing
start_processing s p = record {
  trial = s;
  queue = sort_by in_queue_order (number_events 0 p.due_events);
  pending = p.pending_events;
  processed = [];
  applied = [];
  seen = event_ids (p.due_events ++ p.pending_events);
  total = length (p.due_events ++ p.pending_events);
  next_sequence = length p.due_events;
  interruption = none;
  unprocessed = [];
}

abbrev pub finish_processing :
    WorldState → ℤ → Result SchedulerProcessingFailure Processing → SchedulerProcessingResult
finish_processing s end (err f) = err f
finish_processing s end (ok p) = ok (record {
  state = advance s (effective_end end p.interruption) p.trial;
  processed_events = p.processed;
  applied_events = p.applied;
  pending_events = p.pending;
  interrupted = is_interrupted p.interruption;
  interruption_event_id = interruption_id p.interruption;
  unprocessed_events = p.unprocessed;
})

-- The ends of the interval.
abbrev pub is_interval : ℤ → ℤ → Bool
is_interval start end = is_safe_natural start && is_safe_natural end && leb_ℤ start end

abbrev pub are_scheduler_limits : ℤ → ℤ → Bool
are_scheduler_limits steps events =
    is_bounded_positive_integer steps hard_scheduler_limit
    && is_bounded_positive_integer events hard_scheduler_limit

unfoldable pub process_time_advance_plan :
    WorldState → TimeAdvancePlan → SchedulerProcessingOptions → SchedulerProcessingResult
process_time_advance_plan s p o =
    let steps = scheduler_limit o.max_steps in
    let events = scheduler_limit o.max_events in
    let initial = length (p.due_events ++ p.pending_events) in
    if not (is_schedulable s && is_valid_state s)
    then err (failed_with invalid_state none)
    else if is_terminal s.terminal
    then err (failed_with already_terminal none)
    else if not (is_interval p.start_elapsed_seconds p.end_elapsed_seconds)
    then err (failed_with invalid_plan none)
    else if not (eqb_ℤ p.start_elapsed_seconds s.clock.elapsed_seconds)
    then err (failed_with plan_state_mismatch none)
    else if eqb_ℤ s.revision (pos max_safe_integer)
    then err (failed_with revision_overflow none)
    else if not (are_scheduler_limits steps events)
    then err (failed_with invalid_options none)
    else if not (matches_canonical_plan s p)
    then err (failed_with invalid_plan none)
    else if ltb_ℤ events (pos initial)
    then err (record (failed_with event_limit_exceeded none) {
      event_count = some initial;
      max_events = some events;
    })
    else finish_processing s p.end_elapsed_seconds (
        process_from o.handler p.end_elapsed_seconds events (pos_part steps) (start_processing s p))
