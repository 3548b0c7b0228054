-- ===== src/Core/Scheduler.antt =====
-- packages/core/src/scheduler.ts, first part: the order of events and `planTimeAdvance`.
pub mod Order
pub mod Plan
use Prim.Native.Nat.{Ordering, lt, eq, gt}
use sandboxengine.Prelude.{
  ℕ, zero, suc, Bool, true, false, not, ◌&&◌, Option, none, some, List, [], ◌∷◌, ◌++◌, leb, ltb,
  length, all, keep, map, if◌then◌else◌,
}
use sandboxengine.Prelude.Int.{
  ℤ, pos, ◌+ℤ◌, ltb_ℤ, leb_ℤ, eqb_ℤ, is_safe_integer, is_safe_natural, max_safe_integer,
}
use sandboxengine.Prelude.Text.{Text, text_eq, text_lt}
use sandboxengine.Prelude.Sort.{sort_by}
use sandboxengine.Prelude.Results.{Result, ok, err}
use sandboxengine.Contracts.World.{WorldState, WorldTerminal, has, distinct}
use sandboxengine.Contracts.Value.{schema_version}
use sandboxengine.Contracts.Event.{
  SchedulerEvent, EventPayload, marker, effects, terminal, is_scheduler_event,
}
use sandboxengine.Core.Effects.{EffectBatchFailure, EffectBatchSuccess, try_apply_effect_batch}

-- DEFAULT_MAX_EVENTS_PER_INTERVAL and HARD_MAX_EVENTS_PER_INTERVAL
abbrev pub default_max_events_per_interval : ℤ
default_max_events_per_interval = pos 100

abbrev pub hard_max_events_per_interval : ℤ
hard_max_events_per_interval = pos 1000

pub data TimeAdvanceFailureCode : Type 0 where
  invalid_state already_terminal invalid_duration invalid_options : TimeAdvanceFailureCode
  invalid_event duplicate_event_id past_event clock_overflow : TimeAdvanceFailureCode
  event_limit_exceeded : TimeAdvanceFailureCode

pub record TimeAdvancePlan : Type 0 where
  pub start_elapsed_seconds : ℤ
  pub end_elapsed_seconds : ℤ
  pub due_events : List SchedulerEvent
  pub pending_events : List SchedulerEvent

pub record TimeAdvancePlanFailure : Type 0 where
  pub code : TimeAdvanceFailureCode
  pub event_id : Option Text
  pub due_event_count : Option ℕ
  pub max_events : Option ℤ

abbrev pub TimeAdvancePlanResult : Type 0
TimeAdvancePlanResult = Result TimeAdvancePlanFailure TimeAdvancePlan

abbrev pub plan_failure : TimeAdvanceFailureCode → Option Text → TimeAdvancePlanFailure
plan_failure c e = record { code = c; event_id = e; due_event_count = none; max_events = none }

-- -1, 0 and 1 of the source are lt, eq and gt.
unfoldable pub compare_scheduler_events : SchedulerEvent → SchedulerEvent → Ordering
compare_scheduler_events a b =
    if ltb_ℤ a.at_elapsed_seconds b.at_elapsed_seconds
    then lt
    else if ltb_ℤ b.at_elapsed_seconds a.at_elapsed_seconds
    then gt
    else if ltb_ℤ a.order b.order
    then lt
    else if ltb_ℤ b.order a.order
    then gt
    else if text_lt a.event_id b.event_id
    then lt
    else if text_lt b.event_id a.event_id
    then gt
    else eq

-- compare(a, b) <= 0
unfoldable pub in_order : SchedulerEvent → SchedulerEvent → Bool
in_order a b = elim (compare_scheduler_events a b) [ gt ↦ false | _ ↦ true ]

-- The loop that copies the events: the failure that it returns, if any.
unfoldable pub check_events : ℤ → List Text → List SchedulerEvent → Option TimeAdvancePlanFailure
check_events start seen [] = none
check_events start seen (e ∷ es) =
    let rest = check_events start (e.event_id ∷ seen) es in
    if is_scheduler_event e
    then (if has seen e.event_id
        then some (plan_failure duplicate_event_id (some e.event_id))
        else if ltb_ℤ e.at_elapsed_seconds start
        then some (plan_failure past_event (some e.event_id))
        else rest)
    else some (plan_failure invalid_event none)

abbrev pub is_due : ℤ → SchedulerEvent → Bool
is_due end e = leb_ℤ e.at_elapsed_seconds end

abbrev pub is_pending : ℤ → SchedulerEvent → Bool
is_pending end e = ltb_ℤ end e.at_elapsed_seconds

-- The version, the revision and the clock of a state that the scheduler takes.
unfoldable pub is_schedulable : WorldState → Bool
is_schedulable s =
    text_eq s.schema_version schema_version
    && is_safe_natural s.revision
    && is_safe_natural s.clock.elapsed_seconds

abbrev pub is_terminal : Option WorldTerminal → Bool
is_terminal none = false
is_terminal (some t) = true

abbrev pub is_event_limit : ℤ → Bool
is_event_limit m = is_safe_integer m && leb_ℤ (pos 1) m && leb_ℤ m hard_max_events_per_interval

-- options.maxEvents ?? DEFAULT_MAX_EVENTS_PER_INTERVAL
abbrev pub event_limit : Option ℤ → ℤ
event_limit none = default_max_events_per_interval
event_limit (some m) = m

-- The split of the sorted events at the end of the interval.
unfoldable pub split_events : ℤ → ℤ → ℤ → List SchedulerEvent → TimeAdvancePlanResult
split_events start end limit sorted =
    if ltb_ℤ limit (pos (length (keep (is_due end) sorted)))
    then err (record {
      code = event_limit_exceeded;
      event_id = none;
      due_event_count = some (length (keep (is_due end) sorted));
      max_events = some limit;
    })
    else ok (record {
      start_elapsed_seconds = start;
      end_elapsed_seconds = end;
      due_events = keep (is_due end) sorted;
      pending_events = keep (is_pending end) sorted;
    })

unfoldable pub plan_checked : ℤ → ℤ → ℤ → List SchedulerEvent → TimeAdvancePlanResult
plan_checked start end limit events = elim (check_events start [] events) [
  | some f ↦ err f
  | none ↦ split_events start end limit (sort_by in_order events)
]

unfoldable pub plan_time_advance :
    WorldState → ℤ → List SchedulerEvent → Option ℤ → TimeAdvancePlanResult
plan_time_advance s duration events max_events =
    let start = s.clock.elapsed_seconds in
    let limit = event_limit max_events in
    if not (is_schedulable s)
    then err (plan_failure invalid_state none)
    else if is_terminal s.terminal
    then err (plan_failure already_terminal none)
    else if not (is_safe_natural duration)
    then err (plan_failure invalid_duration none)
    else if not (is_event_limit limit)
    then err (plan_failure invalid_options none)
    else if not (is_safe_integer (start +ℤ duration))
    then err (plan_failure clock_overflow none)
    else plan_checked start (start +ℤ duration) limit events
