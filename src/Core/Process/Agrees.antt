-- ===== src/Core/Process/Agrees.antt =====
-- `processTimeAdvancePlan` without a handler agrees with `applyTimeAdvancePlan`.
use sandboxengine.Prelude.{◌≡◌, refl, sym, true, false, none, some, ◌++◌, inl, inr, arith}
use sandboxengine.Prelude.Int.{pos, pos_part, ◌-ℤ◌, eqb_ℤ, max_safe_integer}
use sandboxengine.Prelude.Results.{ok, Result-cases, ok-injective}
use sandboxengine.Contracts.World.{WorldState}
use sandboxengine.Core.Scheduler.{
  TimeAdvancePlan, is_schedulable, is_terminal, hard_max_events_per_interval,
}
use sandboxengine.Core.Scheduler.Plan.{plan_time_advance-IsPlanOf}
use sandboxengine.Core.Advance.{
  TimeAdvanceApplySuccess, LoopEnd, apply_time_advance_plan, finish_apply,
}
use sandboxengine.Core.Advance.Shape.{plan_time_advance-is_valid_plan_shape}
use sandboxengine.Core.Process.{
  Processing, SchedulerProcessingOptions, SchedulerProcessingSuccess, process_from, in_queue_order,
}
use sandboxengine.Core.Process.Start.{
  process_time_advance_plan, start_processing, finish_processing, scheduler_limit, number_events,
}
use sandboxengine.Core.Process.Promise.{process-guards, matches_canonical_plan-eq}
use sandboxengine.Core.Process.Static.{
  IsSameEnd, process_from-static, sort_by-of_Pairs, number_events-sorted,
}

process-checks :
    (s : WorldState) (p : TimeAdvancePlan) (o : SchedulerProcessingOptions)
    (r : SchedulerProcessingSuccess)
    → process_time_advance_plan s p o ≡ ok r
    → (is_schedulable s ≡ true)
      × (is_terminal s.terminal ≡ false)
      × (eqb_ℤ p.start_elapsed_seconds s.clock.elapsed_seconds ≡ true)
      × (eqb_ℤ s.revision (pos max_safe_integer) ≡ false)
unfolding process_time_advance_plan
process-checks s p o r h = ground arith

-- Two successes with the same fields, the processed entries aside.
pub record Agrees (r : SchedulerProcessingSuccess) (a : TimeAdvanceApplySuccess) : Type 0 where
  pub same_state : r.state ≡ a.state
  pub same_applied : r.applied_events ≡ a.applied_events
  pub same_pending : r.pending_events ≡ a.pending_events
  pub same_interrupted : r.interrupted ≡ a.interrupted
  pub same_interruption : r.interruption_event_id ≡ a.interruption_event_id
  pub same_unprocessed : r.unprocessed_events ≡ a.unprocessed_events

finished-Agrees :
    (s : WorldState) (p : TimeAdvancePlan) (q : Processing) (l : LoopEnd)
    (r : SchedulerProcessingSuccess)
    → IsSameEnd p.pending_events q l
    → finish_processing s p.end_elapsed_seconds (ok q) ≡ ok r
    → (a : TimeAdvanceApplySuccess) × (finish_apply s p (ok l) ≡ ok a) × Agrees r a
finished-Agrees s p q l r same h = rw (sym (ok-injective h)) (
  _,
  refl,
  record {
    same_state = rw (same.same_state, same.same_interruption) refl;
    same_applied = same.same_applied;
    same_pending = same.same_pending;
    same_interrupted = rw same.same_interruption refl;
    same_interruption = rw same.same_interruption refl;
    same_unprocessed = same.same_unprocessed;
  },
)

-- A plan that is processed without a handler is applied by `applyTimeAdvancePlan` as well, with the
-- same state, applied, pending and unprocessed events, and interruption.
pub process_time_advance_plan-Agrees :
    (s : WorldState) (p : TimeAdvancePlan) (o : SchedulerProcessingOptions)
    (r : SchedulerProcessingSuccess)
    → o.handler ≡ none
    → process_time_advance_plan s p o ≡ ok r
    → (a : TimeAdvanceApplySuccess) × (apply_time_advance_plan s p ≡ ok a) × Agrees r a
unfolding start_processing apply_time_advance_plan
process_time_advance_plan-Agrees s p o r still h =
    let (canonical, _, _, _, ran) = process-guards s p o r h in
    let (schedulable, live, here, room) = process-checks s p o r h in
    let end = p.end_elapsed_seconds in
    let duration = end -ℤ p.start_elapsed_seconds in
    let given = p.due_events ++ p.pending_events in
    let planned = matches_canonical_plan-eq s p canonical in
    let (plan, _) =
      plan_time_advance-IsPlanOf s duration given (some hard_max_events_per_interval) p planned in
    let shape =
      plan_time_advance-is_valid_plan_shape s duration given (some hard_max_events_per_interval) p
        planned in
    let events = scheduler_limit o.max_events in
    let steps = pos_part (scheduler_limit o.max_steps) in
    let first = start_processing s p in
    let queued : first.queue ≡ number_events 0 p.due_events =
      sort_by-of_Pairs in_queue_order (number_events 0 p.due_events)
        (number_events-sorted 0 p.due_events plan.due_sorted) in
    elim (Result-cases (process_from o.handler end events steps first)) [
      | inr (f, e) ↦ let bad = rw e at ran in cc
      | inl (q, e) ↦
          let (l, run, same) =
            process_from-static end events steps 0 0 p.due_events first q plan.due_sorted queued
              refl refl (rw still at e) in
          let (a, done, agrees) = finished-Agrees s p q l r same (rw e at ran) in
          (a, rw (apply_time_advance_plan, schedulable, live, shape, here, room, run) done, agrees)
    ]
