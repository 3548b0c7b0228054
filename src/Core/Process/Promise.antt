-- ===== src/Core/Process/Promise.antt =====
-- What `processTimeAdvancePlan` guarantees of a success, whatever the handler does.
use mathlib.Core.Path.{subst}
use sandboxengine.Prelude.{
  ℕ, suc, ◌+◌, ◌≡◌, refl, sym, ap, ◌∙◌, true, false, some, List, [], ◌∷◌, ◌++◌, length, All, arith,
  inl, inr, length-append,
}
use sandboxengine.Prelude.Int.{ℤ, pos, ◌+ℤ◌, ◌-ℤ◌, pos_part, ◌≤ℤ◌, ◌<ℤ◌, ltb_ℤ, leb_ℤ}
use sandboxengine.Prelude.Sorting.{Pairs, All-map, All-sort_by, sort_by-sorted}
use sandboxengine.Prelude.Results.{ok, Result-cases, ok-injective}
use sandboxengine.Contracts.World.{WorldState}
use sandboxengine.Contracts.Event.{SchedulerEvent}
use sandboxengine.Core.Scheduler.{
  TimeAdvancePlan, plan_time_advance, hard_max_events_per_interval, is_due, is_pending,
}
use sandboxengine.Core.Scheduler.Plan.{IsPlanOf, plan_time_advance-IsPlanOf}
use sandboxengine.Core.Process.{
  Processing, SchedulerProcessingOptions, SchedulerProcessingSuccess, process_from, in_queue_order,
}
use sandboxengine.Core.Process.Start.{
  process_time_advance_plan, scheduler_limit, start_processing, matches_canonical_plan,
  number_events, finish_processing, are_scheduler_limits, plan_discrete, is_yes,
}
use sandboxengine.Core.Process.Queue.{in_queue_order_total, in_queue_order_trans}
use sandboxengine.Core.Process.Account.{IsRunning, InTime, at, length-sort_by}
use sandboxengine.Core.Process.Run.{IsDone}
use sandboxengine.Core.Process.Outcome.{process_from-IsWithin}

is_yes-holds : {A : Type 0} (d : Dec A) → is_yes d ≡ true → A
is_yes-holds (yes a) h = a
is_yes-holds (no n) h = cc

-- A plan that is accepted is the one that the planner makes of its own events.
pub matches_canonical_plan-eq :
    (s : WorldState) (p : TimeAdvancePlan)
    → matches_canonical_plan s p ≡ true
    → plan_time_advance s
        (p.end_elapsed_seconds -ℤ p.start_elapsed_seconds)
        (p.due_events ++ p.pending_events)
        (some hard_max_events_per_interval)
      ≡ ok p
unfolding matches_canonical_plan
matches_canonical_plan-eq s p h =
    elim (Result-cases (
      plan_time_advance s (p.end_elapsed_seconds -ℤ p.start_elapsed_seconds)
        (p.due_events ++ p.pending_events) (some hard_max_events_per_interval))) [
          | inr (f, e) ↦ let bad = rw (e, matches_canonical_plan) at h in cc
          | inl (q, e) ↦
              e ∙ ap ok (is_yes-holds (plan_discrete q p) (rw (e, matches_canonical_plan) at h))
        ]

All-number_events :
    (P : SchedulerEvent → Type 0) (n : ℕ) (es : List SchedulerEvent)
    → All P es
    → All (λ x. P x.event) (number_events n es)
unfolding number_events
All-number_events P n [] h = tt
All-number_events P n (e ∷ es) h = (h.0, All-number_events P (suc n) es h.1)

length-number_events : (n : ℕ) (es : List SchedulerEvent) → length (number_events n es) ≡ length es
unfolding number_events
length-number_events n [] = refl
length-number_events n (e ∷ es) = ap suc (length-number_events (suc n) es)

-- What the guards let through.
pub process-guards :
    (s : WorldState) (p : TimeAdvancePlan) (o : SchedulerProcessingOptions)
    (r : SchedulerProcessingSuccess)
    → process_time_advance_plan s p o ≡ ok r
    → (matches_canonical_plan s p ≡ true)
      × (leb_ℤ p.start_elapsed_seconds p.end_elapsed_seconds ≡ true)
      × (are_scheduler_limits (scheduler_limit o.max_steps) (scheduler_limit o.max_events) ≡ true)
      × (ltb_ℤ (scheduler_limit o.max_events) (pos (length (p.due_events ++ p.pending_events)))
          ≡ false)
      × (finish_processing s p.end_elapsed_seconds (
            process_from o.handler p.end_elapsed_seconds
              (scheduler_limit o.max_events)
              (pos_part (scheduler_limit o.max_steps))
              (start_processing s p))
          ≡ ok r)
unfolding process_time_advance_plan
process-guards s p o r h = ground arith

start_processing-IsRunning :
    (s : WorldState) (p : TimeAdvancePlan) (limit : ℤ)
    → IsPlanOf s.clock.elapsed_seconds p.end_elapsed_seconds (p.due_events ++ p.pending_events) p
    → ltb_ℤ limit (pos (length (p.due_events ++ p.pending_events))) ≡ false
    → IsRunning s.clock.elapsed_seconds p.end_elapsed_seconds limit s.clock.elapsed_seconds 0
        (start_processing s p)
unfolding start_processing
start_processing-IsRunning s p limit plan room =
    let start = s.clock.elapsed_seconds in
    let end = p.end_elapsed_seconds in
    let numbered = number_events 0 p.due_events in
    record {
      taken = refl;
      none_left = refl;
      counts = omega (
        arith,
        length-sort_by in_queue_order numbered,
        length-number_events 0 p.due_events,
        length-append p.due_events p.pending_events,
      );
      room = ground arith;
      past = tt;
      past_sorted = tt;
      future =
          All-sort_by in_queue_order (λ e. (start ≤ℤ at e) × (at e ≤ℤ end)) numbered
            (All-number_events
              (λ e. (start ≤ℤ e.at_elapsed_seconds) × (e.at_elapsed_seconds ≤ℤ end)) 0 p.due_events
              (in_interval start end p.due_events plan.due_after_start plan.due_by_end));
      queue_sorted =
          sort_by-sorted in_queue_order in_queue_order_total in_queue_order_trans numbered;
      later =
          All-map (λ e. is_pending end e ≡ true) (λ e. end <ℤ e.at_elapsed_seconds)
            (λ e h. ground arith) p.pending_events plan.pending_after_end;
    }
  where
    in_interval :
        (start end : ℤ) (es : List SchedulerEvent)
        → All (λ e. start ≤ℤ e.at_elapsed_seconds) es
        → All (λ e. is_due end e ≡ true) es
        → All (λ e. (start ≤ℤ e.at_elapsed_seconds) × (e.at_elapsed_seconds ≤ℤ end)) es
    in_interval start end [] h k = tt
    in_interval start end (e ∷ es) h k =
        ((h.0, ground (arith, k.0)), in_interval start end es h.1 k.1)

-- The promise of a success for a state, a plan and some options.
pub record IsProcessed (s : WorldState) (p : TimeAdvancePlan) (o : SchedulerProcessingOptions)
    (r : SchedulerProcessingSuccess) : Type 0 where
  pub planned :
      plan_time_advance s
        (p.end_elapsed_seconds -ℤ p.start_elapsed_seconds)
        (p.due_events ++ p.pending_events)
        (some hard_max_events_per_interval)
      ≡ ok p
  pub steps : pos (length r.processed_events) ≤ℤ scheduler_limit o.max_steps
  pub events :
      pos (length r.processed_events + (length r.unprocessed_events + length r.pending_events))
      ≤ℤ scheduler_limit o.max_events
  pub in_interval :
      All
        (λ e. (s.clock.elapsed_seconds ≤ℤ at e) × (at e ≤ℤ p.end_elapsed_seconds))
        r.processed_events
  pub in_time : Pairs InTime r.processed_events
  pub left_over :
      All
        (λ u.
          (u.at_elapsed_seconds ≤ℤ p.end_elapsed_seconds)
          × All (λ e. at e ≤ℤ u.at_elapsed_seconds) r.processed_events)
        r.unprocessed_events
  pub later : All (λ e. p.end_elapsed_seconds <ℤ e.at_elapsed_seconds) r.pending_events
  pub next_revision : r.state.revision ≡ s.revision +ℤ pos 1

IsProcessed-of_loop :
    (s : WorldState) (p : TimeAdvancePlan) (o : SchedulerProcessingOptions) (q : Processing)
    (r : SchedulerProcessingSuccess)
    → plan_time_advance s
        (p.end_elapsed_seconds -ℤ p.start_elapsed_seconds)
        (p.due_events ++ p.pending_events)
        (some hard_max_events_per_interval)
      ≡ ok p
    → IsDone s.clock.elapsed_seconds p.end_elapsed_seconds (scheduler_limit o.max_events) q
    → pos (length q.processed) ≤ℤ scheduler_limit o.max_steps
    → finish_processing s p.end_elapsed_seconds (ok q) ≡ ok r
    → IsProcessed s p o r
IsProcessed-of_loop s p o q r planned done steps h = rw (sym (ok-injective h)) (record {
  planned = planned;
  steps = steps;
  events = omega (arith, done.counts, done.room);
  in_interval = done.past;
  in_time = done.past_sorted;
  left_over = done.left_over;
  later = done.later;
  next_revision = refl;
})

-- A plan that is processed, with any handler that may add events, is the one that the planner makes
-- of its own events; no more rounds were made than maxSteps, and the events that were processed, left
-- over or kept for later are no more than maxEvents; the processed events lie in the interval and are
-- in the order of time; the events left over by a terminal event are not before any processed event
-- and not after the end; the pending events are after the end; the revision has grown by one.
pub process_time_advance_plan-IsProcessed :
    (s : WorldState) (p : TimeAdvancePlan) (o : SchedulerProcessingOptions)
    (r : SchedulerProcessingSuccess)
    → process_time_advance_plan s p o ≡ ok r
    → IsProcessed s p o r
process_time_advance_plan-IsProcessed s p o r h =
    let (canonical, forward, limits, room, ran) = process-guards s p o r h in
    let planned = matches_canonical_plan-eq s p canonical in
    let made =
      (plan_time_advance-IsPlanOf s (p.end_elapsed_seconds -ℤ p.start_elapsed_seconds)
        (p.due_events ++ p.pending_events) (some hard_max_events_per_interval) p planned).0 in
    let plan =
      subst (λ end. IsPlanOf s.clock.elapsed_seconds end (p.due_events ++ p.pending_events) p)
        (sym made.ends) made in
    let run = start_processing-IsRunning s p (scheduler_limit o.max_events) plan room in
    let start = s.clock.elapsed_seconds in
    let end = p.end_elapsed_seconds in
    let max_steps = scheduler_limit o.max_steps in
    let max_events = scheduler_limit o.max_events in
    let forward' : leb_ℤ start end ≡ true = rw made.starts at forward in
    elim (Result-cases
      (process_from o.handler end max_events (pos_part max_steps) (start_processing s p))) [
        | inr (f, e) ↦ let bad = rw e at ran in cc
        | inl (q, e) ↦
            let within =
              process_from-IsWithin start end max_events start 0 o.handler (pos_part max_steps)
                (start_processing s p) q (omega arith) (ground arith) run e in
            IsProcessed-of_loop s p o q r planned within.0 (ground (arith, within.1)) (rw e at ran)
      ]
