-- ===== src/Core/Scheduler/Plan.antt =====
-- What a plan is: the events of the input, sorted and split at the end of the interval; and that it
-- does not depend on the order in which the events were given.
use mathlib.Core.List.{Permᴰ}
use mathlib.Core.List.Permᴰ
use sandboxengine.Prelude.{
  ◌≡◌, ◌≢◌, refl, sym, true, false, not, Option, none, List, [], ◌∷◌, ◌++◌, Option-cases, inl, inr,
  All, keep, length, arith,
}
use sandboxengine.Prelude.Int.{ℤ, pos, ◌+ℤ◌, ◌≤ℤ◌, ltb_ℤ, is_safe_natural, is_safe_integer}
use sandboxengine.Prelude.Text.{Text, text_eq_iff}
use sandboxengine.Prelude.Sort.{sort_by}
use sandboxengine.Prelude.Sorting.{
  Pairs, Before, Strict, All-perm, All-map, All-keep, keep-holds, Pairs-keep, keep-perm, Pairs-perm,
  sort_by-perm, All-sort_by, sort_by-sorted, sort_by-eq_of_perm,
}
use sandboxengine.Prelude.Results.{ok}
use sandboxengine.Contracts.World.{WorldState, has}
use sandboxengine.Contracts.Event.{SchedulerEvent, is_scheduler_event}
use sandboxengine.Core.Scheduler.{
  TimeAdvancePlan, in_order, check_events, is_due, is_pending, split_events, plan_checked,
  plan_time_advance, event_limit, is_schedulable, is_terminal,
}
use sandboxengine.Core.Scheduler.Order.{in_order_total, in_order_trans, in_order_antisymm}

-- What the copying loop checks of an event, and of two events.
abbrev pub IsAdmitted : ℤ → SchedulerEvent → Type 0
IsAdmitted start e = (is_scheduler_event e ≡ true) × (start ≤ℤ e.at_elapsed_seconds)

abbrev pub OtherId : SchedulerEvent → SchedulerEvent → Type 0
OtherId a b = a.event_id ≢ b.event_id

abbrev IsNew : List Text → SchedulerEvent → Type 0
IsNew seen e = has seen e.event_id ≡ false

has-cons :
    (k j : Text) (seen : List Text) → has (k ∷ seen) j ≡ false → (k ≢ j) × (has seen j ≡ false)
unfolding has
has-cons k j seen h = (λ e. ground (arith, text_eq_iff k j), ground arith)

has-cons_other :
    (k j : Text) (seen : List Text) → k ≢ j → has seen j ≡ false → has (k ∷ seen) j ≡ false
unfolding has
has-cons_other k j seen n h = ground (arith, text_eq_iff k j)

All-split :
    (P Q : SchedulerEvent → Type 0) (es : List SchedulerEvent)
    → All (λ e. P e × Q e) es
    → All P es × All Q es
All-split P Q [] h = (tt, tt)
All-split P Q (e ∷ es) h = let (p, q) = All-split P Q es h.1 in ((h.0.0, p), (h.0.1, q))

All-join :
    (P Q : SchedulerEvent → Type 0) (es : List SchedulerEvent)
    → All P es
    → All Q es
    → All (λ e. P e × Q e) es
All-join P Q [] p q = tt
All-join P Q (e ∷ es) p q = ((p.0, q.0), All-join P Q es p.1 q.1)

check_events-none :
    (start : ℤ) (seen : List Text) (es : List SchedulerEvent)
    → check_events start seen es ≡ none
    → All (IsAdmitted start) es × All (IsNew seen) es × Pairs OtherId es
unfolding check_events
check_events-none start seen [] h = (tt, tt, tt)
check_events-none start seen (e ∷ es) h =
    let later : check_events start (e.event_id ∷ seen) es ≡ none = ground arith in
    let (admitted, fresh, pairs) = check_events-none start (e.event_id ∷ seen) es later in
    let (other, new) = All-split (OtherId e) (IsNew seen) es (
      All-map (IsNew (e.event_id ∷ seen)) (λ x. OtherId e x × IsNew seen x)
        (λ x n. has-cons e.event_id x.event_id seen n) es fresh) in
    (((ground arith, ground arith), admitted), (ground arith, new), (other, pairs))

none-check_events :
    (start : ℤ) (seen : List Text) (es : List SchedulerEvent)
    → All (IsAdmitted start) es
    → All (IsNew seen) es
    → Pairs OtherId es
    → check_events start seen es ≡ none
unfolding check_events
none-check_events start seen [] a n p = refl
none-check_events start seen (e ∷ es) a n p =
    let later =
      none-check_events start (e.event_id ∷ seen) es a.1
        (All-map (λ x. OtherId e x × IsNew seen x) (IsNew (e.event_id ∷ seen))
          (λ x t. has-cons_other e.event_id x.event_id seen t.0 t.1) es
          (All-join (OtherId e) (IsNew seen) es p.0 n.1))
        p.1 in
    let valid = a.0.0 in let recent = a.0.1 in let new = n.0 in ground arith

abbrev pub planned : ℤ → ℤ → List SchedulerEvent → TimeAdvancePlan
planned start end sorted = record {
  start_elapsed_seconds = start;
  end_elapsed_seconds = end;
  due_events = keep (is_due end) sorted;
  pending_events = keep (is_pending end) sorted;
}

plan_checked-ok :
    (start end limit : ℤ) (es : List SchedulerEvent) (p : TimeAdvancePlan)
    → plan_checked start end limit es ≡ ok p
    → (check_events start [] es ≡ none)
      × (p ≡ planned start end (sort_by in_order es))
      × (ltb_ℤ limit (pos (length p.due_events)) ≡ false)
unfolding plan_checked split_events
plan_checked-ok start end limit es p h = elim (Option-cases (check_events start [] es)) [
  | inr (f, e) ↦ let bad = rw (e, plan_checked) at h in cc
  | inl e ↦
      let sorted = sort_by in_order es in
      let split : split_events start end limit sorted ≡ ok p = rw (e, plan_checked) at h in
      let same : p ≡ planned start end sorted = ground arith in (e, same, rw same (ground arith))
]

-- The guards of a plan that is made.
pub plan-guards :
    (s : WorldState) (d : ℤ) (es : List SchedulerEvent) (o : Option ℤ) (p : TimeAdvancePlan)
    → plan_time_advance s d es o ≡ ok p
    → (is_schedulable s ≡ true)
      × (is_terminal s.terminal ≡ false)
      × (is_safe_natural d ≡ true)
      × (is_safe_integer (s.clock.elapsed_seconds +ℤ d) ≡ true)
      × (plan_checked s.clock.elapsed_seconds (s.clock.elapsed_seconds +ℤ d) (event_limit o) es
          ≡ ok p)
unfolding plan_time_advance
plan-guards s d es o p h = ground arith

OtherId-Strict : (es : List SchedulerEvent) → Pairs OtherId es → Pairs (Strict in_order) es
OtherId-Strict [] h = tt
OtherId-Strict (e ∷ es) h = (
  All-map (OtherId e) (Strict in_order e) (λ x n k l. n (in_order_antisymm e x k l)) es h.0,
  OtherId-Strict es h.1,
)

-- The plan of some events for an interval.
pub record IsPlanOf (start end : ℤ) (es : List SchedulerEvent) (p : TimeAdvancePlan) : Type 0 where
  pub starts : p.start_elapsed_seconds ≡ start
  pub ends : p.end_elapsed_seconds ≡ end
  pub same_events : Permᴰ (p.due_events ++ p.pending_events) es
  pub due_sorted : Pairs (Before in_order) p.due_events
  pub pending_sorted : Pairs (Before in_order) p.pending_events
  pub due_after_start : All (λ e. start ≤ℤ e.at_elapsed_seconds) p.due_events
  pub due_by_end : All (λ e. is_due end e ≡ true) p.due_events
  pub pending_after_end : All (λ e. is_pending end e ≡ true) p.pending_events

is_pending-not_due : (end : ℤ) (e : SchedulerEvent) → is_pending end e ≡ not (is_due end e)
is_pending-not_due end e = ground arith

IsPlanOf-planned :
    (start end : ℤ) (es : List SchedulerEvent)
    → All (IsAdmitted start) es
    → IsPlanOf start end es (planned start end (sort_by in_order es))
IsPlanOf-planned start end es admitted =
    let sorted = sort_by in_order es in
    let order = sort_by-sorted in_order in_order_total in_order_trans es in
    let in_time : All (λ e. start ≤ℤ e.at_elapsed_seconds) es =
      All-map (IsAdmitted start) (λ e. start ≤ℤ e.at_elapsed_seconds) (λ e t. t.1) es admitted in
    record {
      starts = refl;
      ends = refl;
      same_events =
          Permᴰ.trans (keep-perm (is_due end) (is_pending end) (is_pending-not_due end) sorted)
            (sort_by-perm in_order es);
      due_sorted = Pairs-keep (Before in_order) (is_due end) sorted order;
      pending_sorted = Pairs-keep (Before in_order) (is_pending end) sorted order;
      due_after_start =
          All-keep (λ e. start ≤ℤ e.at_elapsed_seconds) (is_due end) sorted
            (All-sort_by in_order (λ e. start ≤ℤ e.at_elapsed_seconds) es in_time);
      due_by_end = keep-holds (is_due end) sorted;
      pending_after_end = keep-holds (is_pending end) sorted;
    }

-- A plan that is made holds each event of the input once: those up to the end of the interval as due
-- events, none of them before the start, and the later ones as pending events, both sorted; and
-- there are no more due events than the limit allows.
pub plan_time_advance-IsPlanOf :
    (s : WorldState) (d : ℤ) (es : List SchedulerEvent) (o : Option ℤ) (p : TimeAdvancePlan)
    → plan_time_advance s d es o ≡ ok p
    → IsPlanOf s.clock.elapsed_seconds (s.clock.elapsed_seconds +ℤ d) es p
      × (pos (length p.due_events) ≤ℤ event_limit o)
plan_time_advance-IsPlanOf s d es o p h =
    let start = s.clock.elapsed_seconds in
    let end = s.clock.elapsed_seconds +ℤ d in
    let (_, _, _, _, checked) = plan-guards s d es o p h in
    let (good, same, room) = plan_checked-ok start end (event_limit o) es p checked in
    (rw same (IsPlanOf-planned start end es (check_events-none start [] es good).0), ground arith)

check_events-perm :
    (start : ℤ) (xs ys : List SchedulerEvent)
    → Permᴰ xs ys
    → check_events start [] xs ≡ none
    → check_events start [] ys ≡ none
check_events-perm start xs ys perm h =
    let (admitted, fresh, pairs) = check_events-none start [] xs h in
    none-check_events start [] ys (All-perm (IsAdmitted start) perm admitted)
      (All-perm (IsNew []) perm fresh) (Pairs-perm OtherId (λ x y n e. n (sym e)) perm pairs)

plan_checked-perm :
    (start end limit : ℤ) (xs ys : List SchedulerEvent)
    → Permᴰ xs ys
    → check_events start [] xs ≡ none
    → plan_checked start end limit ys ≡ plan_checked start end limit xs
unfolding plan_checked
plan_checked-perm start end limit xs ys perm h =
    let (_, _, pairs) = check_events-none start [] xs h in
    let sorted : sort_by in_order xs ≡ sort_by in_order ys =
      sort_by-eq_of_perm in_order in_order_total in_order_trans perm (OtherId-Strict xs pairs) in
    rw (check_events-perm start xs ys perm h, h, sorted, plan_checked)

-- A plan that is made of some events is made, for the same state, duration and limit, of every
-- permutation of them.
pub plan_time_advance-perm :
    (s : WorldState) (d : ℤ) (xs ys : List SchedulerEvent) (o : Option ℤ) (p : TimeAdvancePlan)
    → Permᴰ xs ys
    → plan_time_advance s d xs o ≡ ok p
    → plan_time_advance s d ys o ≡ ok p
unfolding plan_time_advance
plan_time_advance-perm s d xs ys o p perm h =
    let start = s.clock.elapsed_seconds in
    let end = s.clock.elapsed_seconds +ℤ d in
    let (_, _, _, _, checked) = plan-guards s d xs o p h in
    let (good, _, _) = plan_checked-ok start end (event_limit o) xs p checked in
    rw (plan_checked-perm start end (event_limit o) xs ys perm good, plan_time_advance) h

-- A plan is the plan of its own events.
pub plan_time_advance_idem :
    (s : WorldState) (d : ℤ) (es : List SchedulerEvent) (o : Option ℤ) (p : TimeAdvancePlan)
    → plan_time_advance s d es o ≡ ok p
    → plan_time_advance s d (p.due_events ++ p.pending_events) o ≡ ok p
plan_time_advance_idem s d es o p h =
    plan_time_advance-perm s d es (p.due_events ++ p.pending_events) o p
      (Permᴰ.symm (plan_time_advance-IsPlanOf s d es o p h).0.same_events) h

-- The events of a plan have passed the checks of the copying loop.
pub plan_checked-admits :
    (start end limit : ℤ) (es : List SchedulerEvent) (p : TimeAdvancePlan)
    → plan_checked start end limit es ≡ ok p
    → All (IsAdmitted start) es × Pairs OtherId es
plan_checked-admits start end limit es p h =
    let (good, _, _) = plan_checked-ok start end limit es p h in
    let (admitted, _, pairs) = check_events-none start [] es good in (admitted, pairs)
