-- ===== src/Core/Process/Static.antt =====
-- Without a handler, processing a plan is applying it.
use mathlib.Core.Path.{subst}
use sandboxengine.Prelude.{
  ℕ, zero, suc, ◌≤◌, ◌≡◌, refl, sym, ap, ◌∙◌, Bool, true, false, none, some, List, [], ◌∷◌, ◌++◌,
  All, arith, Bool-cases, inl, inr, ◌⊎◌,
}
use sandboxengine.Prelude.Int.{ℤ}
use sandboxengine.Prelude.Sort.{sort_by, insert_by}
use sandboxengine.Prelude.Sorting.{Pairs, Before}
use sandboxengine.Contracts.Event.{SchedulerEvent}
use sandboxengine.Core.Scheduler.{compare_scheduler_events, in_order}
use sandboxengine.Contracts.World.{WorldState}
use sandboxengine.Core.Advance.{LoopEnd, apply_event, apply_due, is_interruption}
use sandboxengine.Prelude.Results.{ok, Result-cases, ok-injective}
use sandboxengine.Core.Process.{
  QueueEntry, Processing, in_queue_order, process_entry, process_from, handle, interrupt,
  take_entry, queue_events,
}
use sandboxengine.Core.Process.Outcome.{process_from-step, process_from-end, process_from-no_step}
use sandboxengine.Core.Process.Start.{number_events}

insert_by-first :
    {A : Type 0} (le : A → A → Bool) (x : A) (xs : List A)
    → All (Before le x) xs
    → insert_by le x xs ≡ x ∷ xs
insert_by-first le x [] h = refl
insert_by-first le x (y ∷ ys) h = rw h.0 refl

pub sort_by-of_Pairs :
    {A : Type 0} (le : A → A → Bool) (xs : List A) → Pairs (Before le) xs → sort_by le xs ≡ xs
sort_by-of_Pairs le [] h = refl
sort_by-of_Pairs le (x ∷ xs) h = rw (sort_by-of_Pairs le xs h.1) (insert_by-first le x xs h.0)

abbrev numbered : SchedulerEvent → ℕ → QueueEntry
numbered e n = record { event = e; effective_order = e.order; sequence = n }

numbered-in_queue_order :
    (a b : SchedulerEvent) (m n : ℕ)
    → in_order a b ≡ true
    → m ≤ n
    → in_queue_order (numbered a m) (numbered b n) ≡ true
unfolding in_order compare_scheduler_events in_queue_order
numbered-in_queue_order a b m n h k = ground arith

number_events-after :
    (e : SchedulerEvent) (m n : ℕ) (es : List SchedulerEvent)
    → m ≤ n
    → All (Before in_order e) es
    → All (Before in_queue_order (numbered e m)) (number_events n es)
unfolding number_events
number_events-after e m n [] k h = tt
number_events-after e m n (x ∷ es) k h =
    (numbered-in_queue_order e x m n h.0 k, number_events-after e m (suc n) es (omega arith) h.1)

pub number_events-sorted :
    (n : ℕ) (es : List SchedulerEvent)
    → Pairs (Before in_order) es
    → Pairs (Before in_queue_order) (number_events n es)
unfolding number_events
number_events-sorted n [] h = tt
number_events-sorted n (e ∷ es) h =
    (number_events-after e n (suc n) es (omega arith) h.0, number_events-sorted (suc n) es h.1)

queue_events-number_events :
    (n : ℕ) (es : List SchedulerEvent) → queue_events (number_events n es) ≡ es
unfolding number_events
queue_events-number_events n [] = refl
queue_events-number_events n (e ∷ es) = ap (◌∷◌ e) (queue_events-number_events (suc n) es)

-- One round without a handler.
process_entry-static :
    (end limit : ℤ) (p : Processing) (e : QueueEntry) (rest : List QueueEntry)
    (r : Processing × Bool)
    → process_entry none end limit p e rest ≡ ok r
    → (s : WorldState) × (apply_event p.trial e.event.payload ≡ ok s)
      × ((is_interruption e.event.payload ≡ true) × (r ≡ (interrupt p e rest s, false))
          ⊎ (is_interruption e.event.payload ≡ false) × (r ≡ (take_entry p e rest s, true)))
unfolding process_entry handle
process_entry-static end limit p e rest r h =
    elim (Result-cases (apply_event p.trial e.event.payload)) [
      | inr (f, x) ↦ let bad = rw (x, process_entry) at h in cc
      | inl (s, x) ↦ elim (Bool-cases (is_interruption e.event.payload)) [
        | inl t ↦ (s, x, inl (t, sym (ok-injective (rw (x, t, process_entry) at h))))
        | inr t ↦ (s, x, inr (t, sym (ok-injective (rw (x, t, process_entry, handle) at h))))
      ]
    ]

-- The variables of the two loops when they are left.
pub record IsSameEnd (pending : List SchedulerEvent) (p : Processing) (l : LoopEnd) : Type 0 where
  pub same_state : p.trial ≡ l.state
  pub same_applied : p.applied ≡ l.applied
  pub same_interruption : p.interruption ≡ l.interruption
  pub same_unprocessed : p.unprocessed ≡ l.unprocessed
  pub same_pending : p.pending ≡ pending

pub process_from-static :
    (end limit : ℤ) (left n i : ℕ) (es : List SchedulerEvent) (p p' : Processing)
    → Pairs (Before in_order) es
    → p.queue ≡ number_events n es
    → p.interruption ≡ none
    → p.unprocessed ≡ []
    → process_from none end limit left p ≡ ok p'
    → (l : LoopEnd) × (apply_due i p.trial p.applied es ≡ ok l) × IsSameEnd p.pending p' l
unfolding number_events apply_due
process_from-static end limit left n i [] p p' sorted q a u h =
    let l : LoopEnd = record {
      state = p.trial;
      applied = p.applied;
      interruption = none;
      unprocessed = [];
    } in
    let here : IsSameEnd p.pending p l = record {
      same_state = refl;
      same_applied = refl;
      same_interruption = a;
      same_unprocessed = u;
      same_pending = refl;
    } in
    (
      l,
      refl,
      subst (λ z. IsSameEnd p.pending z l) (process_from-end end limit none left p p' q h) here,
    )
process_from-static end limit zero n i (e ∷ es) p p' sorted q a u h =
    absurd (process_from-no_step end limit none p p' (numbered e n) (number_events (suc n) es) q h)
process_from-static end limit (suc left) n i (e ∷ es) p p' sorted q a u h =
    let entry = numbered e n in
    let rest = number_events (suc n) es in
    let (r, done, next) = process_from-step end limit none left p p' entry rest q h in
    let (s, x, way) = process_entry-static end limit p entry rest r done in
    elim way [
      | inl (t, eq) ↦ elim next [
        | inl (more, _) ↦ let bad = rw eq at more in cc
        | inr (_, same) ↦
            let l : LoopEnd = record {
              state = s;
              applied = p.applied ++ e ∷ [];
              interruption = some e;
              unprocessed = es;
            } in
            let left_over : queue_events (sort_by in_queue_order rest) ≡ es =
              ap queue_events
                (sort_by-of_Pairs in_queue_order rest (number_events-sorted (suc n) es sorted.1))
              ∙ queue_events-number_events (suc n) es in
            let here : IsSameEnd p.pending (interrupt p entry rest s) l = record {
              same_state = refl;
              same_applied = refl;
              same_interruption = refl;
              same_unprocessed = left_over;
              same_pending = refl;
            } in
            (
              l,
              rw (apply_due, x, t) refl,
              subst (λ z. IsSameEnd p.pending z l) (ap (λ z. z.0) (sym eq) ∙ same) here,
            )
      ]
      | inr (t, eq) ↦ elim next [
        | inr (over, _) ↦ let bad = rw eq at over in cc
        | inl (_, more) ↦
            let (l, run, same) =
              process_from-static end limit left (suc n) (suc i) es (take_entry p entry rest s) p'
                sorted.1 refl a u (rw eq at more) in
            (l, rw (apply_due, x, t) run, same)
      ]
    ]
