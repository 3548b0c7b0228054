-- ===== src/Core/Advance/Shape.antt =====
-- A plan that the planner makes is accepted: applying it can only fail for the revision or an effect.
use mathlib.Core.List.Permᴰ
use sandboxengine.Prelude.{
  ℕ, suc, ◌≡◌, ◌≢◌, refl, sym, ap, ◌∙◌, Bool, true, false, ◌&&◌, ◌⊎◌, inl, inr, Option, List, [],
  ◌∷◌, ◌++◌, All, all, Bool-cases, arith,
}
use sandboxengine.Prelude.Int.{
  ℤ, pos, negsuc, ◌+ℤ◌, leb_ℤ, eqb_ℤ, ◌≤ℤ◌, is_safe_natural, is_safe_integer, max_safe_integer,
}
use sandboxengine.Prelude.Text.{Text, text_eq_iff}
use sandboxengine.Prelude.Sorting.{Pairs, Before, All-perm, All-map, Pairs-perm}
use sandboxengine.Prelude.Results.{ok, err, Result-cases, err-injective}
use sandboxengine.Contracts.World.{WorldState, has, distinct}
use sandboxengine.Contracts.Event.{SchedulerEvent, is_scheduler_event}
use sandboxengine.Core.Scheduler.{
  TimeAdvancePlan, in_order, plan_time_advance, is_due, is_pending, is_schedulable, event_limit,
}
use sandboxengine.Core.Scheduler.Plan.{
  IsAdmitted, OtherId, plan-guards, plan_checked-admits, plan_time_advance-IsPlanOf,
}
use sandboxengine.Core.Advance.{
  is_valid_plan_shape, is_sorted, event_ids, apply_time_advance_plan, TimeAdvanceApplyFailure,
  apply_due, apply_event, is_interruption, finish_apply, revision_overflow, event_effect_failed,
}

all-of_All :
    (p : SchedulerEvent → Bool) (es : List SchedulerEvent)
    → All (λ e. p e ≡ true) es
    → all p es ≡ true
all-of_All p [] h = refl
all-of_All p (e ∷ es) h = rw h.0 (all-of_All p es h.1)

is_sorted-of_Pairs : (es : List SchedulerEvent) → Pairs (Before in_order) es → is_sorted es ≡ true
unfolding is_sorted
is_sorted-of_Pairs [] h = refl
is_sorted-of_Pairs (a ∷ []) h = refl
is_sorted-of_Pairs (a ∷ b ∷ es) h = rw h.0.0 (is_sorted-of_Pairs (b ∷ es) h.1)

has-event_ids :
    (k : Text) (es : List SchedulerEvent)
    → All (λ e. k ≢ e.event_id) es
    → has (event_ids es) k ≡ false
unfolding has
has-event_ids k [] h = refl
has-event_ids k (e ∷ es) h =
    let other = h.0 in
    ground
      (arith, has-event_ids k es h.1, text_eq_iff e.event_id k, λ (p : e.event_id ≡ k). h.0 (sym p))

distinct-of_Pairs : (es : List SchedulerEvent) → Pairs OtherId es → distinct (event_ids es) ≡ true
unfolding distinct
distinct-of_Pairs [] h = refl
distinct-of_Pairs (e ∷ es) h = rw (has-event_ids e.event_id es h.0) (distinct-of_Pairs es h.1)

safe_sum :
    (a b : ℤ)
    → is_safe_natural a ≡ true
    → is_safe_natural b ≡ true
    → is_safe_integer (a +ℤ b) ≡ true
    → (is_safe_natural (a +ℤ b) ≡ true) × (leb_ℤ a (a +ℤ b) ≡ true)
unfolding ◌+ℤ◌
safe_sum (pos m) (pos n) h k l = ground arith
safe_sum (pos m) (negsuc n) h k l = ground arith
safe_sum (negsuc m) b h k l = ground arith

interval_safe :
    (s : WorldState) (d : ℤ)
    → is_schedulable s ≡ true
    → is_safe_natural d ≡ true
    → is_safe_integer (s.clock.elapsed_seconds +ℤ d) ≡ true
    → (is_safe_natural s.clock.elapsed_seconds ≡ true)
      × (is_safe_natural (s.clock.elapsed_seconds +ℤ d) ≡ true)
      × (leb_ℤ s.clock.elapsed_seconds (s.clock.elapsed_seconds +ℤ d) ≡ true)
unfolding is_schedulable
interval_safe s d h k l =
    let start : is_safe_natural s.clock.elapsed_seconds ≡ true = ground arith in
    let (safe, ordered) = safe_sum s.clock.elapsed_seconds d start k l in (start, safe, ordered)

and_ten :
    {a b c d e f g h i j : Bool}
    → a ≡ true
    → b ≡ true
    → c ≡ true
    → d ≡ true
    → e ≡ true
    → f ≡ true
    → g ≡ true
    → h ≡ true
    → i ≡ true
    → j ≡ true
    → (a && b && c && d && e && f && g && h && i && j) ≡ true
and_ten p q r s t u v w x y = rw (p, q, r, s, t, u, v, w, x, y)

-- The loop of the application fails for an effect only.
apply_due-code :
    (es : List SchedulerEvent) (i : ℕ) (s : WorldState) (applied : List SchedulerEvent)
    (f : TimeAdvanceApplyFailure)
    → apply_due i s applied es ≡ err f
    → f.code ≡ event_effect_failed
unfolding apply_due
apply_due-code [] i s applied f h = cc
apply_due-code (e ∷ es) i s applied f h = elim (Result-cases (apply_event s e.payload)) [
  | inr (g, x) ↦ ap (λ f. f.code) (sym (err-injective (rw (x, apply_due) at h)))
  | inl (s', x) ↦ elim (Bool-cases (is_interruption e.payload)) [
    | inl t ↦ let bad = rw (x, t, apply_due) at h in cc
    | inr t ↦ apply_due-code es (suc i) s' (applied ++ e ∷ []) f (rw (x, t, apply_due) at h)
  ]
]

-- Every plan that the planner makes passes the check of a plan's shape.
pub plan_time_advance-is_valid_plan_shape :
    (s : WorldState) (d : ℤ) (es : List SchedulerEvent) (o : Option ℤ) (p : TimeAdvancePlan)
    → plan_time_advance s d es o ≡ ok p
    → is_valid_plan_shape p ≡ true
unfolding is_valid_plan_shape
plan_time_advance-is_valid_plan_shape s d es o p h =
    let (schedulable, _, duration, safe_end, checked) = plan-guards s d es o p h in
    let (k, _) = plan_time_advance-IsPlanOf s d es o p h in
    let (admitted, pairs) =
      plan_checked-admits s.clock.elapsed_seconds (s.clock.elapsed_seconds +ℤ d) (event_limit o) es
        p checked in
    let valid = all-of_All is_scheduler_event (p.due_events ++ p.pending_events) (
      All-perm (λ e. is_scheduler_event e ≡ true) (Permᴰ.symm k.same_events)
        (All-map (IsAdmitted s.clock.elapsed_seconds) (λ e. is_scheduler_event e ≡ true)
          (λ e t. t.0) es admitted)) in
    let ids =
      distinct-of_Pairs (p.due_events ++ p.pending_events)
        (Pairs-perm OtherId (λ x y n e. n (sym e)) (Permᴰ.symm k.same_events) pairs) in
    let start = s.clock.elapsed_seconds in
    let (safe_start, safe, ordered) = interval_safe s d schedulable duration safe_end in
    let starts : is_safe_natural p.start_elapsed_seconds ≡ true = rw k.starts safe_start in
    let ends : is_safe_natural p.end_elapsed_seconds ≡ true = rw k.ends safe in
    let forward : leb_ℤ p.start_elapsed_seconds p.end_elapsed_seconds ≡ true =
      rw (k.starts, k.ends) ordered in
    let after_start : all (λ e. leb_ℤ p.start_elapsed_seconds e.at_elapsed_seconds) p.due_events
        ≡ true =
      rw k.starts (
        all-of_All (λ e. leb_ℤ start e.at_elapsed_seconds) p.due_events
          (All-map (λ e. start ≤ℤ e.at_elapsed_seconds)
            (λ e. leb_ℤ start e.at_elapsed_seconds ≡ true) (λ e t. ground arith) p.due_events
            k.due_after_start)) in
    let by_end : all (is_due p.end_elapsed_seconds) p.due_events ≡ true =
      rw k.ends (all-of_All (is_due (start +ℤ d)) p.due_events k.due_by_end) in
    let after_end : all (is_pending p.end_elapsed_seconds) p.pending_events ≡ true =
      rw k.ends (all-of_All (is_pending (start +ℤ d)) p.pending_events k.pending_after_end) in
    and_ten starts ends forward valid ids after_start by_end after_end
      (is_sorted-of_Pairs p.due_events k.due_sorted)
      (is_sorted-of_Pairs p.pending_events k.pending_sorted)

-- A plan that is applied to the state that it was made for can fail only because the revision is the
-- largest safe integer, or with the failure of the loop over its due events.
pub apply_planned :
    (s : WorldState) (d : ℤ) (es : List SchedulerEvent) (o : Option ℤ) (p : TimeAdvancePlan)
    → plan_time_advance s d es o ≡ ok p
    → (f : TimeAdvanceApplyFailure) → apply_time_advance_plan s p ≡ err f
    → ((f.code ≡ revision_overflow) × (s.revision ≡ pos max_safe_integer))
      ⊎ ((f.code ≡ event_effect_failed) × (apply_due 0 s [] p.due_events ≡ err f))
unfolding apply_time_advance_plan
apply_planned s d es o p h f a =
    let (schedulable, live, _, _, _) = plan-guards s d es o p h in
    let shape = plan_time_advance-is_valid_plan_shape s d es o p h in
    let starts : eqb_ℤ p.start_elapsed_seconds s.clock.elapsed_seconds ≡ true =
      rw (plan_time_advance-IsPlanOf s d es o p h).0.starts (ground arith) in
    elim (Bool-cases (eqb_ℤ s.revision (pos max_safe_integer))) [
      | inl full ↦ inl (ground arith, ground arith)
      | inr room ↦
          let ran : finish_apply s p (apply_due 0 s [] p.due_events) ≡ err f = ground arith in
          elim (Result-cases (apply_due 0 s [] p.due_events)) [
            | inl (l, e) ↦ let bad = rw e at ran in cc
            | inr (g, e) ↦
                let same : g ≡ f = err-injective (rw e at ran) in
                inr (rw (← same) (apply_due-code p.due_events 0 s [] g e), e ∙ ap err same)
          ]
    ]
