-- ===== src/Core/Advance/Run.antt =====
-- What `applyTimeAdvancePlan` does with a state and a plan.
use sandboxengine.Prelude.{
  ◌≡◌, refl, sym, ap, ◌∙◌, true, false, Option, none, some, List, [], ◌∷◌, ◌++◌, inl, inr, arith,
}
use sandboxengine.Prelude.Int.{ℤ, pos, ◌+ℤ◌}
use sandboxengine.Prelude.Results.{ok, Result-cases, ok-injective}
use sandboxengine.Contracts.World.{WorldState, WorldTerminal, has_valid_world_state_references}
use sandboxengine.Contracts.Event.{SchedulerEvent}
use sandboxengine.Core.Effects.{EffectBatchSuccess, is_valid_state, try_apply_effect_batch}
use sandboxengine.Core.Effects.Batch.{try_apply-is_valid_state}
use sandboxengine.Core.Scheduler.{TimeAdvancePlan, is_terminal}
use sandboxengine.Core.Advance.{
  LoopEnd, TimeAdvanceApplySuccess, apply_due, is_interruption, apply_time_advance_plan,
  finish_apply, advance, effective_end, interruption_id, is_interrupted, is_valid_plan_shape,
}
use sandboxengine.Core.Advance.Loop.{
  ordered_effects, with_terminal_of, Ended, IsLoopEnd, apply_due-IsLoopEnd,
}

-- A success of `applyTimeAdvancePlan`, taken apart.
pub apply_plan-ok :
    (s : WorldState) (p : TimeAdvancePlan) (r : TimeAdvanceApplySuccess)
    → apply_time_advance_plan s p ≡ ok r
    → (is_terminal s.terminal ≡ false)
      × (is_valid_plan_shape p ≡ true)
      × (l : LoopEnd) × (apply_due 0 s [] p.due_events ≡ ok l)
      × (finish_apply s p (ok l) ≡ ok r)
unfolding apply_time_advance_plan
apply_plan-ok s p r h =
    let guards : (is_terminal s.terminal ≡ false)
        × (is_valid_plan_shape p ≡ true)
        × (finish_apply s p (apply_due 0 s [] p.due_events) ≡ ok r) =
      ground arith in
    elim (Result-cases (apply_due 0 s [] p.due_events)) [
      | inl (l, e) ↦ (guards.0, guards.1, l, e, rw e at guards.2)
      | inr (f, e) ↦ let bad = rw e at guards.2 in cc
    ]

-- A state advanced by a plan.
pub record IsAdvance (s : WorldState) (p : TimeAdvancePlan) (r : TimeAdvanceApplySuccess)
    : Type 0 where
  pub accounted : r.applied_events ++ r.unprocessed_events ≡ p.due_events
  pub pending_kept : r.pending_events ≡ p.pending_events
  pub revision_next : r.state.revision ≡ s.revision +ℤ pos 1
  pub batch : EffectBatchSuccess
  pub batch_done : try_apply_effect_batch s (ordered_effects r.applied_events) ≡ ok batch
  pub world :
      (r.state.locations ≡ batch.state.locations)
      × (r.state.entities ≡ batch.state.entities)
      × (r.state.resources ≡ batch.state.resources)
      × (r.state.items ≡ batch.state.items)
  pub valid : is_valid_state r.state ≡ true
  pub by_itself :
      r.interrupted ≡ false
      → (r.state.clock.elapsed_seconds ≡ p.end_elapsed_seconds)
        × (r.unprocessed_events ≡ [])
        × (r.state.terminal ≡ none)
        × (r.interruption_event_id ≡ none)
  pub by_terminal :
      r.interrupted ≡ true
      → (before : List SchedulerEvent) × (e : SchedulerEvent) × (r.applied_events
          ≡ before ++ e ∷ [])
        × (is_interruption e.payload ≡ true)
        × (r.state.clock.elapsed_seconds ≡ e.at_elapsed_seconds)
        × (r.interruption_event_id ≡ some e.event_id)
        × (is_terminal r.state.terminal ≡ true)

is_valid_state-advance :
    (s t u : WorldState) (end : ℤ)
    → u ≡ with_terminal_of s t
    → is_valid_state u ≡ true
    → is_valid_state (advance s end t) ≡ true
unfolding is_valid_state has_valid_world_state_references
is_valid_state-advance s t u end same v = ap is_valid_state (sym same) ∙ v

Ended-by_itself :
    (s : WorldState) (p : TimeAdvancePlan) (l : LoopEnd) (o : Option SchedulerEvent)
    → s.terminal ≡ none
    → Ended s l o
    → is_interrupted o ≡ false
    → (effective_end p.end_elapsed_seconds o ≡ p.end_elapsed_seconds)
      × (l.unprocessed ≡ [])
      × (l.state.terminal ≡ none)
      × (interruption_id o ≡ none)
Ended-by_itself s p l none t h n = (refl, h.0, h.1 ∙ t, refl)
Ended-by_itself s p l (some e) t h n = ground arith

Ended-by_terminal :
    (s : WorldState) (p : TimeAdvancePlan) (l : LoopEnd) (o : Option SchedulerEvent)
    → Ended s l o
    → is_interrupted o ≡ true
    → (before : List SchedulerEvent) × (e : SchedulerEvent) × (l.applied ≡ before ++ e ∷ [])
      × (is_interruption e.payload ≡ true)
      × (effective_end p.end_elapsed_seconds o ≡ e.at_elapsed_seconds)
      × (interruption_id o ≡ some e.event_id)
      × (is_terminal l.state.terminal ≡ true)
Ended-by_terminal s p l none h n = ground arith
Ended-by_terminal s p l (some e) h n =
    let (i, t, set, before, applied) = h in (before, e, applied, i, refl, refl, rw set)

finish-IsAdvance :
    (s : WorldState) (p : TimeAdvancePlan) (l : LoopEnd)
    → is_valid_state s ≡ true
    → s.terminal ≡ none
    → IsLoopEnd s l.applied p.due_events l
    → (r : TimeAdvanceApplySuccess) → finish_apply s p (ok l) ≡ ok r
    → IsAdvance s p r
finish-IsAdvance s p l v t k r h = rw (← ok-injective h) (record {
  accounted = k.accounted;
  pending_kept = refl;
  revision_next = refl;
  batch = k.batch;
  batch_done = k.batch_done;
  world = rw k.batch_state (refl, refl, refl, refl);
  valid =
      is_valid_state-advance s l.state k.batch.state
        (effective_end p.end_elapsed_seconds l.interruption) k.batch_state
        (try_apply-is_valid_state s (ordered_effects l.applied) k.batch k.batch_done);
  by_itself = Ended-by_itself s p l l.interruption t k.ended;
  by_terminal = Ended-by_terminal s p l l.interruption k.ended;
})

not_terminal : (o : Option WorldTerminal) → is_terminal o ≡ false → o ≡ none
not_terminal none h = refl
not_terminal (some t) h = ground arith

-- When a plan is applied to a state with valid references: the applied events and the unprocessed
-- ones are the due events, in order; the pending events are the plan's; the world is that of one
-- batch of all the effects of the applied events, and valid; the revision is one more; and the clock
-- stands at the end of the plan, with no terminal and no event left, or at the time of the terminal
-- event, which is the last that was applied.
pub apply_time_advance_plan-IsAdvance :
    (s : WorldState) (p : TimeAdvancePlan) (r : TimeAdvanceApplySuccess)
    → is_valid_state s ≡ true
    → apply_time_advance_plan s p ≡ ok r
    → IsAdvance s p r
apply_time_advance_plan-IsAdvance s p r v h =
    let (t, shape, l, run, done) = apply_plan-ok s p r h in
    let (taken, grown, end) = apply_due-IsLoopEnd p.due_events 0 s [] l v run in
    finish-IsAdvance s p l v (not_terminal s.terminal t) (rw grown end) r done
