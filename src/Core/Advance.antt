-- ===== src/Core/Advance.antt =====
-- packages/core/src/scheduler.ts, second part: `applyTimeAdvancePlan`.
pub mod Shape
pub mod Loop
pub mod Run
use Prim.Native.Nat.{Ordering, lt, eq, gt}
use sandboxengine.Prelude.{
  ℕ, zero, suc, Bool, true, false, not, ◌&&◌, Option, none, some, List, [], ◌∷◌, ◌++◌, leb, ltb,
  length, all, keep, map, if◌then◌else◌,
}
use sandboxengine.Prelude.Int.{
  ℤ, pos, ◌+ℤ◌, ltb_ℤ, leb_ℤ, eqb_ℤ, is_safe_integer, is_safe_natural, max_safe_integer,
}
use sandboxengine.Prelude.Text.{Text, text_eq, text_lt}
use sandboxengine.Prelude.Sort.{sort_by}
use sandboxengine.Prelude.Results.{Result, ok, err}
use sandboxengine.Contracts.World.{WorldState, WorldTerminal, has, distinct}
use sandboxengine.Contracts.Value.{schema_version}
use sandboxengine.Contracts.Event.{
  SchedulerEvent, EventPayload, marker, effects, terminal, is_scheduler_event,
}
use sandboxengine.Core.Effects.{EffectBatchFailure, EffectBatchSuccess, try_apply_effect_batch}
use sandboxengine.Core.Scheduler.{
  TimeAdvancePlan, in_order, is_due, is_pending, is_schedulable, is_terminal,
}

pub data TimeAdvanceApplyFailureCode : Type 0 where
  invalid_state already_terminal invalid_plan : TimeAdvanceApplyFailureCode
  plan_state_mismatch revision_overflow event_effect_failed : TimeAdvanceApplyFailureCode

pub record TimeAdvanceApplySuccess : Type 0 where
  pub state : WorldState
  pub applied_events : List SchedulerEvent
  pub pending_events : List SchedulerEvent
  pub interrupted : Bool
  pub interruption_event_id : Option Text
  pub unprocessed_events : List SchedulerEvent

pub record TimeAdvanceApplyFailure : Type 0 where
  pub code : TimeAdvanceApplyFailureCode
  pub event_index : Option ℕ
  pub event_id : Option Text
  pub effect_failure : Option EffectBatchFailure

abbrev pub TimeAdvanceApplyResult : Type 0
TimeAdvanceApplyResult = Result TimeAdvanceApplyFailure TimeAdvanceApplySuccess

abbrev pub apply_failure : TimeAdvanceApplyFailureCode → TimeAdvanceApplyResult
apply_failure c =
    err (record { code = c; event_index = none; event_id = none; effect_failure = none })

-- isSorted
unfoldable pub is_sorted : List SchedulerEvent → Bool
is_sorted [] = true
is_sorted (a ∷ []) = true
is_sorted (a ∷ b ∷ es) = in_order a b && is_sorted (b ∷ es)

abbrev pub event_ids : List SchedulerEvent → List Text
event_ids = map (λ e. e.event_id)

-- isValidPlanShape
unfoldable pub is_valid_plan_shape : TimeAdvancePlan → Bool
is_valid_plan_shape p =
    is_safe_natural p.start_elapsed_seconds
    && is_safe_natural p.end_elapsed_seconds
    && leb_ℤ p.start_elapsed_seconds p.end_elapsed_seconds
    && all is_scheduler_event (p.due_events ++ p.pending_events)
    && distinct (event_ids (p.due_events ++ p.pending_events))
    && all (λ e. leb_ℤ p.start_elapsed_seconds e.at_elapsed_seconds) p.due_events
    && all (is_due p.end_elapsed_seconds) p.due_events
    && all (is_pending p.end_elapsed_seconds) p.pending_events
    && is_sorted p.due_events
    && is_sorted p.pending_events

-- What the loops of scheduler.ts and scheduler-process.ts do with the state at one event. A terminal
-- event cannot fail.
unfoldable pub apply_event : WorldState → EventPayload → Result EffectBatchFailure WorldState
apply_event s (marker m) = ok s
apply_event s (effects es) = elim (try_apply_effect_batch s es) [
  | err f ↦ err f
  | ok r ↦ ok r.state
]
apply_event s (terminal reason outcome) =
    ok (record s { terminal = some (record { reason = reason; outcome = outcome }) })

abbrev pub is_interruption : EventPayload → Bool
is_interruption (terminal r o) = true
is_interruption _ = false

-- The variables of the loop when it has ended.
pub record LoopEnd : Type 0 where
  pub state : WorldState
  pub applied : List SchedulerEvent
  pub interruption : Option SchedulerEvent
  pub unprocessed : List SchedulerEvent

-- The loop of `applyTimeAdvancePlan` from index `i` on.
unfoldable pub apply_due :
    ℕ
    → WorldState
    → List SchedulerEvent
    → List SchedulerEvent
    → Result TimeAdvanceApplyFailure LoopEnd
apply_due i s applied [] =
    ok (record { state = s; applied = applied; interruption = none; unprocessed = [] })
apply_due i s applied (e ∷ es) = elim (apply_event s e.payload) [
  | err f ↦ err (record {
    code = event_effect_failed;
    event_index = some i;
    event_id = some e.event_id;
    effect_failure = some f;
  })
  | ok s' ↦ elim (is_interruption e.payload) [
    | true ↦ ok (record {
      state = s';
      applied = applied ++ e ∷ [];
      interruption = some e;
      unprocessed = es;
    })
    | false ↦ apply_due (suc i) s' (applied ++ e ∷ []) es
  ]
]

-- effectiveEnd
abbrev pub effective_end : ℤ → Option SchedulerEvent → ℤ
effective_end end none = end
effective_end end (some e) = e.at_elapsed_seconds

abbrev pub is_interrupted : Option SchedulerEvent → Bool
is_interrupted none = false
is_interrupted (some e) = true

abbrev pub interruption_id : Option SchedulerEvent → Option Text
interruption_id none = none
interruption_id (some e) = some e.event_id

abbrev pub advance : WorldState → ℤ → WorldState → WorldState
advance s end trial = record trial {
  revision = s.revision +ℤ pos 1;
  clock = record { elapsed_seconds = end };
}

abbrev pub finish_apply :
    WorldState → TimeAdvancePlan → Result TimeAdvanceApplyFailure LoopEnd → TimeAdvanceApplyResult
finish_apply s p (err f) = err f
finish_apply s p (ok l) = ok (record {
  state = advance s (effective_end p.end_elapsed_seconds l.interruption) l.state;
  applied_events = l.applied;
  pending_events = p.pending_events;
  interrupted = is_interrupted l.interruption;
  interruption_event_id = interruption_id l.interruption;
  unprocessed_events = l.unprocessed;
})

unfoldable pub apply_time_advance_plan : WorldState → TimeAdvancePlan → TimeAdvanceApplyResult
apply_time_advance_plan s p =
    if not (is_schedulable s)
    then apply_failure invalid_state
    else if is_terminal s.terminal
    then apply_failure already_terminal
    else if not (is_valid_plan_shape p)
    then apply_failure invalid_plan
    else if not (eqb_ℤ p.start_elapsed_seconds s.clock.elapsed_seconds)
    then apply_failure plan_state_mismatch
    else if eqb_ℤ s.revision (pos max_safe_integer)
    then apply_failure revision_overflow
    else finish_apply s p (apply_due 0 s [] p.due_events)
