-- ===== src/Core/Process.antt =====
-- packages/core/src/scheduler-process.ts: a plan carried out with a handler that may add events.
pub mod Start
pub mod Queue
pub mod Account
pub mod Run
pub mod Outcome
pub mod Promise
pub mod Static
pub mod Agrees
use Prim.Native.Nat.{Ordering, lt, eq, gt}
use native.Mathlib.Decide.{ℕ_discrete}
use mathlib.Core.Logic.{ite}
use sandboxengine.Prelude.{
  ℕ, zero, suc, ◌+◌, ◌<◌, Bool, true, false, not, ◌&&◌, ◌||◌, Option, none, some, List, [], ◌∷◌,
  ◌++◌, ltb, leb, ◌==◌, length, map, if◌then◌else◌,
}
use sandboxengine.Prelude.Int.{
  ℤ, pos, pos_part, ◌+ℤ◌, ◌-ℤ◌, ltb_ℤ, leb_ℤ, eqb_ℤ, is_safe_integer, is_safe_natural,
  max_safe_integer,
}
use sandboxengine.Prelude.Text.{Text, text_eq}
use sandboxengine.Prelude.Sort.{sort_by}
use sandboxengine.Prelude.Results.{Result, ok, err}
use sandboxengine.Contracts.World.{WorldState, has}
use sandboxengine.Contracts.Value.{Value, schema_version}
use sandboxengine.Contracts.Event.{SchedulerEvent, EventPayload, effects, is_scheduler_event}
use sandboxengine.Core.Effects.{EffectBatchFailure, is_valid_state}
use sandboxengine.Core.Scheduler.{
  TimeAdvancePlan, TimeAdvancePlanResult, in_order, is_terminal, plan_time_advance,
  hard_max_events_per_interval,
}
use sandboxengine.Core.Advance.{
  apply_event, is_interruption, event_ids, advance, effective_end, is_interrupted, interruption_id,
}

pub data SchedulerProcessingFailureCode : Type 0 where
  invalid_state already_terminal invalid_plan : SchedulerProcessingFailureCode
  plan_state_mismatch invalid_options revision_overflow : SchedulerProcessingFailureCode
  event_effect_failed handler_failed : SchedulerProcessingFailureCode
  generated_event_invalid generated_event_duplicate : SchedulerProcessingFailureCode
  generated_event_in_past event_limit_exceeded step_limit_exceeded : SchedulerProcessingFailureCode

pub record SchedulerProcessingContext : Type 0 where
  pub sequence : ℕ
  pub effective_order : ℤ
  pub interval_end_elapsed_seconds : ℤ

-- The caller's handler: the events that it returns, or `none` where it throws or returns no array.
-- The frozen snapshot that it gets is the state itself.
abbrev pub SchedulerEventHandler : Type 0
SchedulerEventHandler =
    SchedulerEvent → WorldState → SchedulerProcessingContext → Option (List SchedulerEvent)

pub record SchedulerProcessingOptions : Type 0 where
  pub max_steps : Option ℤ
  pub max_events : Option ℤ
  pub handler : Option SchedulerEventHandler

pub record QueueEntry : Type 0 where
  pub event : SchedulerEvent
  pub effective_order : ℤ
  pub sequence : ℕ

pub record SchedulerProcessingSuccess : Type 0 where
  pub state : WorldState
  pub processed_events : List QueueEntry
  pub applied_events : List SchedulerEvent
  pub pending_events : List SchedulerEvent
  pub interrupted : Bool
  pub interruption_event_id : Option Text
  pub unprocessed_events : List SchedulerEvent

pub record SchedulerProcessingFailure : Type 0 where
  pub code : SchedulerProcessingFailureCode
  pub event_id : Option Text
  pub step_count : Option ℕ
  pub event_count : Option ℕ
  pub max_steps : Option ℤ
  pub max_events : Option ℤ
  pub effect_failure : Option EffectBatchFailure

abbrev pub SchedulerProcessingResult : Type 0
SchedulerProcessingResult = Result SchedulerProcessingFailure SchedulerProcessingSuccess

abbrev pub failed_with : SchedulerProcessingFailureCode → Option Text → SchedulerProcessingFailure
failed_with c e = record {
  code = c;
  event_id = e;
  step_count = none;
  event_count = none;
  max_steps = none;
  max_events = none;
  effect_failure = none;
}

-- compareQueueEntries(a, b) <= 0. The last comparison of the source, of ids by locale, is for equal
-- sequence numbers alone, and each entry has its own.
unfoldable pub in_queue_order : QueueEntry → QueueEntry → Bool
in_queue_order a b =
    if eqb_ℤ a.event.at_elapsed_seconds b.event.at_elapsed_seconds
    then (if eqb_ℤ a.effective_order b.effective_order
        then leb a.sequence b.sequence
        else ltb_ℤ a.effective_order b.effective_order)
    else ltb_ℤ a.event.at_elapsed_seconds b.event.at_elapsed_seconds

-- The variables of the loop.
pub record Processing : Type 0 where
  pub trial : WorldState
  pub queue : List QueueEntry
  pub pending : List SchedulerEvent
  pub processed : List QueueEntry
  pub applied : List SchedulerEvent
  pub seen : List Text
  pub total : ℕ
  pub next_sequence : ℕ
  pub interruption : Option SchedulerEvent
  pub unprocessed : List SchedulerEvent

-- Math.max
abbrev pub max_ℤ : ℤ → ℤ → ℤ
max_ℤ a b = if ltb_ℤ a b then b else a

-- The entry of a child of an entry: at the same time it does not overtake its parent.
unfoldable pub child_entry : QueueEntry → SchedulerEvent → ℕ → QueueEntry
child_entry parent c n = record {
  event = c;
  effective_order =
      if eqb_ℤ c.at_elapsed_seconds parent.event.at_elapsed_seconds
      then max_ℤ c.order parent.effective_order
      else c.order;
  sequence = n;
}

-- A child that has passed the checks goes to the queue, or to the pending events.
unfoldable pub add_child : QueueEntry → ℤ → Processing → SchedulerEvent → Processing
add_child parent end p c =
    let counted : Processing = record p {
      seen = c.event_id ∷ p.seen;
      total = suc p.total;
      next_sequence = suc p.next_sequence;
    } in
    if leb_ℤ c.at_elapsed_seconds end
    then record counted {
      queue = sort_by in_queue_order (p.queue ++ child_entry parent c p.next_sequence ∷ []);
    }
    else record counted { pending = sort_by in_order (p.pending ++ c ∷ []) }

-- The checks of a child, in the source's order: the failure, if any.
unfoldable pub refuse_child :
    QueueEntry → ℤ → Processing → SchedulerEvent → Option SchedulerProcessingFailure
refuse_child parent max_events p c =
    if not (is_scheduler_event c)
    then some (failed_with generated_event_invalid (some parent.event.event_id))
    else if has p.seen c.event_id
    then some (failed_with generated_event_duplicate (some c.event_id))
    else if ltb_ℤ c.at_elapsed_seconds parent.event.at_elapsed_seconds
    then some (failed_with generated_event_in_past (some c.event_id))
    else if leb_ℤ max_events (pos p.total)
    then some (record (failed_with event_limit_exceeded none) {
      event_count = some (suc p.total);
      max_events = some max_events;
    })
    else none

-- The loop over the children.
unfoldable pub add_children :
    QueueEntry
    → ℤ
    → ℤ
    → Processing
    → List SchedulerEvent
    → Result SchedulerProcessingFailure Processing
add_children parent end max_events p [] = ok p
add_children parent end max_events p (c ∷ cs) = elim (refuse_child parent max_events p c) [
  | some f ↦ err f
  | none ↦ add_children parent end max_events (add_child parent end p c) cs
]

abbrev pub add_handled :
    QueueEntry
    → ℤ
    → ℤ
    → Processing
    → Option (List SchedulerEvent)
    → Result SchedulerProcessingFailure Processing
add_handled parent end max_events p none =
    err (failed_with handler_failed (some parent.event.event_id))
add_handled parent end max_events p (some cs) = add_children parent end max_events p cs

-- The call of the handler for an entry.
unfoldable pub handle :
    Option SchedulerEventHandler
    → QueueEntry
    → ℤ
    → ℤ
    → Processing
    → Result SchedulerProcessingFailure Processing
handle none entry end max_events p = ok p
handle (some h) entry end max_events p = add_handled entry end max_events p (
    h entry.event p.trial (record {
      sequence = entry.sequence;
      effective_order = entry.effective_order;
      interval_end_elapsed_seconds = end;
    }))

-- The variables after an entry has been taken from the queue, and its event applied.
abbrev pub take_entry : Processing → QueueEntry → List QueueEntry → WorldState → Processing
take_entry p entry rest s = record p {
  trial = s;
  queue = rest;
  processed = p.processed ++ entry ∷ [];
  applied = p.applied ++ entry.event ∷ [];
}

abbrev pub queue_events : List QueueEntry → List SchedulerEvent
queue_events = map (λ e. e.event)

-- The variables after a terminal event: the loop is left, and the queue is left over.
abbrev pub interrupt : Processing → QueueEntry → List QueueEntry → WorldState → Processing
interrupt p entry rest s = record (take_entry p entry rest s) {
  interruption = some entry.event;
  unprocessed = queue_events (sort_by in_queue_order rest);
}

-- One round of the loop, and whether the loop goes on.
unfoldable pub process_entry :
    Option SchedulerEventHandler
    → ℤ
    → ℤ
    → Processing
    → QueueEntry
    → List QueueEntry
    → Result SchedulerProcessingFailure (Processing × Bool)
process_entry handler end max_events p entry rest = elim (apply_event p.trial entry.event.payload) [
  | err f ↦ err (record (failed_with event_effect_failed (some entry.event.event_id)) {
    effect_failure = some f;
  })
  | ok s ↦ elim (is_interruption entry.event.payload) [
    | true ↦ ok (interrupt p entry rest s, false)
    | false ↦ elim (handle handler entry end max_events (take_entry p entry rest s)) [
      | err f ↦ err f
      | ok p' ↦ ok (p', true)
    ]
  ]
]

-- The `while` loop. Each round adds one processed event, and the loop fails when there are maxSteps
-- of them and the queue is not empty: `left` is maxSteps less the number of processed events.
unfoldable pub process_from :
    Option SchedulerEventHandler
    → ℤ
    → ℤ
    → ℕ
    → Processing
    → Result SchedulerProcessingFailure Processing
process_from handler end max_events zero p = elim p.queue [
  | [] ↦ ok p
  | entry ∷ rest ↦ err (record (failed_with step_limit_exceeded none) {
    step_count = some (length p.processed);
    max_steps = some (pos (length p.processed));
  })
]
process_from handler end max_events (suc left) p = elim p.queue [
  | [] ↦ ok p
  | entry ∷ rest ↦ elim (process_entry handler end max_events p entry rest) [
    | err f ↦ err f
    | ok (p', goes_on) ↦ elim goes_on [
      | true ↦ process_from handler end max_events left p'
      | false ↦ ok p'
    ]
  ]
]
