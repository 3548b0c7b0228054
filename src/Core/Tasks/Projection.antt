-- ===== src/Core/Tasks/Projection.antt =====
-- The two events of a task: they are valid, the start comes first, and they carry the task's effects.
use Prim.Native.Nat.{lt}
use mathlib.Core.List.{append-nil}
use sandboxengine.Prelude.{
  ◌≡◌, refl, true, false, List, [], ◌∷◌, ◌++◌, length, length-append, leb, all, arith, inl, inr,
  ◌⊎◌,
}
use sandboxengine.Prelude.Int.{ℤ, pos, is_safe_natural, ltb_ℤ, leb_ℤ}
use sandboxengine.Prelude.Text.{Text, lit, text_eq_refl}
use sandboxengine.Prelude.Results.{ok}
use sandboxengine.Contracts.Value.{Value, schema_version, is_bounded_text}
use sandboxengine.Contracts.World.{WorldState, has, entity_ids}
use sandboxengine.Contracts.Event.{
  SchedulerEvent, ScheduledTask, is_scheduler_event, is_scheduled_task, is_payload, is_effect_list,
}
use sandboxengine.Core.Scheduler.{compare_scheduler_events}
use sandboxengine.Core.Advance.Loop.{ordered_effects, effects_of}
use sandboxengine.Core.Tasks.{
  task_payload, build_task_event, task_start, task_complete, has_clock, project_task_events,
  core_task_start_internal_order,
}

task_payload-is_payload :
    (m : Text) (es : List Value)
    → is_bounded_text 200 m ≡ true
    → is_effect_list es ≡ true
    → is_payload (task_payload m es) ≡ true
unfolding task_payload is_payload is_effect_list
task_payload-is_payload m [] h k = h
task_payload-is_payload m (e ∷ es) h k = ground arith

-- A suffix of at most 20 units fits an event id.
longer-is_bounded_text :
    (s t : Text)
    → is_bounded_text 180 s ≡ true
    → leb (length t) 20 ≡ true
    → is_bounded_text 200 (s ++ t) ≡ true
unfolding is_bounded_text
longer-is_bounded_text s t h k = ground (arith, length-append s t)

build_task_event-is_scheduler_event :
    (id : Text) (at order : ℤ) (source m : Text) (es : List Value)
    → is_bounded_text 200 id ≡ true
    → is_safe_natural at ≡ true
    → is_safe_natural order ≡ true
    → is_bounded_text 200 source ≡ true
    → is_bounded_text 200 m ≡ true
    → is_effect_list es ≡ true
    → is_scheduler_event (build_task_event id at order source m es) ≡ true
unfolding build_task_event is_scheduler_event
build_task_event-is_scheduler_event id at order source m es a b c d e f =
    ground (arith, a, b, c, d, task_payload-is_payload m es e f, text_eq_refl schema_version)

task-parts :
    (t : ScheduledTask)
    → is_scheduled_task t ≡ true
    → (is_bounded_text 180 t.task_id ≡ true)
      × (is_bounded_text 200 t.source_id ≡ true)
      × (is_safe_natural t.start_at_elapsed_seconds ≡ true)
      × (is_safe_natural t.complete_at_elapsed_seconds ≡ true)
      × (leb_ℤ t.start_at_elapsed_seconds t.complete_at_elapsed_seconds ≡ true)
      × (is_effect_list t.start_effects ≡ true)
      × (is_effect_list t.completion_effects ≡ true)
unfolding is_scheduled_task
task-parts t h = ground arith

short_suffix :
    (t : Text) → leb (length t) 20 ≡ true → leb 1 (length t) ≡ true → is_bounded_text 200 t ≡ true
unfolding is_bounded_text
short_suffix t h k = ground arith

task_events-is_scheduler_event :
    (t : ScheduledTask)
    → is_scheduled_task t ≡ true
    → (is_scheduler_event (task_start t) ≡ true) × (is_scheduler_event (task_complete t) ≡ true)
task_events-is_scheduler_event t h =
    let (id, source, starts, completes, _, first, last) = task-parts t h in
    (
      build_task_event-is_scheduler_event (t.task_id ++ lit ".start") t.start_at_elapsed_seconds
          (pos 19) t.source_id (lit "task.start") t.start_effects
          (longer-is_bounded_text t.task_id (lit ".start") id refl) starts refl source
          (short_suffix (lit "task.start") refl refl) first,
      build_task_event-is_scheduler_event (t.task_id ++ lit ".complete")
          t.complete_at_elapsed_seconds (pos 20) t.source_id (lit "task.complete")
          t.completion_effects (longer-is_bounded_text t.task_id (lit ".complete") id refl)
          completes refl source (short_suffix (lit "task.complete") refl refl) last,
    )

start_before_complete :
    (a b : ℤ) → leb_ℤ a b ≡ true → (ltb_ℤ a b ≡ true) ⊎ (ltb_ℤ a b ≡ false) × (ltb_ℤ b a ≡ false)
start_before_complete a b h = ground arith

-- The start of a task is before its completion, even when it takes no time.
task_start-first :
    (t : ScheduledTask)
    → is_scheduled_task t ≡ true
    → compare_scheduler_events (task_start t) (task_complete t) ≡ lt
unfolding compare_scheduler_events build_task_event
task_start-first t h =
    let (_, _, _, _, forward, _, _) = task-parts t h in
    elim (start_before_complete t.start_at_elapsed_seconds t.complete_at_elapsed_seconds forward) [
      | inl e ↦ rw e refl
      | inr (e, f) ↦ rw (e, f) refl
    ]

effects_of-task_payload : (m : Text) (es : List Value) → effects_of (task_payload m es) ≡ es
unfolding task_payload
effects_of-task_payload m [] = refl
effects_of-task_payload m (e ∷ es) = refl

-- The events of a task: both pass the guard, the start comes strictly first, and in this order they
-- carry the effects of the task.
pub record AreTaskEvents (t : ScheduledTask) (es : List SchedulerEvent) : Type 0 where
  pub start : SchedulerEvent
  pub complete : SchedulerEvent
  pub both : es ≡ start ∷ complete ∷ []
  pub valid : all is_scheduler_event es ≡ true
  pub first : compare_scheduler_events start complete ≡ lt
  pub starts_at : start.at_elapsed_seconds ≡ t.start_at_elapsed_seconds
  pub completes_at : complete.at_elapsed_seconds ≡ t.complete_at_elapsed_seconds
  pub same_effects : ordered_effects es ≡ t.start_effects ++ t.completion_effects

-- A scheduled task of base order 19, whose actor is an entity of a state of the known version with a
-- safe clock, has its events: a start and a completion at the task's times that both pass the
-- scheduler's guard, the start strictly before the completion in the scheduler's order, and together
-- they carry the start effects and then the completion effects.
pub project_task_events_total :
    (s : WorldState) (t : ScheduledTask)
    → has_clock s ≡ true
    → is_scheduled_task t ≡ true
    → t.base_order ≡ core_task_start_internal_order
    → has (entity_ids s.entities) t.actor_entity_id ≡ true
    → (es : List SchedulerEvent) × (project_task_events s t ≡ ok es) × AreTaskEvents t es
unfolding project_task_events build_task_event ordered_effects
project_task_events_total s t clock task order actor =
    let (a, b) = task_events-is_scheduler_event t task in
    (
      task_start t ∷ task_complete t ∷ [],
      rw (clock, task, order, actor, a, b) refl,
      record {
        start = task_start t;
        complete = task_complete t;
        both = refl;
        valid = rw (a, b) refl;
        first = task_start-first t task;
        starts_at = refl;
        completes_at = refl;
        same_effects =
            rw
              (
                effects_of-task_payload (lit "task.start") t.start_effects,
                effects_of-task_payload (lit "task.complete") t.completion_effects,
                append-nil t.completion_effects,
              )
              refl;
      },
    )
