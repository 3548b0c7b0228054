-- ===== src/Contracts/Event.antt =====
-- packages/contracts/src/scheduled-event.ts, scheduled-effect-event.ts, scheduled-terminal-event.ts
-- and scheduled-task.ts: the events of the scheduler, the tasks, and their guards. A typed event has
-- no further keys, so `hasOnlyKeys` holds of it; its effects are unknown values until they are read.
use sandboxengine.Prelude.{Bool, true, false, ◌&&◌, Option, none, some, List, leb, length, all}
use sandboxengine.Prelude.Int.{ℤ, pos, leb_ℤ, ltb_ℤ, is_safe_natural, max_safe_integer}
use sandboxengine.Prelude.Text.{Text, text_eq}
use sandboxengine.Contracts.Value.{Value, is_bounded_text, schema_version}
use sandboxengine.Contracts.Effect.{GameplayEffect, as_gameplay_effect}

-- The kind of an event with its payload: core.marker, core.effects or core.terminal.
pub data EventPayload : Type 0 where
  marker : (marker_id : Text) → EventPayload
  effects : List Value → EventPayload
  terminal : (reason outcome : Text) → EventPayload

pub record SchedulerEvent : Type 0 where
  pub schema_version : Text
  pub event_id : Text
  pub at_elapsed_seconds : ℤ
  pub order : ℤ
  pub source_id : Text
  pub payload : EventPayload

abbrev pub is_read : Option GameplayEffect → Bool
is_read none = false
is_read (some e) = true

-- isGameplayEffect
unfoldable pub is_gameplay_effect : Value → Bool
is_gameplay_effect v = is_read (as_gameplay_effect v)

-- isMarkerPayload, isEffectPayload (1 to 100 effects) and isTerminalPayload
unfoldable pub is_payload : EventPayload → Bool
is_payload (marker m) = is_bounded_text 200 m
is_payload (effects es) = leb 1 (length es) && leb (length es) 100 && all is_gameplay_effect es
is_payload (terminal r o) = is_bounded_text 200 r && is_bounded_text 500 o

-- isSchedulerEvent: isScheduledEvent, isScheduledEffectEvent or isScheduledTerminalEvent
unfoldable pub is_scheduler_event : SchedulerEvent → Bool
is_scheduler_event e =
    text_eq e.schema_version schema_version
    && is_bounded_text 200 e.event_id
    && is_safe_natural e.at_elapsed_seconds
    && is_safe_natural e.order
    && is_bounded_text 200 e.source_id
    && is_payload e.payload

pub record ScheduledTask : Type 0 where
  pub schema_version : Text
  pub task_id : Text
  pub source_id : Text
  pub actor_entity_id : Text
  pub start_at_elapsed_seconds : ℤ
  pub complete_at_elapsed_seconds : ℤ
  pub base_order : ℤ
  pub start_effects : List Value
  pub completion_effects : List Value

-- isEffectList
unfoldable pub is_effect_list : List Value → Bool
is_effect_list es = leb (length es) 100 && all is_gameplay_effect es

-- isScheduledTask
unfoldable pub is_scheduled_task : ScheduledTask → Bool
is_scheduled_task t =
    text_eq t.schema_version schema_version
    && is_bounded_text 180 t.task_id
    && is_bounded_text 200 t.source_id
    && is_bounded_text 200 t.actor_entity_id
    && is_safe_natural t.start_at_elapsed_seconds
    && is_safe_natural t.complete_at_elapsed_seconds
    && leb_ℤ t.start_at_elapsed_seconds t.complete_at_elapsed_seconds
    && is_safe_natural t.base_order
    && ltb_ℤ t.base_order (pos max_safe_integer)
    && is_effect_list t.start_effects
    && is_effect_list t.completion_effects
