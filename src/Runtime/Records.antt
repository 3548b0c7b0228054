-- ===== src/Runtime/Records.antt =====
-- packages/runtime/src/storage.ts: sessions, operations and turns, and the state of memory-storage.ts.
use sandboxengine.Prelude.{ℕ, Option, List}
use sandboxengine.Prelude.Int.{ℤ}
use sandboxengine.Prelude.Text.{Text}
use sandboxengine.Prelude.Dict.{Dict}
use sandboxengine.Contracts.Value.{Value}
use sandboxengine.Contracts.World.{WorldState}

pub record PinnedReleaseIdentity : Type 0 where
  pub quest_id : Text
  pub release_id : Text
  pub content_hash : Text

pub record SessionRecord : Type 0 where
  pub session_id : Text
  pub release : PinnedReleaseIdentity
  pub state : WorldState
  pub revision : ℤ
  pub active_operation_id : Option Text

pub data OperationStatus : Type 0 where
  processing completed finished_without_turn : OperationStatus

-- `null` is `none`.
pub data OperationCompletionKind : Type 0 where
  turn without_turn : OperationCompletionKind

pub record OperationRecord : Type 0 where
  pub operation_id : Text
  pub session_id : Text
  pub idempotency_key : Text
  pub request_hash : Text
  pub expected_revision : ℤ
  pub status : OperationStatus
  pub lease_expires_at_ms : Option ℤ
  pub fencing_token : ℤ
  pub completion_kind : Option OperationCompletionKind
  pub turn_id : Option Text
  pub public_response : Option Value

pub record TurnRecordBoundary : Type 0 where
  pub turn_id : Text
  pub operation_id : Text
  pub session_id : Text
  pub before_revision : ℤ
  pub after_revision : ℤ
  pub state_hash : Text

pub record MutableSession : Type 0 where
  pub session_id : Text
  pub release : PinnedReleaseIdentity
  pub state : WorldState
  pub revision : ℤ
  pub active_operation_id : Option Text
  pub fencing_counter : ℤ

-- The private fields of MemoryRuntimeStorage, the clock and the factory of ids aside.
pub record Storage : Type 0 where
  pub sessions : Dict MutableSession
  pub operations : Dict OperationRecord
  pub operation_by_key : Dict Text
  pub turns : Dict (List TurnRecordBoundary)
  pub next_operation_ordinal : ℕ
