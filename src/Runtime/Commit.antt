-- ===== src/Runtime/Commit.antt =====
-- packages/runtime/src/memory-storage.ts: `commitTurn` and `finishWithoutTurn`.
use sandboxengine.Prelude.{
  ℕ, Bool, not, ◌&&◌, ◌||◌, Option, none, some, [], ◌∷◌, ◌++◌, if◌then◌else◌,
}
use sandboxengine.Prelude.Int.{ℤ, eqb_ℤ, is_safe_natural}
use sandboxengine.Prelude.Text.{Text, text_eq}
use sandboxengine.Prelude.Dict.{lookup, store}
use sandboxengine.Contracts.Value.{Value}
use sandboxengine.Contracts.World.{WorldState}
use sandboxengine.Runtime.Records.{
  Storage, SessionRecord, MutableSession, OperationRecord, TurnRecordBoundary, completed,
  finished_without_turn, turn, without_turn,
}
use sandboxengine.Runtime.Storage.{
  is_runtime_id, is_positive_safe_integer, is_processing, is_public_response,
  is_valid_candidate_state, is_valid_turn_record, turn_exists, turns_of, snapshot_session,
}
use sandboxengine.Runtime.Claim.{
  Refusal, session_not_found, operation_not_found, operation_not_processing, invalid_request,
  revision_conflict, invalid_candidate_state, invalid_turn_record, invalid_public_response,
  refuse_holder,
}

-- What commitTurn and finishWithoutTurn are given alike.
pub record Holder : Type 0 where
  pub session_id : Text
  pub operation_id : Text
  pub expected_revision : ℤ
  pub fencing_token : ℤ

pub record CommitTurnInput : Type 0 where
  pub holder : Holder
  pub candidate_state : WorldState
  pub turn_record : TurnRecordBoundary
  pub public_response : Value

pub record FinishWithoutTurnInput : Type 0 where
  pub holder : Holder
  pub public_response : Value

pub data CommitTurnResult : Type 0 where
  committed : SessionRecord → OperationRecord → CommitTurnResult
  refused : Refusal → CommitTurnResult

pub data FinishWithoutTurnResult : Type 0 where
  finished : SessionRecord → OperationRecord → FinishWithoutTurnResult
  refused : Refusal → FinishWithoutTurnResult

-- The checks that the two begin with.
unfoldable pub is_valid_holder : Holder → Bool
is_valid_holder h =
    is_runtime_id h.session_id
    && is_runtime_id h.operation_id
    && is_safe_natural h.expected_revision
    && is_positive_safe_integer h.fencing_token

unfoldable pub refuse_operation : ℤ → MutableSession → OperationRecord → Holder → Option Refusal
refuse_operation now session o h =
    if not (text_eq o.session_id h.session_id)
    then some operation_not_found
    else if not (is_processing o.status)
    then some operation_not_processing
    else if not (eqb_ℤ session.revision h.expected_revision)
        || not (eqb_ℤ o.expected_revision h.expected_revision)
    then some (revision_conflict session.revision)
    else refuse_holder now session o h.fencing_token

-- The session and the operation, or the refusal.
pub data Held : Type 0 where
  held : MutableSession → OperationRecord → Held
  not_held : Refusal → Held

abbrev pub or_held : Option Refusal → MutableSession → OperationRecord → Held
or_held (some r) session o = not_held r
or_held none session o = held session o

unfoldable pub hold : ℤ → Storage → Holder → Held
hold now s h =
    if not (is_valid_holder h)
    then not_held invalid_request
    else elim (lookup h.session_id s.sessions) [
      | none ↦ not_held session_not_found
      | some session ↦ elim (lookup h.operation_id s.operations) [
        | none ↦ not_held operation_not_found
        | some o ↦ or_held (refuse_operation now session o h) session o
      ]
    ]

-- nextOperation of commitTurn and of finishWithoutTurn
abbrev pub committed_operation : OperationRecord → Text → Value → OperationRecord
committed_operation o turn_id response = record o {
  status = completed;
  lease_expires_at_ms = none;
  completion_kind = some turn;
  turn_id = some turn_id;
  public_response = some response;
}

abbrev pub finished_operation : OperationRecord → Value → OperationRecord
finished_operation o response = record o {
  status = finished_without_turn;
  lease_expires_at_ms = none;
  completion_kind = some without_turn;
  turn_id = none;
  public_response = some response;
}

abbrev pub next_session : MutableSession → WorldState → MutableSession
next_session session state = record session {
  state = state;
  revision = state.revision;
  active_operation_id = none;
}

abbrev pub idle_session : MutableSession → MutableSession
idle_session session = record session { active_operation_id = none }

-- The writes of commitTurn.
abbrev pub commit_held :
    Storage → CommitTurnInput → MutableSession → OperationRecord → Storage × CommitTurnResult
commit_held s i session o =
    let session' = next_session session i.candidate_state in
    let o' = committed_operation o i.turn_record.turn_id i.public_response in
    (
      record s {
        sessions = store i.holder.session_id session' s.sessions;
        operations = store o.operation_id o' s.operations;
        turns =
            store i.holder.session_id
              (turns_of (lookup i.holder.session_id s.turns) ++ i.turn_record ∷ []) s.turns;
      },
      committed (snapshot_session session') o',
    )

-- The refusal of what is committed.
unfoldable pub refuse_turn :
    (Value → ℕ) → Storage → CommitTurnInput → OperationRecord → Option Refusal
refuse_turn json_length s i o =
    if not (is_valid_candidate_state i.candidate_state i.holder.expected_revision)
    then some invalid_candidate_state
    else if not (is_valid_turn_record i.turn_record o i.holder.expected_revision)
        || turn_exists s i.holder.session_id i.turn_record.turn_id
    then some invalid_turn_record
    else if not (is_public_response json_length i.public_response)
    then some invalid_public_response
    else none

-- commitTurn, at a service time
unfoldable pub commit_turn :
    (Value → ℕ) → ℤ → Storage → CommitTurnInput → Storage × CommitTurnResult
commit_turn json_length now s i = elim (hold now s i.holder) [
  | not_held r ↦ (s, refused r)
  | held session o ↦ elim (refuse_turn json_length s i o) [
    | some r ↦ (s, refused r)
    | none ↦ commit_held s i session o
  ]
]

-- The writes of finishWithoutTurn.
abbrev pub finish_held :
    Storage
    → FinishWithoutTurnInput
    → MutableSession
    → OperationRecord
    → Storage × FinishWithoutTurnResult
finish_held s i session o =
    let session' = idle_session session in
    let o' = finished_operation o i.public_response in
    (
      record s {
        sessions = store i.holder.session_id session' s.sessions;
        operations = store o.operation_id o' s.operations;
      },
      finished (snapshot_session session') o',
    )

-- finishWithoutTurn, at a service time
unfoldable pub finish_without_turn :
    (Value → ℕ) → ℤ → Storage → FinishWithoutTurnInput → Storage × FinishWithoutTurnResult
finish_without_turn json_length now s i = elim (hold now s i.holder) [
  | not_held r ↦ (s, refused r)
  | held session o ↦
      if is_public_response json_length i.public_response
      then finish_held s i session o
      else (s, refused invalid_public_response)
]
