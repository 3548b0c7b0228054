-- ===== src/Runtime/Moves.antt =====
-- What a call may do to the storage, written out apart from the code that decides it.
use sandboxengine.Prelude.{ℕ, ◌≡◌, true, false, none, some, [], ◌∷◌, ◌++◌}
use sandboxengine.Prelude.Int.{ℤ, pos, ◌+ℤ◌, ◌≤ℤ◌, ◌<ℤ◌}
use sandboxengine.Prelude.Text.{Text}
use sandboxengine.Prelude.Dict.{lookup, store}
use sandboxengine.Contracts.Value.{Value, is_id}
use sandboxengine.Runtime.Records.{
  Storage, MutableSession, OperationRecord, processing, completed, finished_without_turn, turn,
  without_turn,
}
use sandboxengine.Runtime.Storage.{
  canonical_request_hash, operation_key, is_processing, lease_holds, is_active, turns_of,
  is_public_response, is_valid_candidate_state, is_valid_turn_record, turn_exists,
}
use sandboxengine.Runtime.Claim.{
  ClaimOperationInput, RenewLeaseInput, next_fencing_token, other_active,
}
use sandboxengine.Runtime.Commit.{CommitTurnInput, FinishWithoutTurnInput}

pub data Call : Type 0 where
  claim_call : ClaimOperationInput → Call
  renew_call : RenewLeaseInput → Call
  commit_call : CommitTurnInput → Call
  finish_call : FinishWithoutTurnInput → Call

-- A lease lasts from a millisecond to five minutes.
abbrev pub IsLease : ℤ → Type 0
IsLease duration = (pos 1 ≤ℤ duration) × (duration ≤ℤ pos 300000)

-- An expired operation is taken over by a claim of the same request, under the next token and for the
-- duration that the claim asks for.
pub record Reacquires (now : ℤ) (c : Call) (s t : Storage) : Type 0 where
  pub input : ClaimOperationInput
  pub asked : c ≡ claim_call input
  pub session : MutableSession
  pub found_id : Text
  pub operation : OperationRecord
  pub token : ℤ
  pub lease : IsLease input.lease_duration_ms
  pub session_is_id : is_id input.session_id ≡ true
  pub key_is_id : is_id input.idempotency_key ≡ true
  pub session_found : lookup input.session_id s.sessions ≡ some session
  pub key_found :
      lookup (operation_key input.session_id input.idempotency_key) s.operation_by_key
      ≡ some found_id
  pub operation_found : lookup found_id s.operations ≡ some operation
  pub same_hash : operation.request_hash ≡ canonical_request_hash input.request_hash
  pub same_revision : operation.expected_revision ≡ input.expected_revision
  pub current : session.revision ≡ input.expected_revision
  pub going : is_processing operation.status ≡ true
  pub expired : lease_holds now operation.lease_expires_at_ms ≡ false
  pub over : (until : ℤ) → operation.lease_expires_at_ms ≡ some until → until ≤ℤ now
  pub free : other_active session.active_operation_id operation.operation_id ≡ none
  pub next : next_fencing_token session ≡ some token
  pub up : token ≡ session.fencing_counter +ℤ pos 1
  pub after : t ≡ record s {
    sessions =
        store input.session_id
          (record session {
            active_operation_id = some operation.operation_id;
            fencing_counter = token;
          })
          s.sessions;
    operations =
        store operation.operation_id
          (record operation {
            lease_expires_at_ms = some (now +ℤ input.lease_duration_ms);
            fencing_token = token;
          })
          s.operations;
  }

-- A claim opens a new operation in an idle session, under a new id and a new key.
pub record Opens (now : ℤ) (c : Call) (s t : Storage) : Type 0 where
  pub input : ClaimOperationInput
  pub asked : c ≡ claim_call input
  pub session : MutableSession
  pub operation_id : Text
  pub token : ℤ
  pub ordinal : ℕ
  pub lease : IsLease input.lease_duration_ms
  pub session_is_id : is_id input.session_id ≡ true
  pub key_is_id : is_id input.idempotency_key ≡ true
  pub session_found : lookup input.session_id s.sessions ≡ some session
  pub key_new :
      lookup (operation_key input.session_id input.idempotency_key) s.operation_by_key ≡ none
  pub current : session.revision ≡ input.expected_revision
  pub idle : session.active_operation_id ≡ none
  pub id_new : lookup operation_id s.operations ≡ none
  pub next : next_fencing_token session ≡ some token
  pub up : token ≡ session.fencing_counter +ℤ pos 1
  pub after : t ≡ record s {
    sessions =
        store input.session_id
          (record session { active_operation_id = some operation_id; fencing_counter = token })
          s.sessions;
    operations =
        store operation_id
          (record {
            operation_id = operation_id;
            session_id = input.session_id;
            idempotency_key = input.idempotency_key;
            request_hash = canonical_request_hash input.request_hash;
            expected_revision = input.expected_revision;
            status = processing;
            lease_expires_at_ms = some (now +ℤ input.lease_duration_ms);
            fencing_token = token;
            completion_kind = none;
            turn_id = none;
            public_response = none;
          })
          s.operations;
    operation_by_key =
        store
          (operation_key input.session_id input.idempotency_key)
          operation_id
          s.operation_by_key;
    next_operation_ordinal = ordinal;
  }

-- The session and the operation that it works on, under its token and within its lease.
pub record Holds (now : ℤ) (s : Storage) (session_id operation_id : Text) (token : ℤ)
    (session : MutableSession) (operation : OperationRecord) : Type 0 where
  pub session_found : lookup session_id s.sessions ≡ some session
  pub operation_found : lookup operation_id s.operations ≡ some operation
  pub same_session : operation.session_id ≡ session_id
  pub going : is_processing operation.status ≡ true
  pub active : is_active session.active_operation_id operation.operation_id ≡ true
  pub same_token : operation.fencing_token ≡ token
  pub leased_still : lease_holds now operation.lease_expires_at_ms ≡ true
  pub working : session.active_operation_id ≡ some operation.operation_id
  pub until : ℤ
  pub ends : operation.lease_expires_at_ms ≡ some until
  pub in_time : now <ℤ until

-- The lease of the active operation is made to end the asked duration after the service time.
pub record Renews (now : ℤ) (c : Call) (s t : Storage) : Type 0 where
  pub input : RenewLeaseInput
  pub asked : c ≡ renew_call input
  pub session : MutableSession
  pub operation : OperationRecord
  pub lease : IsLease input.lease_duration_ms
  pub holds : Holds now s input.session_id input.operation_id input.fencing_token session operation
  pub after : t ≡ record s {
    operations =
        store operation.operation_id
          (record operation { lease_expires_at_ms = some (now +ℤ input.lease_duration_ms) })
          s.operations;
  }

-- The active operation is completed with a turn.
pub record Commits (json_length : Value → ℕ) (now : ℤ) (c : Call) (s t : Storage) : Type 0 where
  pub input : CommitTurnInput
  pub asked : c ≡ commit_call input
  pub session : MutableSession
  pub operation : OperationRecord
  pub holds :
      Holds now s input.holder.session_id input.holder.operation_id input.holder.fencing_token
        session operation
  pub current : session.revision ≡ input.holder.expected_revision
  pub same_revision : operation.expected_revision ≡ input.holder.expected_revision
  pub valid_state : is_valid_candidate_state input.candidate_state session.revision ≡ true
  pub valid_turn : is_valid_turn_record input.turn_record operation session.revision ≡ true
  pub new_turn : turn_exists s input.holder.session_id input.turn_record.turn_id ≡ false
  pub valid_response : is_public_response json_length input.public_response ≡ true
  pub after : t ≡ record s {
    sessions =
        store input.holder.session_id
          (record session {
            state = input.candidate_state;
            revision = input.candidate_state.revision;
            active_operation_id = none;
          })
          s.sessions;
    operations =
        store operation.operation_id
          (record operation {
            status = completed;
            lease_expires_at_ms = none;
            completion_kind = some turn;
            turn_id = some input.turn_record.turn_id;
            public_response = some input.public_response;
          })
          s.operations;
    turns =
        store input.holder.session_id
          (turns_of (lookup input.holder.session_id s.turns) ++ input.turn_record ∷ [])
          s.turns;
  }

-- The active operation is finished without a turn.
pub record Finishes (json_length : Value → ℕ) (now : ℤ) (c : Call) (s t : Storage) : Type 0 where
  pub input : FinishWithoutTurnInput
  pub asked : c ≡ finish_call input
  pub session : MutableSession
  pub operation : OperationRecord
  pub holds :
      Holds now s input.holder.session_id input.holder.operation_id input.holder.fencing_token
        session operation
  pub current : session.revision ≡ input.holder.expected_revision
  pub same_revision : operation.expected_revision ≡ input.holder.expected_revision
  pub valid_response : is_public_response json_length input.public_response ≡ true
  pub after : t ≡ record s {
    sessions =
        store input.holder.session_id (record session { active_operation_id = none }) s.sessions;
    operations =
        store operation.operation_id
          (record operation {
            status = finished_without_turn;
            lease_expires_at_ms = none;
            completion_kind = some without_turn;
            turn_id = none;
            public_response = some input.public_response;
          })
          s.operations;
  }

pub data Move (json_length : Value → ℕ) (now : ℤ) (c : Call) (s t : Storage) : Type 0 where
  stays :
      (ordinal : ℕ) → t ≡ record s { next_operation_ordinal = ordinal } → Move json_length now c s t
  reacquires : Reacquires now c s t → Move json_length now c s t
  opens : Opens now c s t → Move json_length now c s t
  renews : Renews now c s t → Move json_length now c s t
  commits : Commits json_length now c s t → Move json_length now c s t
  finishes : Finishes json_length now c s t → Move json_length now c s t
