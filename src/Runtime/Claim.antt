-- ===== src/Runtime/Claim.antt =====
-- packages/runtime/src/memory-storage.ts: `claimOperation` and `renewLease`.
use sandboxengine.Prelude.{
  ℕ, suc, Bool, true, false, not, ◌&&◌, ◌||◌, Option, none, some, if◌then◌else◌,
}
use sandboxengine.Prelude.Int.{ℤ, pos, ◌+ℤ◌, eqb_ℤ, is_safe_natural, max_safe_integer}
use sandboxengine.Prelude.Text.{Text, text_eq}
use sandboxengine.Prelude.Dict.{lookup, store, is_stored}
use sandboxengine.Contracts.Value.{Value}
use sandboxengine.Runtime.Records.{Storage, MutableSession, OperationRecord, processing}
use sandboxengine.Runtime.Storage.{
  is_runtime_id, is_sha256, is_valid_lease_duration, is_lease_end_safe, is_positive_safe_integer,
  canonical_request_hash, operation_key, is_processing, lease_holds, is_active,
}

pub record ClaimOperationInput : Type 0 where
  pub session_id : Text
  pub idempotency_key : Text
  pub request_hash : Text
  pub expected_revision : ℤ
  pub lease_duration_ms : ℤ

pub data ClaimOperationResult : Type 0 where
  acquired : (operation : OperationRecord) (reacquired : Bool) → ClaimOperationResult
  replay : OperationRecord → (public_response : Value) → ClaimOperationResult
  processing_elsewhere : OperationRecord → ClaimOperationResult
  idempotency_key_reused : (operation_id : Text) → ClaimOperationResult
  action_in_progress : (operation_id : Text) → ClaimOperationResult
  revision_conflict : (current_revision : ℤ) → ClaimOperationResult
  session_not_found invalid_request : ClaimOperationResult

-- isValidClaimInput
unfoldable pub is_valid_claim_input : ClaimOperationInput → Bool
is_valid_claim_input i =
    is_runtime_id i.session_id
    && is_runtime_id i.idempotency_key
    && is_sha256 i.request_hash
    && is_safe_natural i.expected_revision
    && is_valid_lease_duration i.lease_duration_ms

-- nextFencingToken
unfoldable pub next_fencing_token : MutableSession → Option ℤ
next_fencing_token session =
    if eqb_ℤ session.fencing_counter (pos max_safe_integer)
    then none
    else some (session.fencing_counter +ℤ pos 1)

-- The session with an operation that it works on, under a new token.
abbrev pub activated : MutableSession → Text → ℤ → MutableSession
activated session k token = record session { active_operation_id = some k; fencing_counter = token }

abbrev pub leased : OperationRecord → ℤ → ℤ → OperationRecord
leased o until token = record o { lease_expires_at_ms = some until; fencing_token = token }

-- Another operation that the session works on.
abbrev pub other_active : Option Text → Text → Option Text
other_active none k = none
other_active (some j) k = if text_eq j k then none else some j

-- A finished operation answers again.
abbrev pub replay_existing :
    Storage → OperationRecord → Option Value → Storage × ClaimOperationResult
replay_existing s o none = (s, invalid_request)
replay_existing s o (some response) = (s, replay o response)

-- An expired operation is taken over under a new token.
unfoldable pub reacquire :
    ℤ
    → Storage
    → ClaimOperationInput
    → MutableSession
    → OperationRecord
    → Option ℤ
    → Storage × ClaimOperationResult
reacquire now s i session o none = (s, invalid_request)
reacquire now s i session o (some token) =
    let taken = leased o (now +ℤ i.lease_duration_ms) token in
    (
      record s {
        sessions = store i.session_id (activated session o.operation_id token) s.sessions;
        operations = store o.operation_id taken s.operations;
      },
      acquired taken true,
    )

-- The key has an operation.
unfoldable pub claim_existing :
    ℤ
    → Storage
    → ClaimOperationInput
    → MutableSession
    → OperationRecord
    → Storage × ClaimOperationResult
claim_existing now s i session o =
    if not (text_eq o.request_hash (canonical_request_hash i.request_hash))
      || not (eqb_ℤ o.expected_revision i.expected_revision)
    then (s, idempotency_key_reused o.operation_id)
    else if not (is_processing o.status)
    then replay_existing s o o.public_response
    else if lease_holds now o.lease_expires_at_ms
    then (s, processing_elsewhere o)
    else if not (eqb_ℤ session.revision i.expected_revision)
    then (s, revision_conflict session.revision)
    else elim (other_active session.active_operation_id o.operation_id) [
      | some j ↦ (s, action_in_progress j)
      | none ↦ reacquire now s i session o (next_fencing_token session)
    ]

abbrev pub new_operation : ℤ → ClaimOperationInput → Text → ℤ → OperationRecord
new_operation now i k token = record {
  operation_id = k;
  session_id = i.session_id;
  idempotency_key = i.idempotency_key;
  request_hash = canonical_request_hash i.request_hash;
  expected_revision = i.expected_revision;
  status = processing;
  lease_expires_at_ms = some (now +ℤ i.lease_duration_ms);
  fencing_token = token;
  completion_kind = none;
  turn_id = none;
  public_response = none;
}

-- An operation is opened under an id of the factory, which has been counted already.
unfoldable pub open_operation :
    ℤ → Storage → ClaimOperationInput → MutableSession → Text → ℤ → Storage × ClaimOperationResult
open_operation now s i session k token =
    if not (is_runtime_id k) || is_stored (lookup k s.operations) then (s, invalid_request) else (
      record s {
        sessions = store i.session_id (activated session k token) s.sessions;
        operations = store k (new_operation now i k token) s.operations;
        operation_by_key =
            store (operation_key i.session_id i.idempotency_key) k s.operation_by_key;
      },
      acquired (new_operation now i k token) false,
    )

unfoldable pub claim_fresh :
    (ℕ → Text)
    → ℤ
    → Storage
    → ClaimOperationInput
    → MutableSession
    → Option ℤ
    → Storage × ClaimOperationResult
claim_fresh factory now s i session none = (s, invalid_request)
claim_fresh factory now s i session (some token) =
    open_operation now (record s { next_operation_ordinal = suc s.next_operation_ordinal }) i
      session (factory s.next_operation_ordinal) token

-- The key is new.
unfoldable pub claim_new :
    (ℕ → Text) → ℤ → Storage → ClaimOperationInput → MutableSession → Storage × ClaimOperationResult
claim_new factory now s i session =
    if not (eqb_ℤ session.revision i.expected_revision)
    then (s, revision_conflict session.revision)
    else elim session.active_operation_id [
      | some j ↦ (s, action_in_progress j)
      | none ↦ claim_fresh factory now s i session (next_fencing_token session)
    ]

unfoldable pub claim_in_session :
    (ℕ → Text) → ℤ → Storage → ClaimOperationInput → MutableSession → Storage × ClaimOperationResult
claim_in_session factory now s i session =
    elim (lookup (operation_key i.session_id i.idempotency_key) s.operation_by_key) [
      | none ↦ claim_new factory now s i session
      | some k ↦ elim (lookup k s.operations) [
        | none ↦ (s, invalid_request)
        | some o ↦ claim_existing now s i session o
      ]
    ]

-- claimOperation, at a service time and with the factory of operation ids
unfoldable pub claim_operation :
    (ℕ → Text) → ℤ → Storage → ClaimOperationInput → Storage × ClaimOperationResult
claim_operation factory now s i =
    if not (is_valid_claim_input i) || not (is_lease_end_safe now i.lease_duration_ms)
    then (s, invalid_request)
    else elim (lookup i.session_id s.sessions) [
      | none ↦ (s, session_not_found)
      | some session ↦ claim_in_session factory now s i session
    ]

pub record RenewLeaseInput : Type 0 where
  pub session_id : Text
  pub operation_id : Text
  pub fencing_token : ℤ
  pub lease_duration_ms : ℤ

-- The refusals that renewLease, commitTurn and finishWithoutTurn share, and those of one of them.
pub data Refusal : Type 0 where
  session_not_found operation_not_found operation_not_processing operation_not_active : Refusal
  stale_fencing_token lease_expired invalid_request : Refusal
  revision_conflict : (current_revision : ℤ) → Refusal
  invalid_candidate_state invalid_turn_record invalid_public_response : Refusal

pub data RenewLeaseResult : Type 0 where
  renewed : OperationRecord → RenewLeaseResult
  refused : Refusal → RenewLeaseResult

-- isValidRenewInput
unfoldable pub is_valid_renew_input : RenewLeaseInput → Bool
is_valid_renew_input i =
    is_runtime_id i.session_id
    && is_runtime_id i.operation_id
    && is_positive_safe_integer i.fencing_token
    && is_valid_lease_duration i.lease_duration_ms

-- The operation is the session's, active, under this token and within its lease: the refusal, if not.
unfoldable pub refuse_holder : ℤ → MutableSession → OperationRecord → ℤ → Option Refusal
refuse_holder now session o token =
    if not (is_active session.active_operation_id o.operation_id)
    then some operation_not_active
    else if not (eqb_ℤ o.fencing_token token)
    then some stale_fencing_token
    else if not (lease_holds now o.lease_expires_at_ms)
    then some lease_expired
    else none

unfoldable pub renew_operation :
    ℤ → Storage → RenewLeaseInput → MutableSession → OperationRecord → Storage × RenewLeaseResult
renew_operation now s i session o =
    if not (text_eq o.session_id i.session_id)
    then (s, refused operation_not_found)
    else if not (is_processing o.status)
    then (s, refused operation_not_processing)
    else elim (refuse_holder now session o i.fencing_token) [
      | some r ↦ (s, refused r)
      | none ↦
          let again : OperationRecord = record o {
            lease_expires_at_ms = some (now +ℤ i.lease_duration_ms);
          } in
          (record s { operations = store o.operation_id again s.operations }, renewed again)
    ]

-- renewLease, at a service time
unfoldable pub renew_lease : ℤ → Storage → RenewLeaseInput → Storage × RenewLeaseResult
renew_lease now s i =
    if not (is_valid_renew_input i) || not (is_lease_end_safe now i.lease_duration_ms)
    then (s, refused invalid_request)
    else elim (lookup i.session_id s.sessions) [
      | none ↦ (s, refused session_not_found)
      | some session ↦ elim (lookup i.operation_id s.operations) [
        | none ↦ (s, refused operation_not_found)
        | some o ↦ renew_operation now s i session o
      ]
    ]
