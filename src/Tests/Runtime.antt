-- ===== src/Tests/Runtime.antt =====
-- A session whose operation is claimed, committed, and claimed again.
use sandboxengine.Prelude.{arith, ℕ, ◌+◌, ◌≡◌, refl, true, false, none, [], ◌∷◌, ◌++◌}
use sandboxengine.Prelude.Int.{pos, ◌<ℤ◌}
use sandboxengine.Prelude.Text.{Text, lit}
use sandboxengine.Prelude.Dict.{lookup, store}
use sandboxengine.Contracts.Value.{Value, str, obj, end, field}
use sandboxengine.Contracts.World.{WorldState}
use sandboxengine.Runtime.Records.{
  Storage, PinnedReleaseIdentity, SessionRecord, OperationRecord, TurnRecordBoundary,
}
use sandboxengine.Runtime.Storage.{
  is_sha256, canonical_request_hash, operation_key, is_json_value, is_public_response,
  is_valid_world_state, is_valid_candidate_state, is_valid_turn_record, is_valid_seed_session,
  seed_sessions, create_storage, seeded, snapshot_session, turn_exists,
}
use sandboxengine.Runtime.Claim.{
  ClaimOperationInput, acquired, replay, is_valid_claim_input, next_fencing_token, reacquire,
  claim_existing, open_operation, claim_fresh, claim_new, claim_in_session, claim_operation,
  refuse_holder, renew_lease, renew_operation, new_operation, activated, leased,
  is_valid_renew_input,
}
use sandboxengine.Runtime.Commit.{
  Holder, CommitTurnInput, committed, is_valid_holder, refuse_operation, hold, refuse_turn,
  commit_turn, finish_without_turn, committed_operation, next_session,
}
use sandboxengine.Runtime.Moves.{Move, claim_call, commit_call}
use sandboxengine.Runtime.Steps.{step, run, step-Move}
use sandboxengine.Runtime.Invariant.{IsWellFormed}
use sandboxengine.Runtime.Reachable.{
  create_storage-IsWellFormed, run-IsWellFormed, reachable-IsWellFormed,
}
use sandboxengine.Runtime.Promises.{commit_turn-replays, commit_turn-once}
use sandboxengine.Runtime.Fencing.{claim_operation-newest, claim_operation-fences}
use sandboxengine.Tests.Data.{batches, world}

-- All that the storage computes with.
unfoldable stored : Unit {0}
unfolding batches lookup store is_sha256 canonical_request_hash operation_key is_json_value
    is_public_response is_valid_world_state is_valid_candidate_state is_valid_turn_record
    is_valid_seed_session seed_sessions create_storage turn_exists is_valid_claim_input
    next_fencing_token reacquire claim_existing open_operation claim_fresh claim_new
    claim_in_session claim_operation refuse_holder renew_lease renew_operation is_valid_renew_input
    is_valid_holder refuse_operation hold refuse_turn commit_turn finish_without_turn step run
stored = tt

abbrev pub hash : Text
hash = lit "0123456789abcdef0123456789abcdef0123456789abcdef0123456789abcdef"

abbrev release : PinnedReleaseIdentity
release = record { quest_id = lit "quest"; release_id = lit "r1"; content_hash = hash }

abbrev guest : SessionRecord
guest = record {
  session_id = lit "s1";
  release = release;
  state = world;
  revision = pos 4;
  active_operation_id = none;
}

abbrev factory : ℕ → Text
factory n = lit "op-" ++ (48 + n) ∷ []

abbrev short : Value → ℕ
short v = 2

abbrev fresh : Storage
fresh = record {
  sessions = (lit "s1", seeded guest) ∷ [];
  operations = [];
  operation_by_key = [];
  turns = (lit "s1", []) ∷ [];
  next_operation_ordinal = 1;
}

abbrev request : ClaimOperationInput
request = record {
  session_id = lit "s1";
  idempotency_key = lit "k1";
  request_hash = hash;
  expected_revision = pos 4;
  lease_duration_ms = pos 1000;
}

abbrev opened : OperationRecord
opened = new_operation (pos 10) request (lit "op-1") (pos 1)

abbrev claimed : Storage
claimed = record {
  sessions = (lit "s1", activated (seeded guest) (lit "op-1") (pos 1)) ∷ [];
  operations = (lit "op-1", opened) ∷ [];
  operation_by_key = (operation_key (lit "s1") (lit "k1"), lit "op-1") ∷ [];
  turns = (lit "s1", []) ∷ [];
  next_operation_ordinal = 2;
}

abbrev next_world : WorldState
next_world = record world { revision = pos 5 }

abbrev turn_one : TurnRecordBoundary
turn_one = record {
  turn_id = lit "t1";
  operation_id = lit "op-1";
  session_id = lit "s1";
  before_revision = pos 4;
  after_revision = pos 5;
  state_hash = hash;
}

abbrev answer : Value
answer = obj (field (lit "say") (str (lit "done")) end)

abbrev holding : Holder
holding = record {
  session_id = lit "s1";
  operation_id = lit "op-1";
  expected_revision = pos 4;
  fencing_token = pos 1;
}

abbrev commit : CommitTurnInput
commit = record {
  holder = holding;
  candidate_state = next_world;
  turn_record = turn_one;
  public_response = answer;
}

abbrev after_commit : Storage
after_commit = (commit_turn short (pos 20) claimed commit).0

abbrev ended : OperationRecord
ended = committed_operation opened (lit "t1") answer

abbrev session_after : SessionRecord
session_after =
    snapshot_session (next_session (activated (seeded guest) (lit "op-1") (pos 1)) next_world)

fresh-IsWellFormed : IsWellFormed fresh
unfolding stored
fresh-IsWellFormed = create_storage-IsWellFormed (pos 0) (guest ∷ []) fresh refl

claims : claim_operation factory (pos 10) fresh request ≡ (claimed, acquired opened false)
unfolding stored
claims = refl

claimed-IsWellFormed : IsWellFormed claimed
unfolding stored
claimed-IsWellFormed =
    run-IsWellFormed factory short fresh ((pos 10, claim_call request) ∷ []) fresh-IsWellFormed

commits : commit_turn short (pos 20) claimed commit ≡ (after_commit, committed session_after ended)
unfolding stored
commits = refl

-- The operation's lease has ended, and the claim takes it over under the next token.
takes_over : claim_operation factory (pos 2000) claimed request ≡ (
  (claim_operation factory (pos 2000) claimed request).0,
  acquired (leased opened (pos 3000) (pos 2)) true,
)
unfolding stored
takes_over = refl

reachable-IsWellFormed_example :
    IsWellFormed
      (run factory short fresh ((pos 10, claim_call request) ∷ (pos 20, commit_call commit) ∷ []))
unfolding stored
reachable-IsWellFormed_example =
    reachable-IsWellFormed factory short (pos 0) (guest ∷ []) fresh refl
      ((pos 10, claim_call request) ∷ (pos 20, commit_call commit) ∷ [])

step-Move_example :
    Move short
      (pos 20)
      (commit_call commit)
      claimed
      (step factory short claimed (pos 20, commit_call commit))
step-Move_example = step-Move factory short claimed (pos 20) (commit_call commit)

commit_turn-replays_example :
    claim_operation factory (pos 9000) after_commit request ≡ (after_commit, replay ended answer)
unfolding stored
commit_turn-replays_example =
    commit_turn-replays factory short (pos 20) (pos 9000) claimed after_commit commit session_after
      ended [] request claimed-IsWellFormed commits refl refl
      (record { same_session = refl; same_key = refl; same_hash = refl; same_revision = refl })

commit_turn-once_example : ¬ (
    commit_turn short (pos 30) after_commit commit ≡ (after_commit, committed session_after ended))
unfolding stored
commit_turn-once_example =
    commit_turn-once factory short (pos 20) (pos 30) claimed after_commit commit session_after ended
      [] commit after_commit session_after ended claimed-IsWellFormed commits refl

claim_operation-newest_example : pos 1 <ℤ pos 2
unfolding stored
claim_operation-newest_example =
    claim_operation-newest factory (pos 2000) claimed
      (claim_operation factory (pos 2000) claimed request).0 request
      (leased opened (pos 3000) (pos 2)) true (lit "op-1") opened claimed-IsWellFormed takes_over
      refl refl

claim_operation-fences_example : ¬ (
    commit_turn short (pos 2010) (claim_operation factory (pos 2000) claimed request).0 commit
    ≡ (after_commit, committed session_after ended))
unfolding stored
claim_operation-fences_example =
    claim_operation-fences factory short (pos 2000) (pos 2010) claimed
      (claim_operation factory (pos 2000) claimed request).0 request
      (leased opened (pos 3000) (pos 2)) true [] commit after_commit session_after ended
      claimed-IsWellFormed takes_over refl (omega arith)
