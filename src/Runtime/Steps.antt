-- ===== src/Runtime/Steps.antt =====
-- Calls in sequence, each at its own service time.
use sandboxengine.Prelude.{
  ℕ, ◌≡◌, refl, Bool, true, false, none, List, [], ◌∷◌, inl, inr, Bool-cases, Option-cases, ◌⊎◌,
  if◌then◌else◌, arith,
}
use sandboxengine.Prelude.Int.{ℤ, is_safe_natural}
use sandboxengine.Prelude.Text.{Text}
use sandboxengine.Contracts.Value.{Value}
use sandboxengine.Runtime.Records.{Storage, MutableSession, OperationRecord}
use sandboxengine.Runtime.Storage.{
  is_public_response, is_valid_candidate_state, is_valid_turn_record, turn_exists,
}
use sandboxengine.Runtime.Claim.{Refusal, claim_operation, renew_lease}
use sandboxengine.Runtime.Commit.{
  CommitTurnInput, FinishWithoutTurnInput, Held, held, not_held, hold, refuse_turn, commit_turn,
  finish_without_turn,
}
use sandboxengine.Runtime.Moves.{
  Call, claim_call, renew_call, commit_call, finish_call, Move, commits, finishes,
}
use sandboxengine.Runtime.Handlers.{same, claim_operation-Move}
use sandboxengine.Runtime.Holders.{renew_lease-Move, hold-Holds}

-- One call. A service time that is no safe integer throws a RangeError before anything is read.
unfoldable pub step : (ℕ → Text) → (Value → ℕ) → Storage → ℤ × Call → Storage
step factory json_length s (now, claim_call i) =
    if is_safe_natural now then (claim_operation factory now s i).0 else s
step factory json_length s (now, renew_call i) =
    if is_safe_natural now then (renew_lease now s i).0 else s
step factory json_length s (now, commit_call i) =
    if is_safe_natural now then (commit_turn json_length now s i).0 else s
step factory json_length s (now, finish_call i) =
    if is_safe_natural now then (finish_without_turn json_length now s i).0 else s

unfoldable pub run : (ℕ → Text) → (Value → ℕ) → Storage → List (ℤ × Call) → Storage
run factory json_length s [] = s
run factory json_length s (c ∷ cs) = run factory json_length (step factory json_length s c) cs

pub Held-cases :
    (x : Held)
    → ((session : MutableSession) × (o : OperationRecord) × (x ≡ held session o))
      ⊎ ((r : Refusal) × (x ≡ not_held r))
Held-cases (held session o) = inl (session, o, refl)
Held-cases (not_held r) = inr (r, refl)

pub turn-parts :
    (json_length : Value → ℕ) (s : Storage) (i : CommitTurnInput) (o : OperationRecord)
    → refuse_turn json_length s i o ≡ none
    → (is_valid_candidate_state i.candidate_state i.holder.expected_revision ≡ true)
      × (is_valid_turn_record i.turn_record o i.holder.expected_revision ≡ true)
      × (turn_exists s i.holder.session_id i.turn_record.turn_id ≡ false)
      × (is_public_response json_length i.public_response ≡ true)
unfolding refuse_turn
turn-parts json_length s i o h = ground arith

pub commit_turn-Move :
    (json_length : Value → ℕ) (now : ℤ) (s : Storage) (i : CommitTurnInput)
    → Move json_length now (commit_call i) s (commit_turn json_length now s i).0
unfolding commit_turn
commit_turn-Move json_length now s i = elim (Held-cases (hold now s i.holder)) [
  | inr (r, e) ↦ rw (e, commit_turn) (same now s)
  | inl (session, o, e) ↦ elim (Option-cases (refuse_turn json_length s i o)) [
    | inr (r, f) ↦ rw (e, f, commit_turn) (same now s)
    | inl f ↦
        let (holds, here, there) = hold-Holds now s i.holder session o e in
        let (valid_state, valid_turn, new_turn, valid_response) = turn-parts json_length s i o f in
        rw (e, f, commit_turn)
          (commits (record {
            input = i;
            asked = refl;
            session = session;
            operation = o;
            holds = holds;
            current = here;
            same_revision = there;
            valid_state = rw here valid_state;
            valid_turn = rw here valid_turn;
            new_turn = new_turn;
            valid_response = valid_response;
            after = refl;
          }))
  ]
]

finish_without_turn-Move :
    (json_length : Value → ℕ) (now : ℤ) (s : Storage) (i : FinishWithoutTurnInput)
    → Move json_length now (finish_call i) s (finish_without_turn json_length now s i).0
unfolding finish_without_turn
finish_without_turn-Move json_length now s i = elim (Held-cases (hold now s i.holder)) [
  | inr (r, e) ↦ rw (e, finish_without_turn) (same now s)
  | inl (session, o, e) ↦ elim (Bool-cases (is_public_response json_length i.public_response)) [
    | inr f ↦ rw (e, f, finish_without_turn) (same now s)
    | inl f ↦
        let (holds, here, there) = hold-Holds now s i.holder session o e in
        rw (e, f, finish_without_turn)
          (finishes (record {
            input = i;
            asked = refl;
            session = session;
            operation = o;
            holds = holds;
            current = here;
            same_revision = there;
            valid_response = f;
            after = refl;
          }))
  ]
]

guarded-Move :
    {json_length : Value → ℕ} {c : Call} (now : ℤ) (s t : Storage) (b : Bool)
    → Move json_length now c s t
    → Move json_length now c s (if b then t else s)
guarded-Move now s t true m = m
guarded-Move now s t false m = same now s

-- Each call at each service time either leaves the storage as it is but for the count of ids, or does one
-- of five things to it, with what its own input says. A claim takes over the expired operation of its key
-- and its request, under the next token and until its duration after the service time; or it opens a new
-- operation in an idle session at the expected revision, under a new id and a new key, for its duration.
-- A renewal, a commit or a finish works on the operation that its session works on, within its lease and
-- under the token that it brings: a renewal makes the lease end its duration after the service time, at
-- least a millisecond and at most five minutes; a commit, at the expected revision, completes the
-- operation with its valid next state, its new turn and its valid response; and a finish, at the expected
-- revision, ends the operation without a turn, with its valid response.
pub step-Move :
    (factory : ℕ → Text) (json_length : Value → ℕ) (s : Storage) (now : ℤ) (c : Call)
    → Move json_length now c s (step factory json_length s (now, c))
unfolding step
step-Move factory json_length s now (claim_call i) =
    guarded-Move now s (claim_operation factory now s i).0 (is_safe_natural now)
      (claim_operation-Move json_length factory now s i)
step-Move factory json_length s now (renew_call i) =
    guarded-Move now s (renew_lease now s i).0 (is_safe_natural now)
      (renew_lease-Move json_length now s i)
step-Move factory json_length s now (commit_call i) =
    guarded-Move now s (commit_turn json_length now s i).0 (is_safe_natural now)
      (commit_turn-Move json_length now s i)
step-Move factory json_length s now (finish_call i) =
    guarded-Move now s (finish_without_turn json_length now s i).0 (is_safe_natural now)
      (finish_without_turn-Move json_length now s i)
