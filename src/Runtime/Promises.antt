-- ===== src/Runtime/Promises.antt =====
-- What the storage promises its callers: one answer for one request, one commit for one operation, and
-- no commit by a holder that has been overtaken.
use mathlib.Core.Option.{some-injective}
use sandboxengine.Prelude.{
  ℕ, ◌≡◌, refl, sym, ap, ◌∙◌, true, false, some, List, inl, inr, Option-cases,
}
use sandboxengine.Prelude.Int.{ℤ, eqb_ℤ}
use sandboxengine.Prelude.Text.{Text, text_eq}
use sandboxengine.Prelude.Dict.{lookup, store, lookup-store_same}
use sandboxengine.Contracts.Value.{Value}
use sandboxengine.Runtime.Records.{Storage, SessionRecord, MutableSession, OperationRecord}
use sandboxengine.Runtime.Storage.{
  operation_key, is_processing, is_lease_end_safe, canonical_request_hash,
}
use sandboxengine.Runtime.Claim.{
  ClaimOperationInput, replay, claim_operation, claim_in_session, claim_existing,
  is_valid_claim_input,
}
use sandboxengine.Runtime.Commit.{
  CommitTurnInput, CommitTurnResult, committed, refused, held, commit_turn, commit_held,
  committed_operation, hold, refuse_turn,
}
use sandboxengine.Runtime.Holders.{hold-Holds}
use sandboxengine.Runtime.Moves.{Call}
use sandboxengine.Runtime.Steps.{run, commit_turn-Move, Held-cases}
use sandboxengine.Runtime.Invariant.{IsWellFormed}
use sandboxengine.Runtime.Reachable.{Move-WellFormed, run-IsWellFormed}
use sandboxengine.Runtime.Lasting.{run-keeps_done}

abbrev result_of : Storage × CommitTurnResult → CommitTurnResult
result_of r = r.1

-- A commit that succeeds holds its operation.
pub committed-parts :
    (json_length : Value → ℕ) (now : ℤ) (s t : Storage) (i : CommitTurnInput) (r : SessionRecord)
    (p : OperationRecord)
    → commit_turn json_length now s i ≡ (t, committed r p)
    → (session : MutableSession) × (o : OperationRecord) × (hold now s i.holder ≡ held session o)
      × (commit_held s i session o ≡ (t, committed r p))
unfolding commit_turn
committed-parts json_length now s t i r p h = elim (Held-cases (hold now s i.holder)) [
  | inr (x, e) ↦ let got = ap result_of (rw (e, commit_turn) at h) in cc
  | inl (session, o, e) ↦ elim (Option-cases (refuse_turn json_length s i o)) [
    | inr (x, f) ↦ let got = ap result_of (rw (e, f, commit_turn) at h) in cc
    | inl f ↦ (session, o, e, rw (e, f, commit_turn) at h)
  ]
]

abbrev committed_record : CommitTurnResult → OperationRecord → OperationRecord
committed_record (committed r p) d = p
committed_record (refused x) d = d

-- The committed operation is stored and done.
committed-stored :
    (json_length : Value → ℕ) (now : ℤ) (s t : Storage) (i : CommitTurnInput) (r : SessionRecord)
    (p : OperationRecord)
    → IsWellFormed s
    → commit_turn json_length now s i ≡ (t, committed r p)
    → IsWellFormed t
      × (lookup i.holder.operation_id t.operations ≡ some p)
      × (is_processing p.status ≡ false)
      × (p.public_response ≡ some i.public_response)
committed-stored json_length now s t i r p wf h =
    let (session, o, e, done) = committed-parts json_length now s t i r p h in
    let (holds, _, _) = hold-Holds now s i.holder session o e in
    let o' = committed_operation o i.turn_record.turn_id i.public_response in
    let is_p : o' ≡ p = ap (λ (z : Storage × CommitTurnResult). committed_record z.1 o') done in
    let is_t = ap (λ (z : Storage × CommitTurnResult). z.0) done in
    let named = (wf.operations_ok i.holder.operation_id o holds.operation_found).named in
    let well : IsWellFormed (commit_turn json_length now s i).0 =
      Move-WellFormed now s (commit_turn json_length now s i).0
        (commit_turn-Move json_length now s i) wf in
    let found : lookup i.holder.operation_id t.operations ≡ some o' =
      ap (λ z. lookup i.holder.operation_id z.operations) (sym is_t)
      ∙ ap (λ z. lookup z (store o.operation_id o' s.operations)) (sym named)
      ∙ lookup-store_same o.operation_id o' s.operations in
    (
      rw (ap (λ (z : Storage × CommitTurnResult). z.0) h) at well,
      rw is_p at found,
      ap (λ z. is_processing z.status) (sym is_p),
      ap (λ z. z.public_response) (sym is_p),
    )

-- The request of a claim is the one that an operation was opened for.
pub record IsSameRequest (i : ClaimOperationInput) (o : OperationRecord) : Type 0 where
  pub same_session : i.session_id ≡ o.session_id
  pub same_key : i.idempotency_key ≡ o.idempotency_key
  pub same_hash : text_eq o.request_hash (canonical_request_hash i.request_hash) ≡ true
  pub same_revision : eqb_ℤ o.expected_revision i.expected_revision ≡ true

claim_operation-replays :
    (factory : ℕ → Text) (now : ℤ) (s : Storage) (i : ClaimOperationInput) (k : Text)
    (o : OperationRecord) (v : Value)
    → IsWellFormed s
    → lookup k s.operations ≡ some o
    → is_processing o.status ≡ false
    → o.public_response ≡ some v
    → is_valid_claim_input i ≡ true
    → is_lease_end_safe now i.lease_duration_ms ≡ true
    → IsSameRequest i o
    → claim_operation factory now s i ≡ (s, replay o v)
unfolding claim_operation claim_in_session claim_existing
claim_operation-replays factory now s i k o v wf found done answer valid safe same =
    let ok = wf.operations_ok k o found in
    let session_found : lookup i.session_id s.sessions ≡ some ok.session =
      ap (λ z. lookup z s.sessions) same.same_session ∙ ok.session_found in
    let key_found : lookup (operation_key i.session_id i.idempotency_key) s.operation_by_key
        ≡ some k =
      rw (same.same_session, same.same_key) ok.by_key in
    rw
      (
        valid, safe, session_found, key_found, found, same.same_hash, same.same_revision, done,
        answer, claim_operation, claim_in_session, claim_existing,
      )
      refl

-- After a commit has succeeded and any further calls, a claim for the same session, key, hash and
-- revision, at any time at which its lease would end at a safe integer, changes nothing and answers
-- with the committed operation and the committed response.
pub commit_turn-replays :
    (factory : ℕ → Text) (json_length : Value → ℕ) (now later : ℤ) (s t : Storage)
    (i : CommitTurnInput) (r : SessionRecord) (p : OperationRecord) (cs : List (ℤ × Call))
    (j : ClaimOperationInput)
    → IsWellFormed s
    → commit_turn json_length now s i ≡ (t, committed r p)
    → is_valid_claim_input j ≡ true
    → is_lease_end_safe later j.lease_duration_ms ≡ true
    → IsSameRequest j p
    → claim_operation factory later (run factory json_length t cs) j
      ≡ (run factory json_length t cs, replay p i.public_response)
commit_turn-replays factory json_length now later s t i r p cs j wf h valid safe same =
    let (wf', found, done, answer) = committed-stored json_length now s t i r p wf h in
    claim_operation-replays factory later (run factory json_length t cs) j i.holder.operation_id p
      i.public_response (run-IsWellFormed factory json_length t cs wf')
      (run-keeps_done factory json_length t cs i.holder.operation_id p wf' done found) done answer
      valid safe same

-- After a commit has succeeded and any further calls, no commit of the same operation succeeds.
pub commit_turn-once :
    (factory : ℕ → Text) (json_length : Value → ℕ) (now later : ℤ) (s t : Storage)
    (i : CommitTurnInput) (r : SessionRecord) (p : OperationRecord) (cs : List (ℤ × Call))
    (j : CommitTurnInput) (u : Storage) (r' : SessionRecord) (p' : OperationRecord)
    → IsWellFormed s
    → commit_turn json_length now s i ≡ (t, committed r p)
    → j.holder.operation_id ≡ i.holder.operation_id
    → ¬ (commit_turn json_length later (run factory json_length t cs) j ≡ (u, committed r' p'))
commit_turn-once factory json_length now later s t i r p cs j u r' p' wf h same again =
    let (wf', found, done, _) = committed-stored json_length now s t i r p wf h in
    let end = run factory json_length t cs in
    let kept = run-keeps_done factory json_length t cs i.holder.operation_id p wf' done found in
    let (session, o, e, _) = committed-parts json_length later end u j r' p' again in
    let (holds, _, _) = hold-Holds later end j.holder session o e in
    let o_p =
      some-injective _ _
        (sym holds.operation_found ∙ ap (λ z. lookup z end.operations) same ∙ kept) in
    let bad = sym holds.going ∙ ap (λ z. is_processing z.status) o_p ∙ done in cc
