-- ===== src/Control/JobPromises.antt =====
-- What the store of jobs promises its callers over any calls.
use mathlib.Core.Path.{subst}
use sandboxengine.Prelude.{◌≡◌, refl, sym, ap, ◌∙◌, Bool, true, false, some, List, inl, inr}
use sandboxengine.Prelude.Int.{ℤ, pos, ◌+ℤ◌, ◌≤ℤ◌, int_laws}
use sandboxengine.Prelude.Text.{Text, text_eq, text_eq_iff}
use sandboxengine.Prelude.Dict.{lookup, lookup-store_same}
use sandboxengine.Control.Records.{
  AuthorAgentJobRecord, AuthorAgentOperationRecord, TransitionAuthorAgentJobInput,
  ReserveAuthorAgentOperationInput, CompleteAuthorAgentOperationInput,
}
use sandboxengine.Control.Jobs.{
  is_terminal, is_reserve_input, is_complete_input, kind_eq, pending_operation, completed_operation,
}
use sandboxengine.Control.JobStore.{JobStore, updated, transition_job}
use sandboxengine.Control.JobOperations.{
  reserved, replay, completed, is_pending, reserve_operation, reserve_found, replay_or_reuse,
  complete_operation, complete_found, complete_existing, same_revision,
}
use sandboxengine.Control.JobMoves.{Row, HasRow, put, with_reserved, with_completed}
use sandboxengine.Control.JobSteps.{JobCall, job_run}
use sandboxengine.Control.JobRows.{IsRow, Change-IsRow}
use sandboxengine.Control.JobHistory.{IsJobStore, HasRow-put, Reach, put-IsJobStore, job_run-Reach}
use sandboxengine.Control.JobLasting.{Reach-IsEnded, Reach-version, Reach-KeptIn, Change-version}
use sandboxengine.Control.JobAnswers.{
  transition_job-found, reserve_operation-found, transition_job-updated, reserve_operation-reserved,
}
use sandboxengine.Control.JobReplies.{
  IsAnswered, kind_eq_refl, same_revision_refl, pending_or_completed,
}
use sandboxengine.Control.JobCompletion.{complete_operation-found, complete_operation-completed}

-- The row of a job after any calls on the store in which it was put.
after_put :
    (is_json_string : Text → Bool) (s t : JobStore) (k : Text) (r : Row) (cs : List JobCall)
    → IsJobStore s
    → IsRow k r
    → t ≡ put s k r
    → (r' : Row) × HasRow (job_run is_json_string t cs) k r' × Reach k r r'
after_put is_json_string s t k r cs ok row_ok e =
    job_run-Reach is_json_string t cs k r
      (subst IsJobStore (sym e) (put-IsJobStore s k r ok row_ok))
      (subst (λ z. HasRow z k r) (sym e) (HasRow-put s k r))

not_before : (a b c : ℤ) → b ≡ a +ℤ pos 1 → b ≤ℤ c → ¬ (c ≡ a)
not_before a b c up low same =
    let bad : a +ℤ pos 1 ≤ℤ a = rw (up, same) at low in omega (int_laws, bad)

-- A job that has succeeded, failed or been cancelled is in the same state after any calls, and its
-- journal is the same.
pub terminal_lasts :
    (is_json_string : Text → Bool) (s : JobStore) (cs : List JobCall) (k : Text)
    (job : AuthorAgentJobRecord)
    → IsJobStore s
    → lookup k s.jobs ≡ some job
    → is_terminal job.state ≡ true
    → (job' : AuthorAgentJobRecord) × (lookup k (job_run is_json_string s cs).jobs ≡ some job')
      × (job'.state ≡ job.state)
      × (lookup k (job_run is_json_string s cs).checkpoints ≡ lookup k s.checkpoints)
terminal_lasts is_json_string s cs k job ok found ended =
    let was = ok k job found in
    let r = was.row in
    let row_ended : is_terminal r.job.state ≡ true =
      ap (λ z. is_terminal z.state) was.row_job ∙ ended in
    let (r', has', reach) = job_run-Reach is_json_string s cs k r ok was.has in
    let same = Reach-IsEnded k r r' row_ended reach in
    (
      r'.job,
      has'.job_found,
      same.same_state ∙ ap (λ z. z.state) was.row_job,
      has'.journal_found ∙ ap some same.same_journal ∙ sym was.has.journal_found,
    )

-- After a transition of a job has been answered as an update and any further calls, no transition of
-- that job that expects the same version is.
pub transition_job-once :
    (is_json_string : Text → Bool) (s t u : JobStore) (cs : List JobCall) (k : Text)
    (i j : TransitionAuthorAgentJobInput) (job job' : AuthorAgentJobRecord)
    → IsJobStore s
    → transition_job s k i ≡ (t, some (updated job))
    → i.expected_job_version ≡ j.expected_job_version
    → ¬ (transition_job (job_run is_json_string t cs) k j ≡ (u, some (updated job')))
transition_job-once is_json_string s t u cs k i j job job' ok first same again =
    let (old, found) = transition_job-found s t k i job first in
    let was = ok k old found in
    let r = was.row in
    let (version, c) = transition_job-updated s t k r was.has i job first in
    let (r', has', reach) =
      after_put is_json_string s t k c.row cs ok (Change-IsRow k r c.row was.row_ok c.change)
        c.after in
    let (version', _) =
      transition_job-updated (job_run is_json_string t cs) u k r' has' j job' again in
    let up = Change-version k r c.row c.change in
    let low = Reach-version k c.row r' reach in
    not_before r.job.job_version c.row.job.job_version r'.job.job_version up low
      (version' ∙ sym same ∙ sym version)

-- After an operation has been reserved and any further calls, a valid reservation with the same id,
-- hash, kind and base revision, whatever version it expects, changes nothing. It is answered with the
-- job and the operation that the store then holds under their ids, the operation with the hash, the
-- kind and the base revision that it was reserved with: as pending with the very operation that was
-- reserved, or as a replay if the stored operation has been completed.
pub reserve_operation-idempotent :
    (is_json_string : Text → Bool) (s t : JobStore) (cs : List JobCall) (k : Text)
    (i j : ReserveAuthorAgentOperationInput) (job : AuthorAgentJobRecord)
    (o : AuthorAgentOperationRecord)
    → IsJobStore s
    → reserve_operation s k i ≡ (t, some (reserved job o))
    → is_reserve_input j ≡ true
    → j.operation_id ≡ i.operation_id
    → j.request_hash ≡ i.request_hash
    → j.operation_kind ≡ i.operation_kind
    → j.base_revision ≡ i.base_revision
    → ((reserve_operation (job_run is_json_string t cs) k j).0 ≡ job_run is_json_string t cs)
      × IsAnswered
          (job_run is_json_string t cs)
          k
          j.operation_id
          o
          (reserve_operation (job_run is_json_string t cs) k j).1
unfolding reserve_operation reserve_found replay_or_reuse
reserve_operation-idempotent is_json_string s t cs k i j job o ok first valid same_id same_hash
      same_kind same_base =
    let (old, found) = reserve_operation-found s t k i job o first in
    let was = ok k old found in
    let r = was.row in
    let (c, after, was_pending) = reserve_operation-reserved s t k r was.has i job o first in
    let m = with_reserved k r i in
    let m_ok = Change-IsRow k r m was.row_ok c in
    let (r', has', reach) = after_put is_json_string s t k m cs ok m_ok after in
    let pending_there = lookup-store_same i.operation_id (pending_operation k i) r.operations in
    let (o', there, kept) =
      Reach-KeptIn k i.operation_id m r' (pending_operation k i) m_ok pending_there reach in
    let o'_found : lookup j.operation_id r'.operations ≡ some o' =
      ap (λ z. lookup z r'.operations) same_id ∙ there in
    let hash : text_eq o'.request_hash j.request_hash ≡ true =
      (text_eq_iff o'.request_hash j.request_hash).1 (kept.same_hash ∙ sym same_hash) in
    let kind : kind_eq o'.operation_kind j.operation_kind ≡ true =
      rw (kept.same_kind, same_kind) (kind_eq_refl i.operation_kind) in
    let base : same_revision o'.base_revision j.base_revision ≡ true =
      rw (kept.same_base, same_base) (same_revision_refl i.base_revision) in
    let t' = job_run is_json_string t cs in
    let answered : reserve_operation t' k j ≡ (t', some (replay_or_reuse r'.job o' j)) =
      rw (has'.job_found, valid, has'.operations_found, o'_found, reserve_operation, reserve_found)
        refl in
    (
      ap (λ z. z.0) answered,
      record {
        job = r'.job;
        operations = r'.operations;
        operation = o';
        job_found = has'.job_found;
        operations_found = has'.operations_found;
        operation_found = o'_found;
        same_hash = kept.same_hash ∙ ap (λ z. z.request_hash) (sym was_pending);
        same_kind = kept.same_kind ∙ ap (λ z. z.operation_kind) (sym was_pending);
        same_base = kept.same_base ∙ ap (λ z. z.base_revision) (sym was_pending);
        answered_with = elim (pending_or_completed o'.status) [
          | inl going ↦ inl (
            kept.same_pending (ap is_pending going) ∙ sym was_pending,
            ap (λ z. z.1) answered ∙ rw (hash, kind, base, going, replay_or_reuse) refl,
          )
          | inr done ↦
              inr (done, ap (λ z. z.1) answered ∙ rw (hash, kind, base, done, replay_or_reuse) refl)
        ];
      },
    )

-- After an operation has been completed and any further calls, a valid completion of it with the same
-- hash, whatever result it brings, changes nothing and is answered with the operation as it was
-- completed the first time, with the first result.
pub complete_operation-replays :
    (is_json_string : Text → Bool) (s t : JobStore) (cs : List JobCall) (k : Text)
    (i j : CompleteAuthorAgentOperationInput) (job : AuthorAgentJobRecord)
    (o : AuthorAgentOperationRecord)
    → IsJobStore s
    → complete_operation is_json_string s k i ≡ (t, some (completed job o))
    → is_complete_input is_json_string j ≡ true
    → j.operation_id ≡ i.operation_id
    → j.request_hash ≡ i.request_hash
    → (o.result ≡ some i.result)
      × ((job' : AuthorAgentJobRecord) × (complete_operation is_json_string
              (job_run is_json_string t cs)
              k
              j
            ≡ (job_run is_json_string t cs, some (replay job' o))))
unfolding complete_operation complete_found complete_existing
complete_operation-replays is_json_string s t cs k i j job o ok first valid same_id same_hash =
    let (old, found) = complete_operation-found is_json_string s t k i job o first in
    let was = ok k old found in
    let r = was.row in
    let c = complete_operation-completed s t k r was.has is_json_string i job o first in
    let m = with_completed k r i c.was in
    let m_ok = Change-IsRow k r m was.row_ok c.change in
    let (r', has', reach) = after_put is_json_string s t k m cs ok m_ok c.after in
    let named = (was.row_ok.operations_ok i.operation_id c.was c.was_found).named in
    let o'' = completed_operation c.was i in
    let there : lookup i.operation_id m.operations ≡ some o'' =
      ap (λ z. lookup z m.operations) (sym named)
      ∙ lookup-store_same c.was.operation_id o'' r.operations in
    let (o', o'_there, kept) = Reach-KeptIn k i.operation_id m r' o'' m_ok there reach in
    let o'_o : o' ≡ o = kept.same_completed refl ∙ sym c.now_is in
    let o_found : lookup j.operation_id r'.operations ≡ some o =
      ap (λ z. lookup z r'.operations) same_id ∙ o'_there ∙ ap some o'_o in
    let hash : text_eq o.request_hash j.request_hash ≡ true =
      (text_eq_iff o.request_hash j.request_hash).1 (
        ap (λ z. z.request_hash) c.now_is
        ∙ (text_eq_iff c.was.request_hash i.request_hash).0 c.same_hash
        ∙ sym same_hash) in
    let done : is_pending o.status ≡ false = ap (λ z. is_pending z.status) c.now_is in
    (
      ap (λ z. z.result) c.now_is,
      (
        r'.job,
        rw
            (
              has'.job_found, valid, has'.operations_found, o_found, hash, done, complete_operation,
              complete_found, complete_existing,
            )
            refl,
      ),
    )
