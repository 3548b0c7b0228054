-- ===== src/Control/JobCompletion.antt =====
-- What the answer that an operation is completed says about the job before and after.
use mathlib.Core.Option.{some-injective}
use sandboxengine.Prelude.{
  ◌≡◌, refl, sym, ap, ◌∙◌, Bool, true, false, some, inl, inr, Bool-cases, Option-cases,
}
use sandboxengine.Prelude.Int.{◌+ℤ◌, is_safe_natural}
use sandboxengine.Prelude.Text.{Text, text_eq}
use sandboxengine.Prelude.Dict.{lookup, store}
use sandboxengine.Control.Records.{
  AuthorAgentJobRecord, AuthorAgentOperationRecord, CompleteAuthorAgentOperationInput,
}
use sandboxengine.Control.Jobs.{is_complete_input, completed_operation}
use sandboxengine.Control.JobStore.{JobStore}
use sandboxengine.Control.JobOperations.{
  CompleteAuthorAgentOperationResult, completed, is_pending, complete_operation, complete_found,
  complete_existing, should_pause, worked, pause_fact,
}
use sandboxengine.Control.JobMoves.{Row, HasRow, put, Change, completes, with_completed}
use sandboxengine.Control.JobHandlers.{append_fact-some, is_complete_input-time}

pub complete_operation-found :
    (is_json_string : Text → Bool) (s t : JobStore) (k : Text)
    (i : CompleteAuthorAgentOperationInput) (job : AuthorAgentJobRecord)
    (o : AuthorAgentOperationRecord)
    → complete_operation is_json_string s k i ≡ (t, some (completed job o))
    → (old : AuthorAgentJobRecord) × (lookup k s.jobs ≡ some old)
unfolding complete_operation
complete_operation-found is_json_string s t k i job o h = elim (Option-cases (lookup k s.jobs)) [
  | inr found ↦ found
  | inl e ↦ let bad = ap (λ z. z.1) (rw (e, complete_operation) at h) in cc
]

abbrev operation_of :
    AuthorAgentOperationRecord → CompleteAuthorAgentOperationResult → AuthorAgentOperationRecord
operation_of d (completed job o) = o
operation_of d _ = d

module _ (s t : JobStore) (k : Text) (r : Row) (has : HasRow s k r) where
  -- The operation that was completed.
  pub record Completes (i : CompleteAuthorAgentOperationInput) (o : AuthorAgentOperationRecord)
      : Type 0 where
    pub was : AuthorAgentOperationRecord
    pub was_found : lookup i.operation_id r.operations ≡ some was
    pub now_is : o ≡ completed_operation was i
    pub same_hash : text_eq was.request_hash i.request_hash ≡ true
    pub change : Change k r (with_completed k r i was)
    pub after : t ≡ put s k (with_completed k r i was)

  complete_existing-completed :
      (i : CompleteAuthorAgentOperationInput) (was : AuthorAgentOperationRecord)
      (job : AuthorAgentJobRecord) (o : AuthorAgentOperationRecord)
      → lookup i.operation_id r.operations ≡ some was
      → is_safe_natural i.active_time_ms ≡ true
      → complete_existing s k i r.job r.operations was ≡ (t, some (completed job o))
      → Completes i o
  unfolding complete_existing
  complete_existing-completed i was job o found time h =
      elim (Bool-cases (text_eq was.request_hash i.request_hash)) [
        | inr e ↦ let bad = ap (λ z. z.1) (rw (e, complete_existing) at h) in cc
        | inl e ↦ elim (Bool-cases (is_pending was.status)) [
          | inr f ↦ let bad = ap (λ z. z.1) (rw (e, f, complete_existing) at h) in cc
          | inl f ↦
              let after = with_completed k r i was in
              let fact =
                pause_fact (should_pause r.job (r.job.active_time_ms_used +ℤ i.active_time_ms))
                  (worked r.job i) in
              let s' : JobStore = record s {
                jobs = store k after.job s.jobs;
                operations = store k after.operations s.operations;
              } in
              let done =
                rw
                  (
                    e,
                    f,
                    complete_existing,
                    append_fact-some s' k r.journal fact i.at_ms has.journal_found,
                  )
                  at h in
              let answer = some-injective _ _ (ap (λ z. z.1) done) in
              record {
                was = was;
                was_found = found;
                now_is = ap (operation_of o) (sym answer);
                same_hash = e;
                change = completes i was found e f time;
                after = ap (λ z. z.0) (sym done);
              }
        ]
      ]

  not_completed :
      (is_json_string : Text → Bool) (i : CompleteAuthorAgentOperationInput)
      (job : AuthorAgentJobRecord) (o : AuthorAgentOperationRecord)
      → is_complete_input is_json_string i ≡ false
      → ¬ (complete_found is_json_string s k i r.job ≡ (t, some (completed job o)))
  unfolding complete_found
  not_completed is_json_string i job o e h =
      let bad = ap (λ z. z.1) (rw (e, complete_found) at h) in cc

  complete_found-completed :
      (is_json_string : Text → Bool) (i : CompleteAuthorAgentOperationInput)
      (job : AuthorAgentJobRecord) (o : AuthorAgentOperationRecord)
      → is_complete_input is_json_string i ≡ true
      → complete_found is_json_string s k i r.job ≡ (t, some (completed job o))
      → Completes i o
  unfolding complete_found
  complete_found-completed is_json_string i job o e h =
      elim (Option-cases (lookup i.operation_id r.operations)) [
        | inl f ↦
            let bad = ap (λ z. z.1) (rw (e, has.operations_found, f, complete_found) at h) in cc
        | inr (was, f) ↦
            let found : complete_found is_json_string s k i r.job
                ≡ complete_existing s k i r.job r.operations was =
              rw (e, has.operations_found, f, complete_found) refl in
            complete_existing-completed i was job o f
              (is_complete_input-time s k r has is_json_string i e) (sym found ∙ h)
      ]

  pub complete_operation-completed :
      (is_json_string : Text → Bool) (i : CompleteAuthorAgentOperationInput)
      (job : AuthorAgentJobRecord) (o : AuthorAgentOperationRecord)
      → complete_operation is_json_string s k i ≡ (t, some (completed job o))
      → Completes i o
  unfolding complete_operation
  complete_operation-completed is_json_string i job o h =
      let here : complete_operation is_json_string s k i
          ≡ complete_found is_json_string s k i r.job =
        rw (has.job_found, complete_operation) refl in
      let got = sym here ∙ h in
      elim (Bool-cases (is_complete_input is_json_string i)) [
        | inl e ↦ complete_found-completed is_json_string i job o e got
        | inr e ↦ absurd (not_completed is_json_string i job o e got)
      ]
