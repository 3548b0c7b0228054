-- ===== src/Control/JobHandlers.antt =====
-- The calls on a job that is there.
use sandboxengine.Prelude.{
  ◌≡◌, refl, Bool, true, not, ◌||◌, Option, none, some, List, inl, inr, Bool-cases, Option-cases,
  arith,
}
use sandboxengine.Prelude.Int.{ℤ, ◌+ℤ◌, eqb_ℤ, is_safe_natural}
use sandboxengine.Prelude.Text.{Text, text_eq}
use sandboxengine.Prelude.Dict.{lookup, store, store_found}
use sandboxengine.Control.Facts.{AuthorAgentCheckpointFact, is_checkpoint_fact}
use sandboxengine.Control.Records.{
  AuthorAgentCheckpoint, AuthorAgentOperationRecord, TransitionAuthorAgentJobInput,
  ReserveAuthorAgentOperationInput, CompleteAuthorAgentOperationInput,
}
use sandboxengine.Control.Jobs.{
  is_transition_input, is_reserve_input, is_complete_input, transition_allowed, with_state,
  transition_fact, is_terminal, has_kind, budget_exhausted,
}
use sandboxengine.Control.JobStore.{
  JobStore, updated, append_fact, journal_with, noted, transition_job, transition_found,
  append_checkpoint, append_found,
}
use sandboxengine.Control.JobOperations.{
  is_pending, is_runnable, reserve_operation, reserve_found, reserve_new, complete_operation,
  complete_found, complete_existing, should_pause, worked, pause_fact,
}
use sandboxengine.Control.JobMoves.{
  Row, HasRow, Outcome, moves, notes, reserves, completes, moved, with_note, with_reserved,
  with_completed,
}

pub append_fact-some :
    (s : JobStore) (k : Text) (journal : List AuthorAgentCheckpoint)
    (fact : Option AuthorAgentCheckpointFact) (at : ℤ)
    → lookup k s.checkpoints ≡ some journal
    → append_fact s k fact at
      ≡ some (record s { checkpoints = store k (journal_with k journal fact at) s.checkpoints })
unfolding append_fact
append_fact-some s k journal none at h = rw (store_found k journal s.checkpoints h) refl
append_fact-some s k journal (some fact) at h = rw (h, append_fact) refl

-- Nothing is changed, and something returned.
stays : {A : Type 0} → (s : JobStore) (k : Text) (r : Row) (x : A) → Outcome s k r (s, some x)
stays s k r x = record { returns = (x, refl); effect = inl refl }

module _ (s : JobStore) (k : Text) (r : Row) (has : HasRow s k r) where
  transition_found-Outcome :
      (i : TransitionAuthorAgentJobInput) → Outcome s k r (transition_found s k i r.job)
  unfolding transition_found
  transition_found-Outcome i = elim (Bool-cases (is_transition_input i)) [
    | inr e ↦ rw (e, transition_found) (stays s k r _)
    | inl e ↦ elim (Bool-cases (eqb_ℤ r.job.job_version i.expected_job_version)) [
      | inr f ↦ rw (e, f, transition_found) (stays s k r _)
      | inl f ↦ elim (Bool-cases (transition_allowed r.job.state i.to)) [
        | inr g ↦ rw (e, f, g, transition_found) (stays s k r _)
        | inl g ↦
            let job = with_state r.job i.to i.at_ms in
            let fact = transition_fact r.job.state i.to i.failure_code job in
            let appended =
              append_fact-some (record s { jobs = store k job s.jobs }) k r.journal fact i.at_ms
                has.journal_found in
            rw (e, f, g, transition_found, appended)
              (record {
                returns = (updated job, refl);
                effect = inr (
                  moved k r i.to i.failure_code i.at_ms,
                  moves i.to i.failure_code i.at_ms g,
                  rw (store_found k r.operations s.operations has.operations_found) refl,
                );
              })
      ]
    ]
  ]

  pub transition_job-Outcome :
      (i : TransitionAuthorAgentJobInput) → Outcome s k r (transition_job s k i)
  unfolding transition_job
  transition_job-Outcome i = rw (has.job_found, transition_job) (transition_found-Outcome i)

  append_found-Outcome :
      (n : ℤ) (fact : AuthorAgentCheckpointFact) (at : ℤ)
      → Outcome s k r (append_found s k n fact at r.job)
  unfolding append_found
  append_found-Outcome n fact at =
      elim (Bool-cases
        (not (is_safe_natural n) || not (is_safe_natural at) || not (is_checkpoint_fact fact))) [
          | inl e ↦ rw (e, append_found) (stays s k r _)
          | inr e ↦ elim (Bool-cases (eqb_ℤ r.job.job_version n)) [
            | inr f ↦ rw (e, f, append_found) (stays s k r _)
            | inl f ↦ elim (Bool-cases (is_terminal r.job.state)) [
              | inl g ↦ rw (e, f, g, append_found) (stays s k r _)
              | inr g ↦
                  let appended =
                    append_fact-some (record s { jobs = store k (noted r.job at) s.jobs }) k
                      r.journal (some fact) at has.journal_found in
                  rw (e, f, g, append_found, appended)
                    (record {
                      returns = (updated (noted r.job at), refl);
                      effect = inr (
                        with_note k r fact at,
                        notes fact at g,
                        rw (store_found k r.operations s.operations has.operations_found) refl,
                      );
                    })
            ]
          ]
        ]

  pub append_checkpoint-Outcome :
      (n : ℤ) (fact : AuthorAgentCheckpointFact) (at : ℤ)
      → Outcome s k r (append_checkpoint s k n fact at)
  unfolding append_checkpoint
  append_checkpoint-Outcome n fact at =
      rw (has.job_found, append_checkpoint) (append_found-Outcome n fact at)

  reserve_new-Outcome :
      (i : ReserveAuthorAgentOperationInput)
      → lookup i.operation_id r.operations ≡ none
      → Outcome s k r
          ((reserve_new s k i r.job r.operations).0, some (reserve_new s k i r.job r.operations).1)
  unfolding reserve_new
  reserve_new-Outcome i new = elim (Bool-cases (eqb_ℤ r.job.job_version i.expected_job_version)) [
    | inr e ↦ rw (e, reserve_new) (stays s k r _)
    | inl e ↦ elim (Bool-cases (is_runnable r.job.state)) [
      | inr f ↦ rw (e, f, reserve_new) (stays s k r _)
      | inl f ↦ elim (Bool-cases (has_kind r.job.grant.allowed_operations i.operation_kind)) [
        | inr g ↦ rw (e, f, g, reserve_new) (stays s k r _)
        | inl g ↦ elim (Bool-cases (budget_exhausted r.job)) [
          | inl h ↦ rw (e, f, g, h, reserve_new) (stays s k r _)
          | inr h ↦
              rw (e, f, g, h, reserve_new)
                (record {
                  returns = (_, refl);
                  effect = inr (
                    with_reserved k r i,
                    reserves i new f g h,
                    rw (store_found k r.journal s.checkpoints has.journal_found) refl,
                  );
                })
        ]
      ]
    ]
  ]

  reserve_found-Outcome :
      (i : ReserveAuthorAgentOperationInput) → Outcome s k r (reserve_found s k i r.job)
  unfolding reserve_found
  reserve_found-Outcome i = elim (Bool-cases (is_reserve_input i)) [
    | inr e ↦ rw (e, reserve_found) (stays s k r _)
    | inl e ↦ elim (Option-cases (lookup i.operation_id r.operations)) [
      | inr (o, f) ↦ rw (e, has.operations_found, f, reserve_found) (stays s k r _)
      | inl f ↦ rw (e, has.operations_found, f, reserve_found) (reserve_new-Outcome i f)
    ]
  ]

  pub reserve_operation-Outcome :
      (i : ReserveAuthorAgentOperationInput) → Outcome s k r (reserve_operation s k i)
  unfolding reserve_operation
  reserve_operation-Outcome i = rw (has.job_found, reserve_operation) (reserve_found-Outcome i)

  complete_existing-Outcome :
      (i : CompleteAuthorAgentOperationInput) (o : AuthorAgentOperationRecord)
      → lookup i.operation_id r.operations ≡ some o
      → is_safe_natural i.active_time_ms ≡ true
      → Outcome s k r (complete_existing s k i r.job r.operations o)
  unfolding complete_existing
  complete_existing-Outcome i o found time =
      elim (Bool-cases (text_eq o.request_hash i.request_hash)) [
        | inr e ↦ rw (e, complete_existing) (stays s k r _)
        | inl e ↦ elim (Bool-cases (is_pending o.status)) [
          | inr f ↦ rw (e, f, complete_existing) (stays s k r _)
          | inl f ↦
              let after = with_completed k r i o in
              let fact =
                pause_fact (should_pause r.job (r.job.active_time_ms_used +ℤ i.active_time_ms))
                  (worked r.job i) in
              let s' : JobStore = record s {
                jobs = store k after.job s.jobs;
                operations = store k after.operations s.operations;
              } in
              rw
                (
                  e,
                  f,
                  complete_existing,
                  append_fact-some s' k r.journal fact i.at_ms has.journal_found,
                )
                (record {
                  returns = (_, refl);
                  effect = inr (after, completes i o found e f time, refl);
                })
        ]
      ]

  module _ (is_json_string : Text → Bool) where
    pub is_complete_input-time :
        (i : CompleteAuthorAgentOperationInput)
        → is_complete_input is_json_string i ≡ true
        → is_safe_natural i.active_time_ms ≡ true
    unfolding is_complete_input
    is_complete_input-time i h = ground arith

    complete_found-Outcome :
        (i : CompleteAuthorAgentOperationInput)
        → Outcome s k r (complete_found is_json_string s k i r.job)
    unfolding complete_found
    complete_found-Outcome i = elim (Bool-cases (is_complete_input is_json_string i)) [
      | inr e ↦ rw (e, complete_found) (stays s k r _)
      | inl e ↦ elim (Option-cases (lookup i.operation_id r.operations)) [
        | inl f ↦ rw (e, has.operations_found, f, complete_found) (stays s k r _)
        | inr (o, f) ↦
            rw (e, has.operations_found, f, complete_found)
              (complete_existing-Outcome i o f (is_complete_input-time i e))
      ]
    ]

    pub complete_operation-Outcome :
        (i : CompleteAuthorAgentOperationInput)
        → Outcome s k r (complete_operation is_json_string s k i)
    unfolding complete_operation
    complete_operation-Outcome i = rw (has.job_found, complete_operation) (complete_found-Outcome i)
