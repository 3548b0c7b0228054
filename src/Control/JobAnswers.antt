-- ===== src/Control/JobAnswers.antt =====
-- What a successful answer of a call says about the job before and after.
use mathlib.Core.Option.{some-injective}
use sandboxengine.Prelude.{
  ◌≡◌, refl, sym, ap, ◌∙◌, none, some, inl, inr, Bool-cases, Option-cases, arith,
}
use sandboxengine.Prelude.Int.{eqb_ℤ, eqb_ℤ_iff}
use sandboxengine.Prelude.Text.{Text}
use sandboxengine.Prelude.Dict.{lookup, store, store_found}
use sandboxengine.Control.Records.{
  AuthorAgentJobRecord, AuthorAgentOperationRecord, TransitionAuthorAgentJobInput,
  ReserveAuthorAgentOperationInput,
}
use sandboxengine.Control.Jobs.{
  is_transition_input, is_reserve_input, transition_allowed, with_state, transition_fact, has_kind,
  budget_exhausted, pending_operation,
}
use sandboxengine.Control.JobStore.{JobStore, updated, transition_job, transition_found}
use sandboxengine.Control.JobOperations.{
  ReserveAuthorAgentOperationResult, reserved, is_runnable, reserve_operation, reserve_found,
  reserve_new, replay_or_reuse,
}
use sandboxengine.Control.JobMoves.{Row, HasRow, put, Change, moves, reserves, moved, with_reserved}
use sandboxengine.Control.JobHandlers.{append_fact-some}

-- The call changed the job's row.
pub record Changed (s t : JobStore) (k : Text) (r : Row) : Type 0 where
  pub row : Row
  pub change : Change k r row
  pub after : t ≡ put s k row

-- A call that is answered as a success found its job.
pub transition_job-found :
    (s t : JobStore) (k : Text) (i : TransitionAuthorAgentJobInput) (job : AuthorAgentJobRecord)
    → transition_job s k i ≡ (t, some (updated job))
    → (old : AuthorAgentJobRecord) × (lookup k s.jobs ≡ some old)
unfolding transition_job
transition_job-found s t k i job h = elim (Option-cases (lookup k s.jobs)) [
  | inr found ↦ found
  | inl e ↦ let bad = ap (λ z. z.1) (rw (e, transition_job) at h) in cc
]

pub reserve_operation-found :
    (s t : JobStore) (k : Text) (i : ReserveAuthorAgentOperationInput) (job : AuthorAgentJobRecord)
    (o : AuthorAgentOperationRecord)
    → reserve_operation s k i ≡ (t, some (reserved job o))
    → (old : AuthorAgentJobRecord) × (lookup k s.jobs ≡ some old)
unfolding reserve_operation
reserve_operation-found s t k i job o h = elim (Option-cases (lookup k s.jobs)) [
  | inr found ↦ found
  | inl e ↦ let bad = ap (λ z. z.1) (rw (e, reserve_operation) at h) in cc
]

-- The operation of a reservation.
abbrev operation_of :
    AuthorAgentOperationRecord → ReserveAuthorAgentOperationResult → AuthorAgentOperationRecord
operation_of p (reserved job o) = o
operation_of p _ = p

module _ (s t : JobStore) (k : Text) (r : Row) (has : HasRow s k r) where
  transition_found-updated :
      (i : TransitionAuthorAgentJobInput) (job : AuthorAgentJobRecord)
      → transition_found s k i r.job ≡ (t, some (updated job))
      → (r.job.job_version ≡ i.expected_job_version) × Changed s t k r
  unfolding transition_found
  transition_found-updated i job h = elim (Bool-cases (is_transition_input i)) [
    | inr e ↦ let bad = ap (λ z. z.1) (rw (e, transition_found) at h) in cc
    | inl e ↦ elim (Bool-cases (eqb_ℤ r.job.job_version i.expected_job_version)) [
      | inr f ↦ let bad = ap (λ z. z.1) (rw (e, f, transition_found) at h) in cc
      | inl f ↦ elim (Bool-cases (transition_allowed r.job.state i.to)) [
        | inr g ↦ let bad = ap (λ z. z.1) (rw (e, f, g, transition_found) at h) in cc
        | inl g ↦
            let job' = with_state r.job i.to i.at_ms in
            let fact = transition_fact r.job.state i.to i.failure_code job' in
            let appended =
              append_fact-some (record s { jobs = store k job' s.jobs }) k r.journal fact i.at_ms
                has.journal_found in
            let done = rw (e, f, g, transition_found, appended) at h in
            (
              (eqb_ℤ_iff r.job.job_version i.expected_job_version).0 f,
              record {
                row = moved k r i.to i.failure_code i.at_ms;
                change = moves i.to i.failure_code i.at_ms g;
                after =
                    ap (λ z. z.0) (sym done)
                    ∙ (rw (store_found k r.operations s.operations has.operations_found) refl);
              },
            )
      ]
    ]
  ]

  pub transition_job-updated :
      (i : TransitionAuthorAgentJobInput) (job : AuthorAgentJobRecord)
      → transition_job s k i ≡ (t, some (updated job))
      → (r.job.job_version ≡ i.expected_job_version) × Changed s t k r
  unfolding transition_job
  transition_job-updated i job h =
      transition_found-updated i job (rw (has.job_found, transition_job) at h)

  not_reserved :
      (o p : AuthorAgentOperationRecord) (i : ReserveAuthorAgentOperationInput)
      (job : AuthorAgentJobRecord)
      → ¬ (replay_or_reuse r.job o i ≡ reserved job p)
  unfolding replay_or_reuse
  not_reserved o p i job h = ground arith

  reserve_new-reserved :
      (i : ReserveAuthorAgentOperationInput) (job : AuthorAgentJobRecord)
      (o : AuthorAgentOperationRecord)
      → lookup i.operation_id r.operations ≡ none
      → reserve_new s k i r.job r.operations ≡ (t, reserved job o)
      → Change k r (with_reserved k r i)
        × (t ≡ put s k (with_reserved k r i))
        × (o ≡ pending_operation k i)
  unfolding reserve_new
  reserve_new-reserved i job o new h =
      elim (Bool-cases (eqb_ℤ r.job.job_version i.expected_job_version)) [
        | inr e ↦ let bad = ap (λ z. z.1) (rw (e, reserve_new) at h) in cc
        | inl e ↦ elim (Bool-cases (is_runnable r.job.state)) [
          | inr f ↦ let bad = ap (λ z. z.1) (rw (e, f, reserve_new) at h) in cc
          | inl f ↦ elim (Bool-cases (has_kind r.job.grant.allowed_operations i.operation_kind)) [
            | inr g ↦ let bad = ap (λ z. z.1) (rw (e, f, g, reserve_new) at h) in cc
            | inl g ↦ elim (Bool-cases (budget_exhausted r.job)) [
              | inl b ↦ let bad = ap (λ z. z.1) (rw (e, f, g, b, reserve_new) at h) in cc
              | inr b ↦
                  let done = rw (e, f, g, b, reserve_new) at h in
                  (
                    reserves i new f g b,
                    ap (λ z. z.0) (sym done)
                        ∙ (rw (store_found k r.journal s.checkpoints has.journal_found) refl),
                    ap (λ z. operation_of o z.1) (sym done),
                  )
            ]
          ]
        ]
      ]

  pub reserve_operation-reserved :
      (i : ReserveAuthorAgentOperationInput) (job : AuthorAgentJobRecord)
      (o : AuthorAgentOperationRecord)
      → reserve_operation s k i ≡ (t, some (reserved job o))
      → Change k r (with_reserved k r i)
        × (t ≡ put s k (with_reserved k r i))
        × (o ≡ pending_operation k i)
  unfolding reserve_operation reserve_found
  reserve_operation-reserved i job o h = elim (Bool-cases (is_reserve_input i)) [
    | inr e ↦
        let bad = ap (λ z. z.1) (rw (has.job_found, e, reserve_operation, reserve_found) at h) in cc
    | inl e ↦ elim (Option-cases (lookup i.operation_id r.operations)) [
      | inr (p, f) ↦
          let got =
            ap (λ z. z.1)
              (rw (has.job_found, e, has.operations_found, f, reserve_operation, reserve_found) at
                h) in
          absurd (not_reserved p o i job (some-injective _ _ got))
      | inl f ↦
          let got =
            rw (has.job_found, e, has.operations_found, f, reserve_operation, reserve_found) at h in
          let x = reserve_new s k i r.job r.operations in
          let answer : x.1 ≡ reserved job o = some-injective _ _ (ap (λ z. z.1) got) in
          let there : x.0 ≡ t = ap (λ z. z.0) got in
          reserve_new-reserved i job o f (λ n. (there n, answer n))
    ]
  ]
