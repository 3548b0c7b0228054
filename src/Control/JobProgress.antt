-- ===== src/Control/JobProgress.antt =====
-- A job that has not ended can be ended: cancelled by one call, and made to succeed by at most two.
use sandboxengine.Prelude.{
  ◌≤◌, ◌≡◌, refl, ap, ◌∙◌, Bool, true, false, none, some, List, [], ◌∷◌, inl, inr, ◌⊎◌, arith,
  length,
}
use sandboxengine.Prelude.Int.{ℤ, pos, ◌+ℤ◌, eqb_ℤ, eqb_ℤ_iff, is_safe_natural}
use sandboxengine.Prelude.Text.{Text}
use sandboxengine.Prelude.Dict.{lookup, store, store_found}
use sandboxengine.Control.Records.{
  AuthorAgentJobState, queued, running, waiting_user, paused_budget, validating, succeeded, failed,
  cancelled, AuthorAgentJobRecord, TransitionAuthorAgentJobInput,
}
use sandboxengine.Control.Jobs.{
  is_failed, is_terminal, is_transition_input, transition_allowed, transition_fact, with_state,
}
use sandboxengine.Control.JobStore.{JobStore, transition_job, transition_found}
use sandboxengine.Control.JobMoves.{Row, HasRow, put, moved}
use sandboxengine.Control.JobHandlers.{append_fact-some}
use sandboxengine.Control.JobSteps.{JobCall, transition_call, job_step, job_run}
use sandboxengine.Control.JobHistory.{IsJobStore, HasRow-put}

-- A request to bring a job to a state, at its version.
abbrev pub request_to :
    AuthorAgentJobRecord → AuthorAgentJobState → ℤ → TransitionAuthorAgentJobInput
request_to job to at = record {
  expected_job_version = job.job_version;
  to = to;
  at_ms = at;
  failure_code = none;
}

request_is_valid :
    (job : AuthorAgentJobRecord) (to : AuthorAgentJobState) (at : ℤ)
    → is_safe_natural job.job_version ≡ true
    → is_safe_natural at ≡ true
    → is_failed to ≡ false
    → is_transition_input (request_to job to at) ≡ true
unfolding is_transition_input
request_is_valid job to at version time ok = rw (version, time, ok) refl

transition_job-puts :
    (s : JobStore) (k : Text) (r : Row) (to : AuthorAgentJobState) (at : ℤ)
    → HasRow s k r
    → is_safe_natural r.job.job_version ≡ true
    → is_safe_natural at ≡ true
    → is_failed to ≡ false
    → transition_allowed r.job.state to ≡ true
    → (transition_job s k (request_to r.job to at)).0 ≡ put s k (moved k r to none at)
unfolding transition_job transition_found
transition_job-puts s k r to at has version time ok allowed =
    let i = request_to r.job to at in
    let job = with_state r.job to at in
    let fact = transition_fact r.job.state to none job in
    let valid = request_is_valid r.job to at version time ok in
    let same : eqb_ℤ r.job.job_version r.job.job_version ≡ true =
      (eqb_ℤ_iff r.job.job_version r.job.job_version).1 refl in
    let appended =
      append_fact-some (record s { jobs = store k job s.jobs }) k r.journal fact at
        has.journal_found in
    rw
      (
        has.job_found,
        transition_job,
        transition_found,
        valid,
        same,
        allowed,
        appended,
        store_found k r.operations s.operations has.operations_found,
      )
      refl

-- The call leads to a store in which the job is in the state.
abbrev pub Ends : (Text → Bool) → JobStore → Text → AuthorAgentJobState → List JobCall → Type 0
Ends is_json_string s k to cs =
    (job : AuthorAgentJobRecord) × (lookup k (job_run is_json_string s cs).jobs ≡ some job)
    × (job.state ≡ to)

Ends-one :
    (is_json_string : Text → Bool) (s : JobStore) (k : Text) (r : Row) (to : AuthorAgentJobState)
    (at : ℤ)
    → HasRow s k r
    → is_safe_natural r.job.job_version ≡ true
    → is_safe_natural at ≡ true
    → is_failed to ≡ false
    → transition_allowed r.job.state to ≡ true
    → Ends is_json_string s k to (transition_call k (request_to r.job to at) ∷ [])
unfolding job_run job_step with_state
Ends-one is_json_string s k r to at has version time ok allowed =
    let m = moved k r to none at in
    let e = transition_job-puts s k r to at has version time ok allowed in
    (m.job, ap (λ z. lookup k z.jobs) e ∙ (HasRow-put s k m).job_found, refl)

Ends-two :
    (is_json_string : Text → Bool) (s : JobStore) (k : Text) (r : Row) (at : ℤ)
    → HasRow s k r
    → is_safe_natural r.job.job_version ≡ true
    → is_safe_natural (r.job.job_version +ℤ pos 1) ≡ true
    → is_safe_natural at ≡ true
    → transition_allowed r.job.state running ≡ true
    → Ends is_json_string s k succeeded (
        transition_call k (request_to r.job running at)
        ∷ transition_call k (request_to (with_state r.job running at) succeeded at)
        ∷ [])
unfolding job_run job_step with_state transition_allowed
Ends-two is_json_string s k r at has version next time allowed =
    let m = moved k r running none at in
    let t = put s k m in
    let e = transition_job-puts s k r running at has version time refl allowed in
    let (job, there, state) =
      Ends-one is_json_string t k m succeeded at (HasRow-put s k m) next time refl refl in
    (
      job,
      ap
            (λ z.
              lookup k
                (transition_job z k (request_to (with_state r.job running at) succeeded at)).0.jobs)
            e
          ∙ there,
      state,
    )

may_cancel :
    (state : AuthorAgentJobState)
    → is_terminal state ≡ false
    → transition_allowed state cancelled ≡ true
unfolding transition_allowed
may_cancel state h = rw (h, transition_allowed) refl

-- A job that has not ended may succeed, or it may run, and a running job may succeed.
one_or_two :
    (state : AuthorAgentJobState)
    → is_terminal state ≡ false
    → (transition_allowed state succeeded ≡ true) ⊎ (transition_allowed state running ≡ true)
unfolding transition_allowed
one_or_two queued h = inr refl
one_or_two running h = inl refl
one_or_two waiting_user h = inr refl
one_or_two paused_budget h = inr refl
one_or_two validating h = inl refl
one_or_two succeeded h = let bad = h in cc
one_or_two failed h = let bad = h in cc
one_or_two cancelled h = let bad = h in cc

-- A job that has not ended, when its version and the next are safe integers: at any safe time one call
-- cancels it, and a sequence of at most two calls makes it succeed.
pub can_end :
    (is_json_string : Text → Bool) (s : JobStore) (k : Text) (job : AuthorAgentJobRecord) (at : ℤ)
    → IsJobStore s
    → lookup k s.jobs ≡ some job
    → is_terminal job.state ≡ false
    → is_safe_natural job.job_version ≡ true
    → is_safe_natural (job.job_version +ℤ pos 1) ≡ true
    → is_safe_natural at ≡ true
    → ((c : JobCall) × Ends is_json_string s k cancelled (c ∷ []))
      × ((cs : List JobCall) × (length cs ≤ 2) × Ends is_json_string s k succeeded cs)
can_end is_json_string s k job at ok found going version next time =
    let was = ok k job found in
    let r = was.row in
    let row_going : is_terminal r.job.state ≡ false =
      ap (λ z. is_terminal z.state) was.row_job ∙ going in
    let row_version : is_safe_natural r.job.job_version ≡ true =
      ap (λ z. is_safe_natural z.job_version) was.row_job ∙ version in
    let row_next : is_safe_natural (r.job.job_version +ℤ pos 1) ≡ true =
      ap (λ z. is_safe_natural (z.job_version +ℤ pos 1)) was.row_job ∙ next in
    (
      (
        transition_call k (request_to r.job cancelled at),
        Ends-one is_json_string s k r cancelled at was.has row_version time refl
            (may_cancel r.job.state row_going),
      ),
      elim (one_or_two r.job.state row_going) [
        | inl allowed ↦ (
          transition_call k (request_to r.job succeeded at) ∷ [],
          omega arith,
          Ends-one is_json_string s k r succeeded at was.has row_version time refl allowed,
        )
        | inr allowed ↦ (
          transition_call k (request_to r.job running at)
              ∷ transition_call k (request_to (with_state r.job running at) succeeded at)
              ∷ [],
          omega arith,
          Ends-two is_json_string s k r at was.has row_version row_next time allowed,
        )
      ],
    )
