-- ===== src/Control/JobStore.antt =====
-- packages/control/src/author-agent-jobs.ts: MemoryAuthorAgentJobStore, without the calls on operations.
use sandboxengine.Prelude.{
  ℕ, Bool, not, ◌&&◌, ◌||◌, Option, none, some, List, [], ◌∷◌, ◌++◌, length, keep, if◌then◌else◌,
}
use sandboxengine.Prelude.Sort.{sort_by}
use sandboxengine.Prelude.Int.{ℤ, pos, ◌+ℤ◌, leb_ℤ, eqb_ℤ, is_safe_natural}
use sandboxengine.Prelude.Text.{Text, text_eq}
use sandboxengine.Prelude.Dict.{Dict, lookup, store, is_stored}
use sandboxengine.Contracts.Value.{is_id}
use sandboxengine.Control.Facts.{AuthorAgentCheckpointFact, job_created, is_checkpoint_fact}
use sandboxengine.Control.Records.{
  AuthorAgentJobState, AuthorAgentJobRecord, AuthorAgentCheckpoint, AuthorAgentOperationRecord,
  CreateAuthorAgentJobInput, TransitionAuthorAgentJobInput,
}
use sandboxengine.Control.Jobs.{
  is_create_input, initial_job, is_transition_input, transition_allowed, with_state,
  transition_fact, is_terminal,
}

-- The private maps of the store.
pub record JobStore : Type 0 where
  pub jobs : Dict AuthorAgentJobRecord
  pub checkpoints : Dict (List AuthorAgentCheckpoint)
  pub operations : Dict (Dict AuthorAgentOperationRecord)

abbrev pub empty_job_store : JobStore
empty_job_store = record { jobs = []; checkpoints = []; operations = [] }

pub data CreateAuthorAgentJobResult : Type 0 where
  created : AuthorAgentJobRecord → CreateAuthorAgentJobResult
  job_exists invalid_request : CreateAuthorAgentJobResult

pub data TransitionAuthorAgentJobResult : Type 0 where
  updated : AuthorAgentJobRecord → TransitionAuthorAgentJobResult
  job_not_found : TransitionAuthorAgentJobResult
  job_version_conflict : (current_job_version : ℤ) → TransitionAuthorAgentJobResult
  invalid_transition : AuthorAgentJobState → TransitionAuthorAgentJobResult
  invalid_request : TransitionAuthorAgentJobResult

-- checkpoint
abbrev pub checkpoint : Text → ℕ → AuthorAgentCheckpointFact → ℤ → AuthorAgentCheckpoint
checkpoint job_id ordinal fact at_ms = record {
  job_id = job_id;
  ordinal = ordinal;
  fact = fact;
  created_at_ms = at_ms;
}

-- values.push(checkpoint(jobId, values.length, fact, atMs)), if there is a fact
abbrev pub journal_with :
    Text
    → List AuthorAgentCheckpoint
    → Option AuthorAgentCheckpointFact
    → ℤ
    → List AuthorAgentCheckpoint
journal_with job_id values none at_ms = values
journal_with job_id values (some fact) at_ms =
    values ++ checkpoint job_id (length values) fact at_ms ∷ []

-- #appendCheckpoint, if there is a fact; `none` is the error that it throws.
unfoldable pub append_fact :
    JobStore → Text → Option AuthorAgentCheckpointFact → ℤ → Option JobStore
append_fact s job_id none at_ms = some s
append_fact s job_id (some fact) at_ms = elim (lookup job_id s.checkpoints) [
  | none ↦ none
  | some values ↦ some (record s {
    checkpoints = store job_id (journal_with job_id values (some fact) at_ms) s.checkpoints;
  })
]

-- The store and the answer of a call that ends with #appendCheckpoint; no answer is an error thrown.
abbrev pub answered {ℓ} : {A : Type ℓ} → JobStore → Option JobStore → A → JobStore × Option A
answered s none a = (s, none)
answered s (some t) a = (t, some a)

-- createJob
unfoldable pub create_job :
    JobStore → CreateAuthorAgentJobInput → JobStore × CreateAuthorAgentJobResult
create_job s i =
    if not (is_create_input i)
    then (s, invalid_request)
    else if is_stored (lookup i.job_id s.jobs)
    then (s, job_exists)
    else (
      record {
        jobs = store i.job_id (initial_job i) s.jobs;
        checkpoints =
            store i.job_id (checkpoint i.job_id 0 job_created i.created_at_ms ∷ []) s.checkpoints;
        operations = store i.job_id [] s.operations;
      },
      created (initial_job i),
    )

-- getJob, listCheckpoints
abbrev pub get_job : JobStore → Text → Option AuthorAgentJobRecord
get_job s job_id = lookup job_id s.jobs

abbrev pub list_checkpoints : JobStore → Text → Option (List AuthorAgentCheckpoint)
list_checkpoints s job_id = lookup job_id s.checkpoints

-- compareJobsNewestFirst(left, right) <= 0, with localeCompare(left, right) <= 0 as a parameter
unfoldable pub newest_first :
    (Text → Text → Bool) → AuthorAgentJobRecord → AuthorAgentJobRecord → Bool
newest_first locale_le left right =
    if not (eqb_ℤ left.updated_at_ms right.updated_at_ms)
    then leb_ℤ right.updated_at_ms left.updated_at_ms
    else if not (eqb_ℤ left.created_at_ms right.created_at_ms)
    then leb_ℤ right.created_at_ms left.created_at_ms
    else locale_le left.job_id right.job_id

abbrev pub is_job_of : Text → Text → Text → AuthorAgentJobRecord → Bool
is_job_of project_id quest_id owner_user_id job =
    text_eq job.project_id project_id
    && text_eq job.quest_id quest_id
    && text_eq job.owner_user_id owner_user_id

abbrev pub entries {ℓ} : {A : Type ℓ} → Dict A → List A
entries [] = []
entries ((k, a) ∷ d) = a ∷ entries d

-- listJobs
unfoldable pub list_jobs :
    (Text → Text → Bool) → JobStore → Text → Text → Text → List AuthorAgentJobRecord
list_jobs locale_le s project_id quest_id owner_user_id =
    if not (is_id project_id) || not (is_id quest_id) || not (is_id owner_user_id)
    then []
    else sort_by (newest_first locale_le)
        (keep (is_job_of project_id quest_id owner_user_id) (entries s.jobs))

-- transitionJob of a job that is there
unfoldable pub transition_found :
    JobStore
    → Text
    → TransitionAuthorAgentJobInput
    → AuthorAgentJobRecord
    → JobStore × Option TransitionAuthorAgentJobResult
transition_found s job_id i current =
    let job = with_state current i.to i.at_ms in
    let s' : JobStore = record s { jobs = store job_id job s.jobs } in
    let fact = transition_fact current.state i.to i.failure_code job in
    if not (is_transition_input i)
    then (s, some invalid_request)
    else if not (eqb_ℤ current.job_version i.expected_job_version)
    then (s, some (job_version_conflict current.job_version))
    else if not (transition_allowed current.state i.to)
    then (s, some (invalid_transition current.state))
    else answered s' (append_fact s' job_id fact i.at_ms) (updated job)

unfoldable pub transition_job :
    JobStore
    → Text
    → TransitionAuthorAgentJobInput
    → JobStore × Option TransitionAuthorAgentJobResult
transition_job s job_id i = elim (lookup job_id s.jobs) [
  | none ↦ (s, some job_not_found)
  | some current ↦ transition_found s job_id i current
]

-- appendCheckpoint of a job that is there
abbrev pub noted : AuthorAgentJobRecord → ℤ → AuthorAgentJobRecord
noted job at_ms = record job { job_version = job.job_version +ℤ pos 1; updated_at_ms = at_ms }

unfoldable pub append_found :
    JobStore
    → Text
    → ℤ
    → AuthorAgentCheckpointFact
    → ℤ
    → AuthorAgentJobRecord
    → JobStore × Option TransitionAuthorAgentJobResult
append_found s job_id expected_job_version fact at_ms current =
    let s' : JobStore = record s { jobs = store job_id (noted current at_ms) s.jobs } in
    if not (is_safe_natural expected_job_version)
      || not (is_safe_natural at_ms)
      || not (is_checkpoint_fact fact)
    then (s, some invalid_request)
    else if not (eqb_ℤ current.job_version expected_job_version)
    then (s, some (job_version_conflict current.job_version))
    else if is_terminal current.state
    then (s, some (invalid_transition current.state))
    else answered s' (append_fact s' job_id (some fact) at_ms) (updated (noted current at_ms))

unfoldable pub append_checkpoint :
    JobStore
    → Text
    → ℤ
    → AuthorAgentCheckpointFact
    → ℤ
    → JobStore × Option TransitionAuthorAgentJobResult
append_checkpoint s job_id expected_job_version fact at_ms = elim (lookup job_id s.jobs) [
  | none ↦ (s, some job_not_found)
  | some current ↦ append_found s job_id expected_job_version fact at_ms current
]
