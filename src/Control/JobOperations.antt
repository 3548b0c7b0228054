-- ===== src/Control/JobOperations.antt =====
-- packages/control/src/author-agent-jobs.ts: reserveOperation and completeOperation of
-- MemoryAuthorAgentJobStore.
use sandboxengine.Prelude.{Bool, true, false, not, ◌&&◌, ◌||◌, Option, none, some, if◌then◌else◌}
use sandboxengine.Prelude.Int.{ℤ, pos, ◌+ℤ◌, leb_ℤ, eqb_ℤ}
use sandboxengine.Prelude.Text.{Text, text_eq}
use sandboxengine.Prelude.Dict.{Dict, lookup, store}
use sandboxengine.Control.Facts.{AuthorAgentCheckpointFact, budget_paused}
use sandboxengine.Control.Records.{
  AuthorAgentJobState, running, paused_budget, validating, AuthorAgentJobRecord,
  AuthorAgentOperationRecord, AuthorAgentOperationStatus, pending, ReserveAuthorAgentOperationInput,
  CompleteAuthorAgentOperationInput,
}
use sandboxengine.Control.Jobs.{
  is_reserve_input, is_complete_input, pending_operation, completed_operation, kind_eq, has_kind,
  budget_exhausted,
}
use sandboxengine.Control.JobStore.{JobStore, append_fact, answered}

pub data ReserveAuthorAgentOperationResult : Type 0 where
  reserved replay still_pending :
      AuthorAgentJobRecord → AuthorAgentOperationRecord → ReserveAuthorAgentOperationResult
  job_not_found : ReserveAuthorAgentOperationResult
  job_version_conflict : (current_job_version : ℤ) → ReserveAuthorAgentOperationResult
  job_not_runnable : AuthorAgentJobState → ReserveAuthorAgentOperationResult
  operation_not_allowed operation_id_reused : ReserveAuthorAgentOperationResult
  no_budget : AuthorAgentJobRecord → ReserveAuthorAgentOperationResult
  invalid_request : ReserveAuthorAgentOperationResult

pub data CompleteAuthorAgentOperationResult : Type 0 where
  completed replay :
      AuthorAgentJobRecord → AuthorAgentOperationRecord → CompleteAuthorAgentOperationResult
  job_not_found operation_not_found operation_id_reused invalid_request :
      CompleteAuthorAgentOperationResult

-- baseRevision === baseRevision
abbrev pub same_revision : Option ℤ → Option ℤ → Bool
same_revision none none = true
same_revision (some m) (some n) = eqb_ℤ m n
same_revision _ _ = false

abbrev pub is_pending : AuthorAgentOperationStatus → Bool
is_pending pending = true
is_pending AuthorAgentOperationStatus.completed = false

-- replayOrReuse
unfoldable pub replay_or_reuse :
    AuthorAgentJobRecord
    → AuthorAgentOperationRecord
    → ReserveAuthorAgentOperationInput
    → ReserveAuthorAgentOperationResult
replay_or_reuse job existing i =
    if not (text_eq existing.request_hash i.request_hash)
      || not (kind_eq existing.operation_kind i.operation_kind)
      || not (same_revision existing.base_revision i.base_revision)
    then operation_id_reused
    else if is_pending existing.status
    then still_pending job existing
    else replay job existing

abbrev pub is_runnable : AuthorAgentJobState → Bool
is_runnable running = true
is_runnable validating = true
is_runnable _ = false

abbrev pub charged : AuthorAgentJobRecord → ℤ → AuthorAgentJobRecord
charged job at_ms = record job {
  job_version = job.job_version +ℤ pos 1;
  tool_calls_used = job.tool_calls_used +ℤ pos 1;
  updated_at_ms = at_ms;
}

-- reserveOperation of a job with operations, none of them under this id
unfoldable pub reserve_new :
    JobStore
    → Text
    → ReserveAuthorAgentOperationInput
    → AuthorAgentJobRecord
    → Dict AuthorAgentOperationRecord
    → JobStore × ReserveAuthorAgentOperationResult
reserve_new s job_id i current operations =
    let operation = pending_operation job_id i in
    if not (eqb_ℤ current.job_version i.expected_job_version)
    then (s, job_version_conflict current.job_version)
    else if not (is_runnable current.state)
    then (s, job_not_runnable current.state)
    else if not (has_kind current.grant.allowed_operations i.operation_kind)
    then (s, operation_not_allowed)
    else if budget_exhausted current
    then (s, no_budget current)
    else (
      record s {
        jobs = store job_id (charged current i.at_ms) s.jobs;
        operations = store job_id (store i.operation_id operation operations) s.operations;
      },
      reserved (charged current i.at_ms) operation,
    )

-- `this.#operations.get(jobId)!` throws if there is no such map.
unfoldable pub reserve_found :
    JobStore
    → Text
    → ReserveAuthorAgentOperationInput
    → AuthorAgentJobRecord
    → JobStore × Option ReserveAuthorAgentOperationResult
reserve_found s job_id i current =
    if not (is_reserve_input i)
    then (s, some invalid_request)
    else elim (lookup job_id s.operations) [
      | none ↦ (s, none)
      | some operations ↦ elim (lookup i.operation_id operations) [
        | some existing ↦ (s, some (replay_or_reuse current existing i))
        | none ↦ let r = reserve_new s job_id i current operations in (r.0, some r.1)
      ]
    ]

unfoldable pub reserve_operation :
    JobStore
    → Text
    → ReserveAuthorAgentOperationInput
    → JobStore × Option ReserveAuthorAgentOperationResult
reserve_operation s job_id i = elim (lookup job_id s.jobs) [
  | none ↦ (s, some job_not_found)
  | some current ↦ reserve_found s job_id i current
]

-- shouldPause of completeOperation
unfoldable pub should_pause : AuthorAgentJobRecord → ℤ → Bool
should_pause current next_active =
    is_runnable current.state
    && (leb_ℤ current.grant.max_tool_calls current.tool_calls_used
        || leb_ℤ current.grant.max_active_time_ms next_active)

abbrev pub worked : AuthorAgentJobRecord → CompleteAuthorAgentOperationInput → AuthorAgentJobRecord
worked current i =
    let next_active = current.active_time_ms_used +ℤ i.active_time_ms in
    record current {
      state = if should_pause current next_active then paused_budget else current.state;
      job_version = current.job_version +ℤ pos 1;
      active_time_ms_used = next_active;
      updated_at_ms = i.at_ms;
    }

abbrev pub pause_fact : Bool → AuthorAgentJobRecord → Option AuthorAgentCheckpointFact
pause_fact false job = none
pause_fact true job = some (budget_paused job.tool_calls_used job.active_time_ms_used)

-- completeOperation of an operation that is there
unfoldable pub complete_existing :
    JobStore
    → Text
    → CompleteAuthorAgentOperationInput
    → AuthorAgentJobRecord
    → Dict AuthorAgentOperationRecord
    → AuthorAgentOperationRecord
    → JobStore × Option CompleteAuthorAgentOperationResult
complete_existing s job_id i current operations existing =
    let operation = completed_operation existing i in
    let job = worked current i in
    let s' : JobStore = record s {
      jobs = store job_id job s.jobs;
      operations = store job_id (store existing.operation_id operation operations) s.operations;
    } in
    let fact =
      pause_fact (should_pause current (current.active_time_ms_used +ℤ i.active_time_ms)) job in
    if not (text_eq existing.request_hash i.request_hash)
    then (s, some operation_id_reused)
    else if not (is_pending existing.status)
    then (s, some (replay current existing))
    else answered s' (append_fact s' job_id fact i.at_ms) (completed job operation)

unfoldable pub complete_found :
    (Text → Bool)
    → JobStore
    → Text
    → CompleteAuthorAgentOperationInput
    → AuthorAgentJobRecord
    → JobStore × Option CompleteAuthorAgentOperationResult
complete_found is_json_string s job_id i current =
    if not (is_complete_input is_json_string i)
    then (s, some invalid_request)
    else elim (lookup job_id s.operations) [
      | none ↦ (s, none)
      | some operations ↦ elim (lookup i.operation_id operations) [
        | none ↦ (s, some operation_not_found)
        | some existing ↦ complete_existing s job_id i current operations existing
      ]
    ]

unfoldable pub complete_operation :
    (Text → Bool)
    → JobStore
    → Text
    → CompleteAuthorAgentOperationInput
    → JobStore × Option CompleteAuthorAgentOperationResult
complete_operation is_json_string s job_id i = elim (lookup job_id s.jobs) [
  | none ↦ (s, some job_not_found)
  | some current ↦ complete_found is_json_string s job_id i current
]
