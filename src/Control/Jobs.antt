-- ===== src/Control/Jobs.antt =====
-- packages/control/src/author-agent-jobs.ts: a job, its operations, and what is computed with them.
use sandboxengine.Prelude.{
  Bool, true, false, not, ◌&&◌, ◌||◌, Option, none, some, List, [], ◌∷◌, leb, length, if◌then◌else◌,
}
use sandboxengine.Prelude.Int.{ℤ, pos, ◌+ℤ◌, leb_ℤ, is_safe_integer, is_safe_natural}
use sandboxengine.Prelude.Text.{Text}
use sandboxengine.Contracts.Value.{is_id}
use sandboxengine.Control.Facts.{
  AuthorAgentCheckpointFact, job_started, job_resumed, job_cancelled, job_failed, job_succeeded,
  budget_paused, is_hash, is_null, is_null_or, is_given, is_operation_result,
}
use sandboxengine.Control.Records.{
  AuthorAgentJobState, queued, running, waiting_user, paused_budget, validating, succeeded, failed,
  cancelled, AuthorAgentOperationKind, draft_read, proposal_preview, proposal_apply,
  docs_reference_read, AuthorAgentJobRecord, AuthorAgentOperationRecord, pending, completed,
  CreateAuthorAgentJobInput, TransitionAuthorAgentJobInput, ReserveAuthorAgentOperationInput,
  CompleteAuthorAgentOperationInput,
}

abbrev pub default_author_agent_max_tool_calls : ℤ
default_author_agent_max_tool_calls = pos 12

abbrev pub default_author_agent_max_active_time_ms : ℤ
default_author_agent_max_active_time_ms = pos 120000

abbrev pub max_author_agent_max_tool_calls : ℤ
max_author_agent_max_tool_calls = pos 100

abbrev pub max_author_agent_max_active_time_ms : ℤ
max_author_agent_max_active_time_ms = pos 600000

-- operationKind === operationKind
abbrev pub kind_eq : AuthorAgentOperationKind → AuthorAgentOperationKind → Bool
kind_eq draft_read draft_read = true
kind_eq proposal_preview proposal_preview = true
kind_eq proposal_apply proposal_apply = true
kind_eq docs_reference_read docs_reference_read = true
kind_eq _ _ = false

-- allowedOperations.includes
abbrev pub has_kind : List AuthorAgentOperationKind → AuthorAgentOperationKind → Bool
has_kind [] k = false
has_kind (j ∷ ks) k = kind_eq j k || has_kind ks k

-- new Set(allowedOperations).size === allowedOperations.length
unfoldable pub distinct_kinds : List AuthorAgentOperationKind → Bool
distinct_kinds [] = true
distinct_kinds (k ∷ ks) = not (has_kind ks k) && distinct_kinds ks

abbrev pub or_else : Option ℤ → ℤ → ℤ
or_else none n = n
or_else (some m) n = m

abbrev pub is_within : ℤ → ℤ → Bool
is_within n most = is_safe_integer n && leb_ℤ (pos 1) n && leb_ℤ n most

-- normalizeCreateInput: the limits of tool calls and of active time, if the input is valid
abbrev pub max_tool_calls_of : CreateAuthorAgentJobInput → ℤ
max_tool_calls_of i = or_else i.max_tool_calls default_author_agent_max_tool_calls

abbrev pub max_active_time_ms_of : CreateAuthorAgentJobInput → ℤ
max_active_time_ms_of i = or_else i.max_active_time_ms default_author_agent_max_active_time_ms

unfoldable pub is_create_input : CreateAuthorAgentJobInput → Bool
is_create_input i =
    is_id i.job_id
    && is_id i.project_id
    && is_id i.quest_id
    && is_id i.owner_user_id
    && is_safe_natural i.starting_draft_revision
    && is_hash i.starting_draft_content_hash
    && is_id i.backend_id
    && is_safe_natural i.created_at_ms
    && leb 1 (length i.allowed_operations)
    && distinct_kinds i.allowed_operations
    && is_within (max_tool_calls_of i) max_author_agent_max_tool_calls
    && is_within (max_active_time_ms_of i) max_author_agent_max_active_time_ms

-- initialJob of a normalized input
abbrev pub initial_job : CreateAuthorAgentJobInput → AuthorAgentJobRecord
initial_job i = record {
  job_id = i.job_id;
  project_id = i.project_id;
  quest_id = i.quest_id;
  owner_user_id = i.owner_user_id;
  state = queued;
  job_version = pos 0;
  starting_draft_revision = i.starting_draft_revision;
  starting_draft_content_hash = i.starting_draft_content_hash;
  backend_id = i.backend_id;
  grant = record {
    project_id = i.project_id;
    quest_id = i.quest_id;
    allowed_operations = i.allowed_operations;
    max_tool_calls = max_tool_calls_of i;
    max_active_time_ms = max_active_time_ms_of i;
  };
  tool_calls_used = pos 0;
  active_time_ms_used = pos 0;
  created_at_ms = i.created_at_ms;
  updated_at_ms = i.created_at_ms;
}

abbrev pub is_failed : AuthorAgentJobState → Bool
is_failed failed = true
is_failed _ = false

-- validateTransitionInput
unfoldable pub is_transition_input : TransitionAuthorAgentJobInput → Bool
is_transition_input i =
    is_safe_natural i.expected_job_version
    && is_safe_natural i.at_ms
    && is_null_or is_id i.failure_code
    && (if is_failed i.to then is_given is_id i.failure_code else is_null i.failure_code)

-- isTerminal
abbrev pub is_terminal : AuthorAgentJobState → Bool
is_terminal succeeded = true
is_terminal failed = true
is_terminal cancelled = true
is_terminal _ = false

abbrev pub is_running : AuthorAgentJobState → Bool
is_running running = true
is_running _ = false

-- The states that a running job, and one that is being validated, may go to.
abbrev pub after_running : AuthorAgentJobState → Bool
after_running waiting_user = true
after_running paused_budget = true
after_running validating = true
after_running succeeded = true
after_running failed = true
after_running _ = false

abbrev pub after_validating : AuthorAgentJobState → Bool
after_validating running = true
after_validating succeeded = true
after_validating failed = true
after_validating paused_budget = true
after_validating _ = false

abbrev pub is_cancelled : AuthorAgentJobState → Bool
is_cancelled cancelled = true
is_cancelled _ = false

-- transitionAllowed
unfoldable pub transition_allowed : AuthorAgentJobState → AuthorAgentJobState → Bool
transition_allowed from to =
    if is_terminal from then false else if is_cancelled to then true else elim from [
      | queued ↦ is_running to
      | running ↦ after_running to
      | waiting_user ↦ is_running to
      | paused_budget ↦ is_running to
      | validating ↦ after_validating to
      | succeeded ↦ false
      | failed ↦ false
      | cancelled ↦ false
    ]

-- withState
abbrev pub resets_budget : AuthorAgentJobState → AuthorAgentJobState → Bool
resets_budget paused_budget running = true
resets_budget _ _ = false

unfoldable pub with_state : AuthorAgentJobRecord → AuthorAgentJobState → ℤ → AuthorAgentJobRecord
with_state job state at_ms = record job {
  state = state;
  job_version = job.job_version +ℤ pos 1;
  tool_calls_used = if resets_budget job.state state then pos 0 else job.tool_calls_used;
  active_time_ms_used = if resets_budget job.state state then pos 0 else job.active_time_ms_used;
  updated_at_ms = at_ms;
}

-- transitionFact; a failure without a code is refused before, so that the code is always given
abbrev pub failure_fact : Option Text → Option AuthorAgentCheckpointFact
failure_fact none = none
failure_fact (some code) = some (job_failed code)

unfoldable pub transition_fact :
    AuthorAgentJobState
    → AuthorAgentJobState
    → Option Text
    → AuthorAgentJobRecord
    → Option AuthorAgentCheckpointFact
transition_fact queued running code job = some job_started
transition_fact paused_budget running code job = some job_resumed
transition_fact waiting_user running code job = some job_resumed
transition_fact from running code job = none
transition_fact from paused_budget code job =
    some (budget_paused job.tool_calls_used job.active_time_ms_used)
transition_fact from cancelled code job = some job_cancelled
transition_fact from failed code job = failure_fact code
transition_fact from succeeded code job = some job_succeeded
transition_fact from to code job = none

-- validateReserveInput
unfoldable pub is_reserve_input : ReserveAuthorAgentOperationInput → Bool
is_reserve_input i =
    is_safe_natural i.expected_job_version
    && is_id i.operation_id
    && is_null_or is_safe_natural i.base_revision
    && is_hash i.request_hash
    && is_safe_natural i.at_ms

-- validateCompleteInput
unfoldable pub is_complete_input : (Text → Bool) → CompleteAuthorAgentOperationInput → Bool
is_complete_input is_json_string i =
    is_id i.operation_id
    && is_hash i.request_hash
    && is_operation_result is_json_string i.result
    && is_safe_natural i.active_time_ms
    && leb_ℤ i.active_time_ms max_author_agent_max_active_time_ms
    && is_safe_natural i.at_ms

-- pendingOperation
abbrev pub pending_operation : Text → ReserveAuthorAgentOperationInput → AuthorAgentOperationRecord
pending_operation job_id i = record {
  job_id = job_id;
  operation_id = i.operation_id;
  operation_kind = i.operation_kind;
  base_revision = i.base_revision;
  request_hash = i.request_hash;
  status = pending;
  result = none;
  active_time_ms = pos 0;
  created_at_ms = i.at_ms;
  updated_at_ms = i.at_ms;
}

-- completedOperation
abbrev pub completed_operation :
    AuthorAgentOperationRecord → CompleteAuthorAgentOperationInput → AuthorAgentOperationRecord
completed_operation current i = record current {
  status = completed;
  result = some i.result;
  active_time_ms = i.active_time_ms;
  updated_at_ms = i.at_ms;
}

-- budgetExhausted
unfoldable pub budget_exhausted : AuthorAgentJobRecord → Bool
budget_exhausted job =
    leb_ℤ job.grant.max_tool_calls job.tool_calls_used
    || leb_ℤ job.grant.max_active_time_ms job.active_time_ms_used
