-- ===== src/Control/Facts.antt =====
-- packages/control/src/author-agent-jobs.ts: the facts of a job's journal and the results of its
-- operations, with their guards on values of these types.
use sandboxengine.Prelude.{
  ℕ, Bool, true, false, ◌&&◌, ◌||◌, Option, none, some, List, [], ◌∷◌, leb, ◌==◌, length, all,
}
use sandboxengine.Prelude.Int.{ℤ, is_safe_natural}
use sandboxengine.Prelude.Text.{Text}
use sandboxengine.Contracts.Value.{is_id}
use sandboxengine.Contracts.World.{distinct, has}

pub data AuthorAgentCheckpointFact : Type 0 where
  job_created job_started : AuthorAgentCheckpointFact
  draft_read : (block_count : ℤ) → AuthorAgentCheckpointFact
  context_selected :
      (draft_revision : ℤ) (draft_content_hash context_hash : Text)
      (selected_block_ids included_block_ids : List Text)
      → AuthorAgentCheckpointFact
  broker_pinned :
      (policy_version policy_hash installed_docs_hash contract_hash : Text)
      (allowed_tool_ids : List Text)
      → AuthorAgentCheckpointFact
  segment_requested : (request_id request_hash : Text) → AuthorAgentCheckpointFact
  proposal_produced : (proposal_id : Text) → AuthorAgentCheckpointFact
  proposal_previewed : (proposal_id : Text) (stale apply_allowed : Bool) → AuthorAgentCheckpointFact
  proposal_applied : (proposal_id : Text) (result_revision : ℤ) → AuthorAgentCheckpointFact
  budget_paused : (tool_calls_used active_time_ms_used : ℤ) → AuthorAgentCheckpointFact
  job_resumed job_cancelled : AuthorAgentCheckpointFact
  job_failed : (code : Text) → AuthorAgentCheckpointFact
  job_succeeded : AuthorAgentCheckpointFact

pub data ReferenceOutcome : Type 0 where
  completed unavailable invalid_response : ReferenceOutcome

pub data ReferenceErrorCode : Type 0 where
  mcp_offline mcp_timeout mcp_transport_error mcp_aborted invalid_response : ReferenceErrorCode

pub record ReferenceRead : Type 0 where
  pub outcome : ReferenceOutcome
  pub connection_id : Text
  pub server_id : Text
  pub version : Text
  pub target_version : Option Text
  pub query_hash : Text
  pub output_json : Option Text
  pub output_hash : Option Text
  pub error_code : Option ReferenceErrorCode

pub data AuthorAgentOperationResult : Type 0 where
  read_blocks : (block_count : ℤ) → AuthorAgentOperationResult
  proposal_previewed :
      (proposal_id : Text) (stale apply_allowed : Bool) → AuthorAgentOperationResult
  proposal_applied :
      (proposal_id : Text) (result_revision : ℤ) (result_content_hash : Text)
      → AuthorAgentOperationResult
  reference_read : ReferenceRead → AuthorAgentOperationResult

-- isHash: /^[a-f0-9]{64}$/.test
abbrev pub is_lower_hex : ℕ → Bool
is_lower_hex c = (leb b'a' c && leb c b'f') || (leb b'0' c && leb c b'9')

unfoldable pub is_hash : Text → Bool
is_hash s = length s == 64 && all is_lower_hex s

-- isVersion: 1 to 100 units, the first a letter or a digit, the others those of an id or a plus
abbrev pub is_letter_or_digit : ℕ → Bool
is_letter_or_digit c =
    (leb b'A' c && leb c b'Z') || (leb b'a' c && leb c b'z') || (leb b'0' c && leb c b'9')

abbrev pub is_version_unit : ℕ → Bool
is_version_unit c =
    is_letter_or_digit c || c == b'.' || c == b'_' || c == b':' || c == b'+' || c == b'-'

abbrev pub starts_version : Text → Bool
starts_version [] = false
starts_version (c ∷ cs) = is_letter_or_digit c && all is_version_unit cs

unfoldable pub is_version : Text → Bool
is_version s = leb 1 (length s) && leb (length s) 100 && starts_version s

-- isBoundedIdList
unfoldable pub is_bounded_id_list : List Text → ℕ → ℕ → Bool
is_bounded_id_list ids most least =
    leb least (length ids) && leb (length ids) most && all is_id ids && distinct ids

-- isCheckpointFact
unfoldable pub is_checkpoint_fact : AuthorAgentCheckpointFact → Bool
is_checkpoint_fact job_created = true
is_checkpoint_fact job_started = true
is_checkpoint_fact (draft_read n) = is_safe_natural n
is_checkpoint_fact (context_selected revision content context selected included) =
    is_safe_natural revision
    && is_hash content
    && is_hash context
    && is_bounded_id_list selected 32 1
    && is_bounded_id_list included 64 1
    && all (has included) selected
is_checkpoint_fact (broker_pinned version policy docs contract tools) =
    is_id version
    && is_hash policy
    && is_hash docs
    && is_hash contract
    && is_bounded_id_list tools 16 1
is_checkpoint_fact (segment_requested k hash) = is_id k && is_hash hash
is_checkpoint_fact (proposal_produced k) = is_id k
is_checkpoint_fact (AuthorAgentCheckpointFact.proposal_previewed k stale allowed) = is_id k
is_checkpoint_fact (AuthorAgentCheckpointFact.proposal_applied k revision) =
    is_id k && is_safe_natural revision
is_checkpoint_fact (budget_paused calls time) = is_safe_natural calls && is_safe_natural time
is_checkpoint_fact job_resumed = true
is_checkpoint_fact job_cancelled = true
is_checkpoint_fact (job_failed code) = is_id code
is_checkpoint_fact job_succeeded = true

abbrev pub is_null {ℓ} : {A : Type ℓ} → Option A → Bool
is_null none = true
is_null (some a) = false

abbrev pub is_given {ℓ} : {A : Type ℓ} → (A → Bool) → Option A → Bool
is_given p none = false
is_given p (some a) = p a

abbrev pub is_null_or {ℓ} : {A : Type ℓ} → (A → Bool) → Option A → Bool
is_null_or p none = true
is_null_or p (some a) = p a

-- The error codes of a reference that could not be read.
abbrev pub is_unavailable_code : ReferenceErrorCode → Bool
is_unavailable_code mcp_offline = true
is_unavailable_code mcp_timeout = true
is_unavailable_code mcp_transport_error = true
is_unavailable_code mcp_aborted = true
is_unavailable_code ReferenceErrorCode.invalid_response = false

abbrev pub is_invalid_response_code : ReferenceErrorCode → Bool
is_invalid_response_code ReferenceErrorCode.invalid_response = true
is_invalid_response_code _ = false

-- `is_json_string` says whether JSON.parse accepts a text.
unfoldable pub is_outcome : (Text → Bool) → ReferenceRead → Bool
is_outcome is_json_string r = elim r.outcome [
  | ReferenceOutcome.completed ↦
      is_given (λ json. leb 1 (length json) && leb (length json) 64000 && is_json_string json)
        r.output_json
      && is_given is_hash r.output_hash
      && is_null r.error_code
  | ReferenceOutcome.unavailable ↦
      is_null r.output_json && is_null r.output_hash && is_given is_unavailable_code r.error_code
  | ReferenceOutcome.invalid_response ↦
      is_null r.output_json
      && is_null r.output_hash
      && is_given is_invalid_response_code r.error_code
]

-- isOperationResult
unfoldable pub is_operation_result : (Text → Bool) → AuthorAgentOperationResult → Bool
is_operation_result is_json_string (read_blocks n) = is_safe_natural n
is_operation_result is_json_string (AuthorAgentOperationResult.proposal_previewed k stale allowed) =
    is_id k
is_operation_result is_json_string (AuthorAgentOperationResult.proposal_applied k revision hash) =
    is_id k && is_safe_natural revision && is_hash hash
is_operation_result is_json_string (reference_read r) =
    is_id r.connection_id
    && is_id r.server_id
    && is_version r.version
    && is_null_or is_version r.target_version
    && is_hash r.query_hash
    && is_outcome is_json_string r
