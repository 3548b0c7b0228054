-- ===== src/Control/Records.antt =====
-- packages/control/src/author-agent-jobs.ts: jobs, checkpoints, operations and the inputs of the calls.
use sandboxengine.Prelude.{ℕ, Option, List}
use sandboxengine.Prelude.Int.{ℤ}
use sandboxengine.Prelude.Text.{Text}
use sandboxengine.Control.Facts.{AuthorAgentCheckpointFact, AuthorAgentOperationResult}

pub data AuthorAgentJobState : Type 0 where
  queued running waiting_user paused_budget validating succeeded failed cancelled :
      AuthorAgentJobState

pub data AuthorAgentOperationKind : Type 0 where
  draft_read proposal_preview proposal_apply docs_reference_read : AuthorAgentOperationKind

pub record AuthorAgentCapabilityGrant : Type 0 where
  pub project_id : Text
  pub quest_id : Text
  pub allowed_operations : List AuthorAgentOperationKind
  pub max_tool_calls : ℤ
  pub max_active_time_ms : ℤ

-- `mode` is "author" in every job.
pub record AuthorAgentJobRecord : Type 0 where
  pub job_id : Text
  pub project_id : Text
  pub quest_id : Text
  pub owner_user_id : Text
  pub state : AuthorAgentJobState
  pub job_version : ℤ
  pub starting_draft_revision : ℤ
  pub starting_draft_content_hash : Text
  pub backend_id : Text
  pub grant : AuthorAgentCapabilityGrant
  pub tool_calls_used : ℤ
  pub active_time_ms_used : ℤ
  pub created_at_ms : ℤ
  pub updated_at_ms : ℤ

pub record AuthorAgentCheckpoint : Type 0 where
  pub job_id : Text
  pub ordinal : ℕ
  pub fact : AuthorAgentCheckpointFact
  pub created_at_ms : ℤ

pub data AuthorAgentOperationStatus : Type 0 where
  pending completed : AuthorAgentOperationStatus

pub record AuthorAgentOperationRecord : Type 0 where
  pub job_id : Text
  pub operation_id : Text
  pub operation_kind : AuthorAgentOperationKind
  pub base_revision : Option ℤ
  pub request_hash : Text
  pub status : AuthorAgentOperationStatus
  pub result : Option AuthorAgentOperationResult
  pub active_time_ms : ℤ
  pub created_at_ms : ℤ
  pub updated_at_ms : ℤ

pub record CreateAuthorAgentJobInput : Type 0 where
  pub job_id : Text
  pub project_id : Text
  pub quest_id : Text
  pub owner_user_id : Text
  pub starting_draft_revision : ℤ
  pub starting_draft_content_hash : Text
  pub backend_id : Text
  pub allowed_operations : List AuthorAgentOperationKind
  pub max_tool_calls : Option ℤ
  pub max_active_time_ms : Option ℤ
  pub created_at_ms : ℤ

pub record TransitionAuthorAgentJobInput : Type 0 where
  pub expected_job_version : ℤ
  pub to : AuthorAgentJobState
  pub at_ms : ℤ
  pub failure_code : Option Text

pub record ReserveAuthorAgentOperationInput : Type 0 where
  pub expected_job_version : ℤ
  pub operation_id : Text
  pub operation_kind : AuthorAgentOperationKind
  pub base_revision : Option ℤ
  pub request_hash : Text
  pub at_ms : ℤ

pub record CompleteAuthorAgentOperationInput : Type 0 where
  pub operation_id : Text
  pub request_hash : Text
  pub result : AuthorAgentOperationResult
  pub active_time_ms : ℤ
  pub at_ms : ℤ
