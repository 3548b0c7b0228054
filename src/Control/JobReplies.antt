-- ===== src/Control/JobReplies.antt =====
-- What a call of reserveOperation that finds its operation is answered with.
use sandboxengine.Prelude.{◌≡◌, refl, true, Option, none, some, inl, inr, ◌⊎◌}
use sandboxengine.Prelude.Int.{ℤ, eqb_ℤ_iff}
use sandboxengine.Prelude.Text.{Text}
use sandboxengine.Prelude.Dict.{Dict, lookup}
use sandboxengine.Control.Records.{
  AuthorAgentJobRecord, AuthorAgentOperationRecord, AuthorAgentOperationKind,
  AuthorAgentOperationStatus, pending, draft_read, proposal_preview, proposal_apply,
  docs_reference_read,
}
use sandboxengine.Control.Jobs.{kind_eq}
use sandboxengine.Control.JobStore.{JobStore}
use sandboxengine.Control.JobOperations.{
  ReserveAuthorAgentOperationResult, replay, still_pending, same_revision,
}

pub kind_eq_refl : (k : AuthorAgentOperationKind) → kind_eq k k ≡ true
kind_eq_refl draft_read = refl
kind_eq_refl proposal_preview = refl
kind_eq_refl proposal_apply = refl
kind_eq_refl docs_reference_read = refl

pub same_revision_refl : (n : Option ℤ) → same_revision n n ≡ true
same_revision_refl none = refl
same_revision_refl (some n) = (eqb_ℤ_iff n n).1 refl

pub pending_or_completed :
    (status : AuthorAgentOperationStatus)
    → (status ≡ pending) ⊎ (status ≡ AuthorAgentOperationStatus.completed)
pending_or_completed pending = inl refl
pending_or_completed AuthorAgentOperationStatus.completed = inr refl

-- An answer with the job and the operation that are stored: as pending, if the operation is as it was
-- reserved, or as a replay, if it has been completed for the same request.
pub record IsAnswered (s : JobStore) (k j : Text) (o : AuthorAgentOperationRecord)
    (answer : Option ReserveAuthorAgentOperationResult) : Type 0 where
  pub job : AuthorAgentJobRecord
  pub operations : Dict AuthorAgentOperationRecord
  pub operation : AuthorAgentOperationRecord
  pub job_found : lookup k s.jobs ≡ some job
  pub operations_found : lookup k s.operations ≡ some operations
  pub operation_found : lookup j operations ≡ some operation
  pub same_hash : operation.request_hash ≡ o.request_hash
  pub same_kind : operation.operation_kind ≡ o.operation_kind
  pub same_base : operation.base_revision ≡ o.base_revision
  pub answered_with :
      (operation ≡ o) × (answer ≡ some (still_pending job operation))
      ⊎ (operation.status ≡ AuthorAgentOperationStatus.completed)
        × (answer ≡ some (replay job operation))
