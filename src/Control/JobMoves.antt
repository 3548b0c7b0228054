-- ===== src/Control/JobMoves.antt =====
-- What a call may do to one job with its journal and its operations, apart from the code that decides it.
use sandboxengine.Prelude.{◌≡◌, true, false, Option, none, some, List, [], ◌∷◌, ◌⊎◌}
use sandboxengine.Prelude.Int.{ℤ, ◌+ℤ◌, is_safe_natural}
use sandboxengine.Prelude.Text.{Text, text_eq}
use sandboxengine.Prelude.Dict.{Dict, lookup, store}
use sandboxengine.Control.Facts.{AuthorAgentCheckpointFact, job_created}
use sandboxengine.Control.Records.{
  AuthorAgentJobState, AuthorAgentJobRecord, AuthorAgentCheckpoint, AuthorAgentOperationRecord,
  CreateAuthorAgentJobInput, ReserveAuthorAgentOperationInput, CompleteAuthorAgentOperationInput,
}
use sandboxengine.Control.Jobs.{
  initial_job, transition_allowed, with_state, transition_fact, is_terminal, pending_operation,
  completed_operation, has_kind, budget_exhausted,
}
use sandboxengine.Control.JobStore.{JobStore, checkpoint, journal_with, noted}
use sandboxengine.Control.JobOperations.{
  is_pending, is_runnable, charged, should_pause, worked, pause_fact,
}

-- What the three maps hold for one job.
pub record Row : Type 0 where
  pub job : AuthorAgentJobRecord
  pub journal : List AuthorAgentCheckpoint
  pub operations : Dict AuthorAgentOperationRecord

pub record HasRow (s : JobStore) (k : Text) (r : Row) : Type 0 where
  pub job_found : lookup k s.jobs ≡ some r.job
  pub journal_found : lookup k s.checkpoints ≡ some r.journal
  pub operations_found : lookup k s.operations ≡ some r.operations

abbrev pub put : JobStore → Text → Row → JobStore
put s k r = record {
  jobs = store k r.job s.jobs;
  checkpoints = store k r.journal s.checkpoints;
  operations = store k r.operations s.operations;
}

abbrev pub first_row : CreateAuthorAgentJobInput → Row
first_row i = record {
  job = initial_job i;
  journal = checkpoint i.job_id 0 job_created i.created_at_ms ∷ [];
  operations = [];
}

-- The row after a transition, after a note, after a reservation and after a completion.
abbrev pub moved : Text → Row → AuthorAgentJobState → Option Text → ℤ → Row
moved k r to code at = record {
  job = with_state r.job to at;
  journal =
      journal_with k r.journal (transition_fact r.job.state to code (with_state r.job to at)) at;
  operations = r.operations;
}

abbrev pub with_note : Text → Row → AuthorAgentCheckpointFact → ℤ → Row
with_note k r fact at = record {
  job = noted r.job at;
  journal = journal_with k r.journal (some fact) at;
  operations = r.operations;
}

abbrev pub with_reserved : Text → Row → ReserveAuthorAgentOperationInput → Row
with_reserved k r i = record {
  job = charged r.job i.at_ms;
  journal = r.journal;
  operations = store i.operation_id (pending_operation k i) r.operations;
}

abbrev pub with_completed :
    Text → Row → CompleteAuthorAgentOperationInput → AuthorAgentOperationRecord → Row
with_completed k r i o = record {
  job = worked r.job i;
  journal =
      journal_with k r.journal
        (pause_fact (should_pause r.job (r.job.active_time_ms_used +ℤ i.active_time_ms))
          (worked r.job i))
        i.at_ms;
  operations = store o.operation_id (completed_operation o i) r.operations;
}

pub data Change (k : Text) (r : Row) : Row → Type 0 where
  moves :
      (to : AuthorAgentJobState) (code : Option Text) (at : ℤ)
      → transition_allowed r.job.state to ≡ true
      → Change k r (moved k r to code at)
  notes :
      (fact : AuthorAgentCheckpointFact) (at : ℤ)
      → is_terminal r.job.state ≡ false
      → Change k r (with_note k r fact at)
  reserves :
      (i : ReserveAuthorAgentOperationInput)
      → lookup i.operation_id r.operations ≡ none
      → is_runnable r.job.state ≡ true
      → has_kind r.job.grant.allowed_operations i.operation_kind ≡ true
      → budget_exhausted r.job ≡ false
      → Change k r (with_reserved k r i)
  completes :
      (i : CompleteAuthorAgentOperationInput) (o : AuthorAgentOperationRecord)
      → lookup i.operation_id r.operations ≡ some o
      → text_eq o.request_hash i.request_hash ≡ true
      → is_pending o.status ≡ true
      → is_safe_natural i.active_time_ms ≡ true
      → Change k r (with_completed k r i o)

-- A call on a job that is there returns, and leaves the store as it is or changes the job's row.
pub record Outcome {A : Type 0} (s : JobStore) (k : Text) (r : Row) (p : JobStore × Option A)
    : Type 0 where
  pub returns : (x : A) × (p.1 ≡ some x)
  pub effect : (p.0 ≡ s) ⊎ ((r' : Row) × Change k r r' × (p.0 ≡ put s k r'))
