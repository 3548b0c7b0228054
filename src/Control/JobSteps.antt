-- ===== src/Control/JobSteps.antt =====
-- Calls on the store of jobs, in sequence.
use sandboxengine.Prelude.{
  ◌≡◌, refl, ap, Bool, true, false, Option, none, some, List, [], ◌∷◌, inl, inr, ◌⊎◌, Bool-cases,
  Option-cases,
}
use sandboxengine.Prelude.Int.{ℤ}
use sandboxengine.Prelude.Text.{Text}
use sandboxengine.Prelude.Dict.{lookup}
use sandboxengine.Control.Facts.{AuthorAgentCheckpointFact}
use sandboxengine.Control.Records.{
  CreateAuthorAgentJobInput, TransitionAuthorAgentJobInput, ReserveAuthorAgentOperationInput,
  CompleteAuthorAgentOperationInput,
}
use sandboxengine.Control.Jobs.{is_create_input}
use sandboxengine.Control.JobStore.{JobStore, create_job, transition_job, append_checkpoint}
use sandboxengine.Control.JobOperations.{reserve_operation, complete_operation}
use sandboxengine.Control.JobMoves.{Row, HasRow, put, first_row, Change, Outcome}
use sandboxengine.Control.JobHandlers.{
  transition_job-Outcome, append_checkpoint-Outcome, reserve_operation-Outcome,
  complete_operation-Outcome,
}

pub data JobCall : Type 0 where
  create_call : CreateAuthorAgentJobInput → JobCall
  transition_call : Text → TransitionAuthorAgentJobInput → JobCall
  append_call :
      Text → (expected_job_version : ℤ) → AuthorAgentCheckpointFact → (at_ms : ℤ) → JobCall
  reserve_call : Text → ReserveAuthorAgentOperationInput → JobCall
  complete_call : Text → CompleteAuthorAgentOperationInput → JobCall

-- Whether a call returned, and did not throw.
abbrev pub returned {ℓ} : {A : Type ℓ} → Option A → Bool
returned none = false
returned (some a) = true

unfoldable pub job_step : (Text → Bool) → JobStore → JobCall → JobStore × Bool
job_step is_json_string s (create_call i) = ((create_job s i).0, true)
job_step is_json_string s (transition_call k i) =
    ((transition_job s k i).0, returned (transition_job s k i).1)
job_step is_json_string s (append_call k n fact at) =
    ((append_checkpoint s k n fact at).0, returned (append_checkpoint s k n fact at).1)
job_step is_json_string s (reserve_call k i) =
    ((reserve_operation s k i).0, returned (reserve_operation s k i).1)
job_step is_json_string s (complete_call k i) = (
  (complete_operation is_json_string s k i).0,
  returned (complete_operation is_json_string s k i).1,
)

unfoldable pub job_run : (Text → Bool) → JobStore → List JobCall → JobStore
job_run is_json_string s [] = s
job_run is_json_string s (c ∷ cs) = job_run is_json_string (job_step is_json_string s c).0 cs

-- Every job has its journal and its operations.
abbrev pub HasRows : JobStore → Type 0
HasRows s = (k : Text) → (lookup k s.jobs ≡ none) ⊎ ((r : Row) × HasRow s k r)

pub data JobMove (s : JobStore) (p : JobStore × Bool) : Type 0 where
  stays : p.0 ≡ s → JobMove s p
  creates :
      (i : CreateAuthorAgentJobInput)
      → is_create_input i ≡ true
      → lookup i.job_id s.jobs ≡ none
      → p.0 ≡ put s i.job_id (first_row i)
      → JobMove s p
  changes : (k : Text) (r r' : Row) → HasRow s k r → Change k r r' → p.0 ≡ put s k r' → JobMove s p

create_job-JobMove :
    (s : JobStore) (i : CreateAuthorAgentJobInput) → JobMove s ((create_job s i).0, true)
unfolding create_job
create_job-JobMove s i = elim (Bool-cases (is_create_input i)) [
  | inr e ↦ rw (e, create_job) (stays refl)
  | inl e ↦ elim (Option-cases (lookup i.job_id s.jobs)) [
    | inr (job, f) ↦ rw (e, f, create_job) (stays refl)
    | inl f ↦ rw (e, f, create_job) (creates i e f refl)
  ]
]

Outcome-JobMove :
    {A : Type 0} (s : JobStore) (k : Text) (r : Row) (p : JobStore × Option A)
    → HasRow s k r
    → Outcome s k r p
    → JobMove s (p.0, returned p.1) × (returned p.1 ≡ true)
Outcome-JobMove s k r p has o = (
  elim o.effect [ inl e ↦ stays e | inr (r', c, e) ↦ changes k r r' has c e ],
  ap returned o.returns.1,
)

-- Each call of a job that is not there returns and leaves the store as it is.
module _ (is_json_string : Text → Bool) (s : JobStore) (rows : HasRows s) where
  pub job_step-JobMove :
      (c : JobCall)
      → JobMove s (job_step is_json_string s c) × ((job_step is_json_string s c).1 ≡ true)
  unfolding job_step transition_job append_checkpoint reserve_operation complete_operation
  job_step-JobMove (create_call i) = (create_job-JobMove s i, refl)
  job_step-JobMove (transition_call k i) = elim (rows k) [
    | inl e ↦ rw (e, transition_job) (stays refl, refl)
    | inr (r, has) ↦
        Outcome-JobMove s k r (transition_job s k i) has (transition_job-Outcome s k r has i)
  ]
  job_step-JobMove (append_call k n fact at) = elim (rows k) [
    | inl e ↦ rw (e, append_checkpoint) (stays refl, refl)
    | inr (r, has) ↦
        Outcome-JobMove s k r (append_checkpoint s k n fact at) has
          (append_checkpoint-Outcome s k r has n fact at)
  ]
  job_step-JobMove (reserve_call k i) = elim (rows k) [
    | inl e ↦ rw (e, reserve_operation) (stays refl, refl)
    | inr (r, has) ↦
        Outcome-JobMove s k r (reserve_operation s k i) has (reserve_operation-Outcome s k r has i)
  ]
  job_step-JobMove (complete_call k i) = elim (rows k) [
    | inl e ↦ rw (e, complete_operation) (stays refl, refl)
    | inr (r, has) ↦
        Outcome-JobMove s k r (complete_operation is_json_string s k i) has
          (complete_operation-Outcome s k r has is_json_string i)
  ]
