-- ===== src/Tests/Jobs.antt =====
-- A job that is created, started, and makes one tool call.
use sandboxengine.Prelude.{◌≤◌, ◌≡◌, refl, Bool, true, none, some, List, [], ◌∷◌, length}
use sandboxengine.Prelude.Int.{pos}
use sandboxengine.Prelude.Text.{Text, lit}
use sandboxengine.Prelude.Dict.{lookup, store}
use sandboxengine.Control.Facts.{
  is_hash, is_version, is_bounded_id_list, is_checkpoint_fact, is_outcome, is_operation_result,
  read_blocks,
}
use sandboxengine.Control.Records.{
  AuthorAgentJobRecord, AuthorAgentOperationRecord, CreateAuthorAgentJobInput,
  TransitionAuthorAgentJobInput, ReserveAuthorAgentOperationInput,
  CompleteAuthorAgentOperationInput, draft_read, running, succeeded, cancelled,
}
use sandboxengine.Control.Jobs.{
  distinct_kinds, is_create_input, initial_job, is_transition_input, transition_allowed, with_state,
  transition_fact, is_reserve_input, is_complete_input, pending_operation, completed_operation,
  budget_exhausted,
}
use sandboxengine.Control.JobStore.{
  JobStore, empty_job_store, updated, append_fact, create_job, transition_found, transition_job,
  append_found, append_checkpoint,
}
use sandboxengine.Control.JobOperations.{
  reserved, replay, completed, charged, worked, replay_or_reuse, reserve_new, reserve_found,
  reserve_operation, should_pause, complete_existing, complete_found, complete_operation,
}
use sandboxengine.Control.JobSteps.{
  JobCall, create_call, transition_call, reserve_call, complete_call, job_step, job_run,
}
use sandboxengine.Control.JobHistory.{
  IsJobStore, job_run-IsJobStore, reachable-IsJobStore, reachable-returns,
}
use sandboxengine.Control.JobReplies.{IsAnswered}
use sandboxengine.Control.JobPromises.{
  terminal_lasts, transition_job-once, reserve_operation-idempotent, complete_operation-replays,
}
use sandboxengine.Control.JobProgress.{can_end, Ends}
use sandboxengine.Tests.Data.{batches}
use sandboxengine.Tests.Runtime.{hash}

-- All that the store of jobs computes with.
unfoldable employed : Unit {0}
unfolding batches lookup store is_hash is_version is_bounded_id_list is_checkpoint_fact is_outcome
    is_operation_result distinct_kinds is_create_input is_transition_input transition_allowed
    with_state transition_fact is_reserve_input is_complete_input budget_exhausted append_fact
    create_job transition_found transition_job append_found append_checkpoint replay_or_reuse
    reserve_new reserve_found reserve_operation should_pause complete_existing complete_found
    complete_operation job_step job_run
employed = tt

abbrev any_text : Text → Bool
any_text s = true

abbrev wanted : CreateAuthorAgentJobInput
wanted = record {
  job_id = lit "job";
  project_id = lit "p";
  quest_id = lit "q";
  owner_user_id = lit "u";
  starting_draft_revision = pos 0;
  starting_draft_content_hash = hash;
  backend_id = lit "b";
  allowed_operations = draft_read ∷ [];
  max_tool_calls = none;
  max_active_time_ms = some (pos 100);
  created_at_ms = pos 1;
}

abbrev start_it : TransitionAuthorAgentJobInput
start_it = record { expected_job_version = pos 0; to = running; at_ms = pos 2; failure_code = none }

abbrev end_it : TransitionAuthorAgentJobInput
end_it = record { expected_job_version = pos 1; to = succeeded; at_ms = pos 9; failure_code = none }

abbrev read_it : ReserveAuthorAgentOperationInput
read_it = record {
  expected_job_version = pos 1;
  operation_id = lit "o1";
  operation_kind = draft_read;
  base_revision = none;
  request_hash = hash;
  at_ms = pos 3;
}

abbrev was_read : CompleteAuthorAgentOperationInput
was_read = record {
  operation_id = lit "o1";
  request_hash = hash;
  result = read_blocks (pos 7);
  active_time_ms = pos 100;
  at_ms = pos 4;
}

abbrev opened : JobStore
opened = job_run any_text empty_job_store (create_call wanted ∷ [])

abbrev begun : JobStore
begun = job_run any_text opened (transition_call (lit "job") start_it ∷ [])

abbrev begun_job : AuthorAgentJobRecord
begun_job = with_state (initial_job wanted) running (pos 2)

abbrev asked : JobStore
asked = job_run any_text begun (reserve_call (lit "job") read_it ∷ [])

abbrev asked_operation : AuthorAgentOperationRecord
asked_operation = pending_operation (lit "job") read_it

abbrev answered_operation : AuthorAgentOperationRecord
answered_operation = completed_operation asked_operation was_read

abbrev ended : JobStore
ended = job_run any_text begun (transition_call (lit "job") end_it ∷ [])

opened-IsJobStore : IsJobStore opened
opened-IsJobStore = reachable-IsJobStore any_text (create_call wanted ∷ [])

begun-IsJobStore : IsJobStore begun
begun-IsJobStore =
    job_run-IsJobStore any_text opened (transition_call (lit "job") start_it ∷ []) opened-IsJobStore

asked-IsJobStore : IsJobStore asked
asked-IsJobStore =
    job_run-IsJobStore any_text begun (reserve_call (lit "job") read_it ∷ []) begun-IsJobStore

ended-IsJobStore : IsJobStore ended
ended-IsJobStore =
    job_run-IsJobStore any_text begun (transition_call (lit "job") end_it ∷ []) begun-IsJobStore

starts : transition_job opened (lit "job") start_it ≡ (begun, some (updated begun_job))
unfolding employed
starts = refl

asks :
    reserve_operation begun (lit "job") read_it
    ≡ (asked, some (reserved (charged begun_job (pos 3)) asked_operation))
unfolding employed
asks = refl

abbrev paused : JobStore
paused = job_run any_text asked (complete_call (lit "job") was_read ∷ [])

-- The time that the call took uses up the limit, and the job pauses.
answers :
    complete_operation any_text asked (lit "job") was_read
    ≡ (paused, some (completed (worked (charged begun_job (pos 3)) was_read) answered_operation))
unfolding employed
answers = refl

reachable-IsJobStore_example : IsJobStore (
    job_run any_text empty_job_store
      (create_call wanted ∷ transition_call (lit "job") start_it ∷ []))
reachable-IsJobStore_example =
    reachable-IsJobStore any_text (create_call wanted ∷ transition_call (lit "job") start_it ∷ [])

reachable-returns_example :
    (job_step any_text
      (job_run any_text empty_job_store (create_call wanted ∷ []))
      (transition_call (lit "job") start_it)).1
    ≡ true
reachable-returns_example =
    reachable-returns any_text (create_call wanted ∷ []) (transition_call (lit "job") start_it)

terminal_lasts_example :
    (job' : AuthorAgentJobRecord) × (lookup
        (lit "job")
        (job_run any_text ended (transition_call (lit "job") start_it ∷ [])).jobs
      ≡ some job')
    × (job'.state ≡ succeeded)
    × (lookup
          (lit "job")
          (job_run any_text ended (transition_call (lit "job") start_it ∷ [])).checkpoints
        ≡ lookup (lit "job") ended.checkpoints)
unfolding employed
terminal_lasts_example =
    terminal_lasts any_text ended (transition_call (lit "job") start_it ∷ []) (lit "job")
      (with_state begun_job succeeded (pos 9)) ended-IsJobStore refl refl

transition_job-once_example :
    ¬ (transition_job begun (lit "job") start_it ≡ (begun, some (updated begun_job)))
unfolding employed
transition_job-once_example =
    transition_job-once any_text opened begun begun [] (lit "job") start_it start_it begun_job
      begun_job opened-IsJobStore starts refl

reserve_operation-idempotent_example :
    ((reserve_operation asked (lit "job") read_it).0 ≡ asked)
    × IsAnswered asked
        (lit "job")
        (lit "o1")
        asked_operation
        (reserve_operation asked (lit "job") read_it).1
unfolding employed
reserve_operation-idempotent_example =
    reserve_operation-idempotent any_text begun asked [] (lit "job") read_it read_it
      (charged begun_job (pos 3)) asked_operation begun-IsJobStore asks refl refl refl refl refl

complete_operation-replays_example :
    (answered_operation.result ≡ some (read_blocks (pos 7)))
    × ((job' : AuthorAgentJobRecord) × (complete_operation any_text paused (lit "job") was_read
          ≡ (paused, some (replay job' answered_operation))))
unfolding employed
complete_operation-replays_example =
    complete_operation-replays any_text asked paused [] (lit "job") was_read was_read
      (worked (charged begun_job (pos 3)) was_read) answered_operation asked-IsJobStore answers refl
      refl refl

can_end_example :
    ((c : JobCall) × Ends any_text opened (lit "job") cancelled (c ∷ []))
    × ((cs : List JobCall) × (length cs ≤ 2) × Ends any_text opened (lit "job") succeeded cs)
unfolding employed
can_end_example =
    can_end any_text opened (lit "job") (initial_job wanted) (pos 5) opened-IsJobStore refl refl
      refl refl refl
