-- ===== src/Control/JobRows.antt =====
-- What holds of a job with its journal and its operations between calls.
use mathlib.Core.Path.{subst}
use sandboxengine.Prelude.{
  ℕ, suc, ◌+◌, ◌≡◌, refl, sym, ap, true, false, Option, none, some, List, [], ◌∷◌, ◌++◌, length,
  inl, inr, Bool-cases, arith,
}
use sandboxengine.Prelude.Int.{ℤ, pos, ◌+ℤ◌, ◌≤ℤ◌, ◌<ℤ◌, int_laws, is_safe_natural}
use sandboxengine.Prelude.Text.{Text}
use sandboxengine.Prelude.Dict.{Every, Every-store, lookup}
use sandboxengine.Control.Facts.{AuthorAgentCheckpointFact, AuthorAgentOperationResult, job_created}
use sandboxengine.Control.Records.{
  AuthorAgentJobState, AuthorAgentCapabilityGrant, AuthorAgentCheckpoint,
  AuthorAgentOperationRecord, AuthorAgentOperationStatus, CreateAuthorAgentJobInput,
  ReserveAuthorAgentOperationInput, CompleteAuthorAgentOperationInput,
}
use sandboxengine.Control.Jobs.{
  is_create_input, initial_job, with_state, resets_budget, has_kind, budget_exhausted, is_within,
  max_tool_calls_of, max_active_time_ms_of, max_author_agent_max_tool_calls,
  max_author_agent_max_active_time_ms, pending_operation, completed_operation,
}
use sandboxengine.Control.JobStore.{checkpoint, journal_with}
use sandboxengine.Control.JobMoves.{
  Row, first_row, moved, with_note, with_reserved, with_completed, Change, moves, notes, reserves,
  completes,
}

-- Checkpoints of one job, numbered from a number on.
abbrev pub Numbered : Text → ℕ → List AuthorAgentCheckpoint → Type 0
Numbered k n [] = Unit
Numbered k n (c ∷ cs) = (c.job_id ≡ k) × (c.ordinal ≡ n) × Numbered k (suc n) cs

Numbered-append :
    (k : Text) (n : ℕ) (cs : List AuthorAgentCheckpoint) (fact : AuthorAgentCheckpointFact) (at : ℤ)
    → Numbered k n cs
    → Numbered k n (cs ++ checkpoint k (n + length cs) fact at ∷ [])
Numbered-append k n [] fact at h = (refl, omega arith, tt)
Numbered-append k n (c ∷ cs) fact at (same, ordinal, rest) =
    let shift : suc n + length cs ≡ n + suc (length cs) = omega arith in
    (same, ordinal, rw (sym shift) (Numbered-append k (suc n) cs fact at rest))

-- A journal that begins with the fact that the job was created.
abbrev pub IsJournal : Text → List AuthorAgentCheckpoint → Type 0
IsJournal k cs =
    (at : ℤ) × (rest : List AuthorAgentCheckpoint) × (cs ≡ checkpoint k 0 job_created at ∷ rest)
    × Numbered k 0 cs

IsJournal-with :
    (k : Text) (cs : List AuthorAgentCheckpoint) (fact : Option AuthorAgentCheckpointFact) (at : ℤ)
    → IsJournal k cs
    → IsJournal k (journal_with k cs fact at)
IsJournal-with k cs none at h = h
IsJournal-with k cs (some fact) at (start, rest, e, numbered) =
    let from_zero : 0 + length cs ≡ length cs = omega arith in
    (
      start,
      rest ++ checkpoint k (length cs) fact at ∷ [],
      ap (λ (z : List AuthorAgentCheckpoint). z ++ checkpoint k (length cs) fact at ∷ []) e,
      subst (λ n. Numbered k 0 (cs ++ checkpoint k n fact at ∷ [])) from_zero
          (Numbered-append k 0 cs fact at numbered),
    )

-- An operation has a result just when it is completed.
abbrev pub Resulted : AuthorAgentOperationStatus → Option AuthorAgentOperationResult → Type 0
Resulted AuthorAgentOperationStatus.pending r = r ≡ none
Resulted AuthorAgentOperationStatus.completed r = (x : AuthorAgentOperationResult) × (r ≡ some x)

pub record IsJobOperation (k : Text) (grant : AuthorAgentCapabilityGrant) (j : Text)
    (o : AuthorAgentOperationRecord) : Type 0 where
  pub of_job : o.job_id ≡ k
  pub named : o.operation_id ≡ j
  pub granted : has_kind grant.allowed_operations o.operation_kind ≡ true
  pub resulted : Resulted o.status o.result

pub record IsRow (k : Text) (r : Row) : Type 0 where
  pub named : r.job.job_id ≡ k
  pub same_project : r.job.grant.project_id ≡ r.job.project_id
  pub same_quest : r.job.grant.quest_id ≡ r.job.quest_id
  pub calls_limit : is_within r.job.grant.max_tool_calls max_author_agent_max_tool_calls ≡ true
  pub time_limit :
      is_within r.job.grant.max_active_time_ms max_author_agent_max_active_time_ms ≡ true
  pub version_low : pos 0 ≤ℤ r.job.job_version
  pub calls_low : pos 0 ≤ℤ r.job.tool_calls_used
  pub calls_high : r.job.tool_calls_used ≤ℤ r.job.grant.max_tool_calls
  pub time_low : pos 0 ≤ℤ r.job.active_time_ms_used
  pub journal_ok : IsJournal k r.journal
  pub operations_ok : Every (IsJobOperation k r.job.grant) r.operations

within-parts :
    (i : CreateAuthorAgentJobInput)
    → is_create_input i ≡ true
    → (is_within (max_tool_calls_of i) max_author_agent_max_tool_calls ≡ true)
      × (is_within (max_active_time_ms_of i) max_author_agent_max_active_time_ms ≡ true)
unfolding is_create_input
within-parts i h = ground arith

within_le : (n most : ℤ) → is_within n most ≡ true → pos 0 ≤ℤ n
within_le n most h = ground arith

none_stored : (k : Text) (grant : AuthorAgentCapabilityGrant) → Every (IsJobOperation k grant) []
unfolding lookup
none_stored k grant j a e = let bad = e in cc

pub first_row-IsRow :
    (i : CreateAuthorAgentJobInput) → is_create_input i ≡ true → IsRow i.job_id (first_row i)
first_row-IsRow i h =
    let (calls, time) = within-parts i h in
    record {
      named = refl;
      same_project = refl;
      same_quest = refl;
      calls_limit = calls;
      time_limit = time;
      version_low = omega arith;
      calls_low = omega arith;
      calls_high = within_le (max_tool_calls_of i) max_author_agent_max_tool_calls calls;
      time_low = omega arith;
      journal_ok = (i.created_at_ms, [], refl, (refl, refl, tt));
      operations_ok = none_stored i.job_id (initial_job i).grant;
    }

-- A row whose job keeps its name and its grant.
module _ (k : Text) (r : Row) (ok : IsRow k r) where
  moved-IsRow :
      (to : AuthorAgentJobState) (code : Option Text) (at : ℤ) → IsRow k (moved k r to code at)
  unfolding with_state
  moved-IsRow to code at =
      let zero_low = ok.calls_low in
      let zero_high = ok.calls_high in
      let low = ok.version_low in
      let time = ok.time_low in
      record {
        named = ok.named;
        same_project = ok.same_project;
        same_quest = ok.same_quest;
        calls_limit = ok.calls_limit;
        time_limit = ok.time_limit;
        version_low = omega (int_laws, low);
        calls_low = elim (Bool-cases (resets_budget r.job.state to)) [
          | inl e ↦ rw e (omega arith)
          | inr e ↦ rw e ok.calls_low
        ];
        calls_high = elim (Bool-cases (resets_budget r.job.state to)) [
          | inl e ↦ rw e (omega (arith, zero_low, zero_high))
          | inr e ↦ rw e ok.calls_high
        ];
        time_low = elim (Bool-cases (resets_budget r.job.state to)) [
          | inl e ↦ rw e (omega arith)
          | inr e ↦ rw e ok.time_low
        ];
        journal_ok = IsJournal-with k r.journal _ at ok.journal_ok;
        operations_ok = ok.operations_ok;
      }

  with_note-IsRow : (fact : AuthorAgentCheckpointFact) (at : ℤ) → IsRow k (with_note k r fact at)
  with_note-IsRow fact at =
      let low = ok.version_low in
      record {
        named = ok.named;
        same_project = ok.same_project;
        same_quest = ok.same_quest;
        calls_limit = ok.calls_limit;
        time_limit = ok.time_limit;
        version_low = omega (int_laws, low);
        calls_low = ok.calls_low;
        calls_high = ok.calls_high;
        time_low = ok.time_low;
        journal_ok = IsJournal-with k r.journal (some fact) at ok.journal_ok;
        operations_ok = ok.operations_ok;
      }

  budget_left :
      budget_exhausted r.job ≡ false → r.job.tool_calls_used +ℤ pos 1 ≤ℤ r.job.grant.max_tool_calls
  unfolding budget_exhausted
  budget_left h =
      let under : r.job.tool_calls_used <ℤ r.job.grant.max_tool_calls = ground arith in
      omega (int_laws, under)

  with_reserved-IsRow :
      (i : ReserveAuthorAgentOperationInput)
      → has_kind r.job.grant.allowed_operations i.operation_kind ≡ true
      → budget_exhausted r.job ≡ false
      → IsRow k (with_reserved k r i)
  with_reserved-IsRow i granted left =
      let low = ok.version_low in
      let calls = ok.calls_low in
      record {
        named = ok.named;
        same_project = ok.same_project;
        same_quest = ok.same_quest;
        calls_limit = ok.calls_limit;
        time_limit = ok.time_limit;
        version_low = omega (int_laws, low);
        calls_low = omega (int_laws, calls);
        calls_high = budget_left left;
        time_low = ok.time_low;
        journal_ok = ok.journal_ok;
        operations_ok =
            Every-store (IsJobOperation k r.job.grant) i.operation_id (pending_operation k i)
              r.operations
              (record { of_job = refl; named = refl; granted = granted; resulted = refl })
              (λ j a ne e. ok.operations_ok j a e);
      }

  natural_le : (n : ℤ) → is_safe_natural n ≡ true → pos 0 ≤ℤ n
  natural_le n h = ground arith

  with_completed-IsRow :
      (i : CompleteAuthorAgentOperationInput) (o : AuthorAgentOperationRecord)
      → lookup i.operation_id r.operations ≡ some o
      → is_safe_natural i.active_time_ms ≡ true
      → IsRow k (with_completed k r i o)
  with_completed-IsRow i o found natural =
      let low = ok.version_low in
      let time = ok.time_low in
      let more = natural_le i.active_time_ms natural in
      let was = ok.operations_ok i.operation_id o found in
      record {
        named = ok.named;
        same_project = ok.same_project;
        same_quest = ok.same_quest;
        calls_limit = ok.calls_limit;
        time_limit = ok.time_limit;
        version_low = omega (int_laws, low);
        calls_low = ok.calls_low;
        calls_high = ok.calls_high;
        time_low = omega (int_laws, time, more);
        journal_ok = IsJournal-with k r.journal _ i.at_ms ok.journal_ok;
        operations_ok =
            Every-store (IsJobOperation k r.job.grant) o.operation_id (completed_operation o i)
              r.operations
              (record {
                of_job = was.of_job;
                named = refl;
                granted = was.granted;
                resulted = (i.result, refl);
              })
              (λ j a ne e. ok.operations_ok j a e);
      }

pub Change-IsRow : (k : Text) (r r' : Row) → IsRow k r → Change k r r' → IsRow k r'
Change-IsRow k r r' ok (moves to code at e) = moved-IsRow k r ok to code at
Change-IsRow k r r' ok (notes fact at e) = with_note-IsRow k r ok fact at
Change-IsRow k r r' ok (reserves i new state granted left) =
    with_reserved-IsRow k r ok i granted left
Change-IsRow k r r' ok (completes i o found hash pending time) =
    with_completed-IsRow k r ok i o found time
