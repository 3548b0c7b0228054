-- ===== src/Control/JobHistory.antt =====
-- The store of jobs after any calls, and what has become of one job.
use mathlib.Core.Path.{subst}
use mathlib.Core.Option.{some-injective}
use sandboxengine.Prelude.{
  ◌≡◌, refl, sym, ap, ◌∙◌, Bool, true, false, List, [], ◌∷◌, inl, inr, Bool-cases, Option-cases,
}
use sandboxengine.Prelude.Text.{Text, text_eq, text_eq_iff}
use sandboxengine.Prelude.Dict.{Every, Every-store, lookup, lookup-store_same, lookup-store_ne}
use sandboxengine.Control.Records.{AuthorAgentJobRecord}
use sandboxengine.Control.JobStore.{JobStore, empty_job_store}
use sandboxengine.Control.JobMoves.{Row, HasRow, put, first_row, Change}
use sandboxengine.Control.JobSteps.{
  JobCall, JobMove, HasRows, stays, creates, changes, job_step, job_run, job_step-JobMove,
}
use sandboxengine.Control.JobRows.{IsRow, Change-IsRow, first_row-IsRow}

-- A job is stored with its journal and its operations, and they are as they should be.
pub record IsStoredJob (s : JobStore) (k : Text) (job : AuthorAgentJobRecord) : Type 0 where
  pub row : Row
  pub row_job : row.job ≡ job
  pub has : HasRow s k row
  pub row_ok : IsRow k row

abbrev pub IsJobStore : JobStore → Type 0
IsJobStore s = Every (IsStoredJob s) s.jobs

pub HasRow-put : (s : JobStore) (k : Text) (r : Row) → HasRow (put s k r) k r
HasRow-put s k r = record {
  job_found = lookup-store_same k r.job s.jobs;
  journal_found = lookup-store_same k r.journal s.checkpoints;
  operations_found = lookup-store_same k r.operations s.operations;
}

pub HasRow-put_ne :
    (s : JobStore) (k j : Text) (r r' : Row)
    → text_eq k j ≡ false
    → HasRow s j r'
    → HasRow (put s k r) j r'
HasRow-put_ne s k j r r' ne has = record {
  job_found = lookup-store_ne j k r.job s.jobs ne ∙ has.job_found;
  journal_found = lookup-store_ne j k r.journal s.checkpoints ne ∙ has.journal_found;
  operations_found = lookup-store_ne j k r.operations s.operations ne ∙ has.operations_found;
}

pub put-IsJobStore :
    (s : JobStore) (k : Text) (r : Row) → IsJobStore s → IsRow k r → IsJobStore (put s k r)
put-IsJobStore s k r ok row_ok =
    Every-store (IsStoredJob (put s k r)) k r.job s.jobs
      (record { row = r; row_job = refl; has = HasRow-put s k r; row_ok = row_ok })
      (λ j job ne found.
        let was = ok j job found in
        record {
          row = was.row;
          row_job = was.row_job;
          has = HasRow-put_ne s k j r was.row ne was.has;
          row_ok = was.row_ok;
        })

pub IsJobStore-HasRows : (s : JobStore) → IsJobStore s → HasRows s
IsJobStore-HasRows s ok k = elim (Option-cases (lookup k s.jobs)) [
  | inl e ↦ inl e
  | inr (job, e) ↦ inr ((ok k job e).row, (ok k job e).has)
]

-- Two rows of one job are the same.
HasRow-unique : (s : JobStore) (k : Text) (r r' : Row) → HasRow s k r → HasRow s k r' → r ≡ r'
HasRow-unique s k r r' h h' =
    let same_job = some-injective _ _ (sym h.job_found ∙ h'.job_found) in
    let same_journal = some-injective _ _ (sym h.journal_found ∙ h'.journal_found) in
    let same_operations = some-injective _ _ (sym h.operations_found ∙ h'.operations_found) in
    λ i. record { job = same_job i; journal = same_journal i; operations = same_operations i }

pub row-IsRow : (s : JobStore) (k : Text) (r : Row) → IsJobStore s → HasRow s k r → IsRow k r
row-IsRow s k r ok has =
    let found = ok k r.job has.job_found in
    subst (IsRow k) (HasRow-unique s k found.row r found.has has) found.row_ok

pub JobMove-IsJobStore :
    (s : JobStore) (p : JobStore × Bool) → IsJobStore s → JobMove s p → IsJobStore p.0
JobMove-IsJobStore s p ok (stays e) = subst IsJobStore (sym e) ok
JobMove-IsJobStore s p ok (creates i valid new e) =
    subst IsJobStore (sym e) (put-IsJobStore s i.job_id (first_row i) ok (first_row-IsRow i valid))
JobMove-IsJobStore s p ok (changes k r r' has c e) =
    subst IsJobStore (sym e)
      (put-IsJobStore s k r' ok (Change-IsRow k r r' (row-IsRow s k r ok has) c))

-- A row after some changes.
pub data Reach (k : Text) (r : Row) : Row → Type 0 where
  start : Reach k r r
  later : {r' r'' : Row} → Reach k r r' → Change k r' r'' → Reach k r r''

JobMove-Row :
    (s : JobStore) (p : JobStore × Bool) (k : Text) (first r : Row)
    → JobMove s p
    → HasRow s k r
    → Reach k first r
    → (r' : Row) × HasRow p.0 k r' × Reach k first r'
JobMove-Row s p k first r (stays e) has so_far = (r, subst (λ z. HasRow z k r) (sym e) has, so_far)
JobMove-Row s p k first r (creates i valid new e) has so_far =
    elim (Bool-cases (text_eq i.job_id k)) [
      | inl q ↦
          let bad =
            sym new ∙ ap (λ z. lookup z s.jobs) ((text_eq_iff i.job_id k).0 q) ∙ has.job_found in
          cc
      | inr q ↦ (
        r,
        subst (λ z. HasRow z k r) (sym e) (HasRow-put_ne s i.job_id k (first_row i) r q has),
        so_far,
      )
    ]
JobMove-Row s p k first r (changes j a b here c e) has so_far = elim (Bool-cases (text_eq j k)) [
  | inr q ↦ (r, subst (λ z. HasRow z k r) (sym e) (HasRow-put_ne s j k b r q has), so_far)
  | inl q ↦
      let j_k = (text_eq_iff j k).0 q in
      let a_r = HasRow-unique s k a r (subst (λ z. HasRow s z a) j_k here) has in
      let change : Change k r b = subst (λ z. Change k z b) a_r (subst (λ z. Change z a b) j_k c) in
      (
        b,
        subst (λ z. HasRow z k b) (sym e)
            (subst (λ z. HasRow (put s j b) z b) j_k (HasRow-put s j b)),
        later so_far change,
      )
]

module _ (is_json_string : Text → Bool) where
  pub job_run-IsJobStore :
      (s : JobStore) (cs : List JobCall) → IsJobStore s → IsJobStore (job_run is_json_string s cs)
  unfolding job_run
  job_run-IsJobStore s [] ok = ok
  job_run-IsJobStore s (c ∷ cs) ok =
      let (m, _) = job_step-JobMove is_json_string s (IsJobStore-HasRows s ok) c in
      job_run-IsJobStore (job_step is_json_string s c).0 cs
        (JobMove-IsJobStore s (job_step is_json_string s c) ok m)

  job_run-Reach_from :
      (s : JobStore) (cs : List JobCall) (k : Text) (first r : Row)
      → IsJobStore s
      → HasRow s k r
      → Reach k first r
      → (r' : Row) × HasRow (job_run is_json_string s cs) k r' × Reach k first r'
  unfolding job_run
  job_run-Reach_from s [] k first r ok has so_far = (r, has, so_far)
  job_run-Reach_from s (c ∷ cs) k first r ok has so_far =
      let t = job_step is_json_string s c in
      let (m, _) = job_step-JobMove is_json_string s (IsJobStore-HasRows s ok) c in
      let (r', has', reach) = JobMove-Row s t k first r m has so_far in
      job_run-Reach_from t.0 cs k first r' (JobMove-IsJobStore s t ok m) has' reach

  pub job_run-Reach :
      (s : JobStore) (cs : List JobCall) (k : Text) (r : Row)
      → IsJobStore s
      → HasRow s k r
      → (r' : Row) × HasRow (job_run is_json_string s cs) k r' × Reach k r r'
  job_run-Reach s cs k r ok has = job_run-Reach_from s cs k r r ok has start

  empty-IsJobStore : IsJobStore empty_job_store
  unfolding lookup
  empty-IsJobStore k job e = let bad = e in cc

  -- After any calls on an empty store, each job has its journal and its operations and is under its
  -- own id; its grant is for its own project and quest, with limits from 1 to 100 tool calls and to ten
  -- minutes; the tool calls used are from 0 to the limit; its journal begins with its creation and is
  -- numbered from 0 without a gap; each of its operations is the job's, under its own id, of a kind that
  -- the grant allows, and has a result just when it is completed.
  pub reachable-IsJobStore :
      (cs : List JobCall) → IsJobStore (job_run is_json_string empty_job_store cs)
  reachable-IsJobStore cs = job_run-IsJobStore empty_job_store cs empty-IsJobStore

  -- After any calls on an empty store, no call throws.
  pub reachable-returns :
      (cs : List JobCall) (c : JobCall)
      → (job_step is_json_string (job_run is_json_string empty_job_store cs) c).1 ≡ true
  reachable-returns cs c =
      let s = job_run is_json_string empty_job_store cs in
      (job_step-JobMove is_json_string s (IsJobStore-HasRows s (reachable-IsJobStore cs)) c).1
