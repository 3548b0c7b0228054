-- ===== src/Control/JobLasting.antt =====
-- What no change of a job takes back: its end, its versions and its operations.
use mathlib.Core.Option.{some-injective}
use sandboxengine.Prelude.{◌≡◌, refl, sym, ap, ◌∙◌, true, false, some, inl, inr, Bool-cases, arith}
use sandboxengine.Prelude.Int.{pos, ◌+ℤ◌, ◌≤ℤ◌, int_laws}
use sandboxengine.Prelude.Text.{Text, text_eq, text_eq_iff}
use sandboxengine.Prelude.Dict.{Dict, lookup, store, lookup-store_same, lookup-store_ne}
use sandboxengine.Control.Records.{
  AuthorAgentJobState, queued, running, waiting_user, paused_budget, validating, succeeded, failed,
  cancelled, AuthorAgentOperationRecord, CompleteAuthorAgentOperationInput,
}
use sandboxengine.Control.Jobs.{
  is_terminal, transition_allowed, with_state, pending_operation, completed_operation,
}
use sandboxengine.Control.JobOperations.{is_pending, is_runnable, should_pause}
use sandboxengine.Control.JobMoves.{Row, Change, moves, notes, reserves, completes}
use sandboxengine.Control.JobRows.{IsRow, Change-IsRow}
use sandboxengine.Control.JobHistory.{Reach, start, later}

not_runnable : (state : AuthorAgentJobState) → is_terminal state ≡ true → is_runnable state ≡ false
not_runnable queued h = let bad = h in cc
not_runnable running h = let bad = h in cc
not_runnable waiting_user h = let bad = h in cc
not_runnable paused_budget h = let bad = h in cc
not_runnable validating h = let bad = h in cc
not_runnable succeeded h = refl
not_runnable failed h = refl
not_runnable cancelled h = refl

no_transition :
    (from to : AuthorAgentJobState) → is_terminal from ≡ true → transition_allowed from to ≡ false
unfolding transition_allowed
no_transition from to h = rw (h, transition_allowed) refl

-- A job that has ended, and its journal, stay as they are.
pub record IsEnded (r r' : Row) : Type 0 where
  pub same_state : r'.job.state ≡ r.job.state
  pub same_journal : r'.journal ≡ r.journal

Change-IsEnded :
    (k : Text) (r r' : Row) → is_terminal r.job.state ≡ true → Change k r r' → IsEnded r r'
unfolding should_pause
Change-IsEnded k r r' h (moves to code at e) =
    let no = no_transition r.job.state to h in let bad = sym no ∙ e in cc
Change-IsEnded k r r' h (notes fact at e) = let bad = sym h ∙ e in cc
Change-IsEnded k r r' h (reserves i new e granted left) =
    let no = not_runnable r.job.state h in let bad = sym no ∙ e in cc
Change-IsEnded k r r' h (completes i o found hash e time) =
    let no = not_runnable r.job.state h in
    record { same_state = rw (no, should_pause) refl; same_journal = rw (no, should_pause) refl }

pub Reach-IsEnded :
    (k : Text) (r r' : Row) → is_terminal r.job.state ≡ true → Reach k r r' → IsEnded r r'
Reach-IsEnded k r r' h start = record { same_state = refl; same_journal = refl }
Reach-IsEnded k r r'' h (later {r' = r'} reach c) =
    let so_far = Reach-IsEnded k r r' h reach in
    let next = Change-IsEnded k r' r'' (ap is_terminal so_far.same_state ∙ h) c in
    record {
      same_state = next.same_state ∙ so_far.same_state;
      same_journal = next.same_journal ∙ so_far.same_journal;
    }

pub Change-version :
    (k : Text) (r r' : Row) → Change k r r' → r'.job.job_version ≡ r.job.job_version +ℤ pos 1
unfolding with_state
Change-version k r r' (moves to code at e) = refl
Change-version k r r' (notes fact at e) = refl
Change-version k r r' (reserves i new e granted left) = refl
Change-version k r r' (completes i o found hash e time) = refl

pub Reach-version : (k : Text) (r r' : Row) → Reach k r r' → r.job.job_version ≤ℤ r'.job.job_version
Reach-version k r r' start = omega arith
Reach-version k r r'' (later {r' = r'} reach c) =
    let so_far = Reach-version k r r' reach in
    let next = Change-version k r' r'' c in rw next (omega (int_laws, so_far))

-- An operation is still there, for the same request, and as it was if it was completed.
pub record IsKept (o o' : AuthorAgentOperationRecord) : Type 0 where
  pub same_hash : o'.request_hash ≡ o.request_hash
  pub same_kind : o'.operation_kind ≡ o.operation_kind
  pub same_base : o'.base_revision ≡ o.base_revision
  pub same_completed : is_pending o.status ≡ false → o' ≡ o
  pub same_pending : is_pending o'.status ≡ true → o' ≡ o

abbrev pub KeptIn : Dict AuthorAgentOperationRecord → Text → AuthorAgentOperationRecord → Type 0
KeptIn ops j o = (o' : AuthorAgentOperationRecord) × (lookup j ops ≡ some o') × IsKept o o'

same-IsKept : (o : AuthorAgentOperationRecord) → IsKept o o
same-IsKept o = record {
  same_hash = refl;
  same_kind = refl;
  same_base = refl;
  same_completed = λ h. refl;
  same_pending = λ h. refl;
}

IsKept-trans : (a b c : AuthorAgentOperationRecord) → IsKept a b → IsKept b c → IsKept a c
IsKept-trans a b c f g = record {
  same_hash = g.same_hash ∙ f.same_hash;
  same_kind = g.same_kind ∙ f.same_kind;
  same_base = g.same_base ∙ f.same_base;
  same_completed = λ h.
      let b_a = f.same_completed h in
      g.same_completed (ap (λ z. is_pending z.status) b_a ∙ h) ∙ b_a;
  same_pending = λ h.
      let c_b = g.same_pending h in
      c_b ∙ f.same_pending (ap (λ z. is_pending z.status) (sym c_b) ∙ h);
}

completed-IsKept :
    (o : AuthorAgentOperationRecord) (i : CompleteAuthorAgentOperationInput)
    → is_pending o.status ≡ true
    → IsKept o (completed_operation o i)
completed-IsKept o i going = record {
  same_hash = refl;
  same_kind = refl;
  same_base = refl;
  same_completed = λ h. let bad = sym going ∙ h in cc;
  same_pending = λ h. cc;
}

Change-KeptIn :
    (k j : Text) (r r' : Row) (o : AuthorAgentOperationRecord)
    → IsRow k r
    → lookup j r.operations ≡ some o
    → Change k r r'
    → KeptIn r'.operations j o
Change-KeptIn k j r r' o ok found (moves to code at e) = (o, found, same-IsKept o)
Change-KeptIn k j r r' o ok found (notes fact at e) = (o, found, same-IsKept o)
Change-KeptIn k j r r' o ok found (reserves i new e granted left) =
    elim (Bool-cases (text_eq i.operation_id j)) [
      | inl q ↦
          let bad =
            sym new
            ∙ ap (λ z. lookup z r.operations) ((text_eq_iff i.operation_id j).0 q)
            ∙ found in
          cc
      | inr q ↦ (
        o,
        lookup-store_ne j i.operation_id (pending_operation k i) r.operations q ∙ found,
        same-IsKept o,
      )
    ]
Change-KeptIn k j r r' o ok found (completes i p here hash going time) =
    elim (Bool-cases (text_eq p.operation_id j)) [
      | inr q ↦ (
        o,
        lookup-store_ne j p.operation_id (completed_operation p i) r.operations q ∙ found,
        same-IsKept o,
      )
      | inl q ↦
          let p_j = (text_eq_iff p.operation_id j).0 q in
          let named = (ok.operations_ok i.operation_id p here).named in
          let p_o =
            some-injective _ _
              (sym here ∙ ap (λ z. lookup z r.operations) (sym named ∙ p_j) ∙ found) in
          (
            completed_operation p i,
            ap (λ z. lookup z (store p.operation_id (completed_operation p i) r.operations))
                  (sym p_j)
                ∙ lookup-store_same p.operation_id (completed_operation p i) r.operations,
            rw p_o (completed-IsKept o i (rw (sym p_o) going)),
          )
    ]

pub Reach-IsRow : (k : Text) (r r' : Row) → IsRow k r → Reach k r r' → IsRow k r'
Reach-IsRow k r r' ok start = ok
Reach-IsRow k r r'' ok (later {r' = r'} reach c) =
    Change-IsRow k r' r'' (Reach-IsRow k r r' ok reach) c

pub Reach-KeptIn :
    (k j : Text) (r r' : Row) (o : AuthorAgentOperationRecord)
    → IsRow k r
    → lookup j r.operations ≡ some o
    → Reach k r r'
    → KeptIn r'.operations j o
Reach-KeptIn k j r r' o ok found start = (o, found, same-IsKept o)
Reach-KeptIn k j r r'' o ok found (later {r' = r'} reach c) =
    let (m, m_found, m_kept) = Reach-KeptIn k j r r' o ok found reach in
    let (n, n_found, n_kept) = Change-KeptIn k j r' r'' m (Reach-IsRow k r r' ok reach) m_found c in
    (n, n_found, IsKept-trans o m n m_kept n_kept)
