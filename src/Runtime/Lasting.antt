-- ===== src/Runtime/Lasting.antt =====
-- What no call takes back: an answer, a key and a fencing token.
use mathlib.Core.Option.{some-injective}
use sandboxengine.Prelude.{
  ℕ, ◌≡◌, sym, ap, ◌∙◌, true, false, some, List, [], ◌∷◌, inl, inr, Bool-cases, arith,
}
use sandboxengine.Prelude.Int.{ℤ, ◌+ℤ◌, ◌≤ℤ◌}
use sandboxengine.Prelude.Text.{Text, text_eq, text_eq_iff}
use sandboxengine.Prelude.Dict.{Dict, lookup, store, lookup-store_ne, lookup-store_same}
use sandboxengine.Contracts.Value.{Value}
use sandboxengine.Runtime.Records.{Storage, MutableSession, OperationRecord}
use sandboxengine.Runtime.Storage.{is_processing}
use sandboxengine.Runtime.Claim.{activated, leased, new_operation}
use sandboxengine.Runtime.Commit.{
  committed_operation, finished_operation, next_session, idle_session,
}
use sandboxengine.Runtime.Moves.{Call, Move, stays, reacquires, opens, renews, commits, finishes}
use sandboxengine.Runtime.Steps.{step, run, step-Move}
use sandboxengine.Runtime.Invariant.{IsWellFormed}
use sandboxengine.Runtime.WellFormed.{next_fencing_token-le, held-found}
use sandboxengine.Runtime.Reachable.{Move-WellFormed}

-- An operation that is done is not the one that a call works on.
done-store :
    (ops : Dict OperationRecord) (k i : Text) (o p p' : OperationRecord)
    → lookup k ops ≡ some o
    → is_processing o.status ≡ false
    → lookup i ops ≡ some p
    → is_processing p.status ≡ true
    → lookup k (store i p' ops) ≡ some o
done-store ops k i o p p' found done has going = elim (Bool-cases (text_eq i k)) [
  | inl q ↦
      let o_p =
        some-injective _ _ (sym has ∙ ap (λ z. lookup z ops) ((text_eq_iff i k).0 q) ∙ found) in
      let bad = sym going ∙ ap (λ z. is_processing z.status) o_p ∙ done in cc
  | inr q ↦ lookup-store_ne k i p' ops q ∙ found
]

Move-keeps_done :
    {json_length : Value → ℕ} {c : Call} (now : ℤ) (s t : Storage) (k : Text) (o : OperationRecord)
    → Move json_length now c s t
    → IsWellFormed s
    → is_processing o.status ≡ false
    → lookup k s.operations ≡ some o
    → lookup k t.operations ≡ some o
Move-keeps_done now s t k o (stays n after) wf done found = rw after found
Move-keeps_done now s t k o (reacquires m) wf done found =
    let p = m.operation in
    let ok = wf.operations_ok m.found_id p m.operation_found in
    rw m.after (
      done-store s.operations k p.operation_id o p
        (leased p (now +ℤ m.input.lease_duration_ms) m.token) found done
        (ap (λ z. lookup z s.operations) ok.named ∙ m.operation_found) m.going)
Move-keeps_done now s t k o (opens m) wf done found =
    rw m.after (elim (Bool-cases (text_eq m.operation_id k)) [
      | inl q ↦
          let bad =
            sym m.id_new
            ∙ ap (λ z. lookup z s.operations) ((text_eq_iff m.operation_id k).0 q)
            ∙ found in
          cc
      | inr q ↦
          lookup-store_ne k m.operation_id (new_operation now m.input m.operation_id m.token)
            s.operations q
          ∙ found
    ])
Move-keeps_done now s t k o (renews m) wf done found =
    let p = m.operation in
    rw m.after (
      done-store s.operations k p.operation_id o p
        (record p { lease_expires_at_ms = some (now +ℤ m.input.lease_duration_ms) }) found done
        (held-found now s wf m.input.session_id m.input.operation_id m.input.fencing_token m.session
          p m.holds)
        m.holds.going)
Move-keeps_done now s t k o (commits m) wf done found =
    let p = m.operation in
    rw m.after (
      done-store s.operations k p.operation_id o p
        (committed_operation p m.input.turn_record.turn_id m.input.public_response) found done
        (held-found now s wf m.input.holder.session_id m.input.holder.operation_id
          m.input.holder.fencing_token m.session p m.holds)
        m.holds.going)
Move-keeps_done now s t k o (finishes m) wf done found =
    let p = m.operation in
    rw m.after (
      done-store s.operations k p.operation_id o p (finished_operation p m.input.public_response)
        found done
        (held-found now s wf m.input.holder.session_id m.input.holder.operation_id
          m.input.holder.fencing_token m.session p m.holds)
        m.holds.going)

-- The session is there, and its counter has not gone back.
abbrev pub HasCounter : Dict MutableSession → Text → ℤ → Type 0
HasCounter d sid n = (s : MutableSession) × (lookup sid d ≡ some s) × (n ≤ℤ s.fencing_counter)

HasCounter-store :
    (d : Dict MutableSession) (j sid : Text) (n : ℤ) (s s' : MutableSession)
    → lookup j d ≡ some s
    → s.fencing_counter ≤ℤ s'.fencing_counter
    → HasCounter d sid n
    → HasCounter (store j s' d) sid n
HasCounter-store d j sid n s s' found up (p, has, low) = elim (Bool-cases (text_eq j sid)) [
  | inl q ↦
      let j_sid = (text_eq_iff j sid).0 q in
      let agree = some-injective _ _ (sym has ∙ ap (λ z. lookup z d) (sym j_sid) ∙ found) in
      let low' : n ≤ℤ s.fencing_counter = rw agree at low in
      (
        s',
        ap (λ z. lookup z (store j s' d)) (sym j_sid) ∙ lookup-store_same j s' d,
        omega (arith, low', up),
      )
  | inr q ↦ (p, lookup-store_ne sid j s' d q ∙ has, low)
]

Move-HasCounter :
    {json_length : Value → ℕ} {c : Call} (now : ℤ) (s t : Storage) (sid : Text) (n : ℤ)
    → Move json_length now c s t
    → HasCounter s.sessions sid n
    → HasCounter t.sessions sid n
Move-HasCounter now s t sid n (stays o after) h = rw after h
Move-HasCounter now s t sid n (reacquires m) h = rw m.after (
    HasCounter-store s.sessions m.input.session_id sid n m.session
      (activated m.session m.operation.operation_id m.token) m.session_found
      (next_fencing_token-le m.session m.token m.next) h)
Move-HasCounter now s t sid n (opens m) h = rw m.after (
    HasCounter-store s.sessions m.input.session_id sid n m.session
      (activated m.session m.operation_id m.token) m.session_found
      (next_fencing_token-le m.session m.token m.next) h)
Move-HasCounter now s t sid n (renews m) h = rw m.after h
Move-HasCounter now s t sid n (commits m) h = rw m.after (
    HasCounter-store s.sessions m.input.holder.session_id sid n m.session
      (next_session m.session m.input.candidate_state) m.holds.session_found (omega arith) h)
Move-HasCounter now s t sid n (finishes m) h = rw m.after (
    HasCounter-store s.sessions m.input.holder.session_id sid n m.session (idle_session m.session)
      m.holds.session_found (omega arith) h)

module _ (factory : ℕ → Text) (json_length : Value → ℕ) where
  pub run-keeps_done :
      (s : Storage) (cs : List (ℤ × Call)) (k : Text) (o : OperationRecord)
      → IsWellFormed s
      → is_processing o.status ≡ false
      → lookup k s.operations ≡ some o
      → lookup k (run factory json_length s cs).operations ≡ some o
  unfolding run
  run-keeps_done s [] k o wf done found = found
  run-keeps_done s ((now, c) ∷ cs) k o wf done found =
      let m = step-Move factory json_length s now c in
      let t = step factory json_length s (now, c) in
      run-keeps_done t cs k o (Move-WellFormed now s t m wf) done
        (Move-keeps_done now s t k o m wf done found)

  pub run-HasCounter :
      (s : Storage) (cs : List (ℤ × Call)) (sid : Text) (n : ℤ)
      → HasCounter s.sessions sid n
      → HasCounter (run factory json_length s cs).sessions sid n
  unfolding run
  run-HasCounter s [] sid n h = h
  run-HasCounter s ((now, c) ∷ cs) sid n h =
      run-HasCounter (step factory json_length s (now, c)) cs sid n (
        Move-HasCounter now s (step factory json_length s (now, c)) sid n
          (step-Move factory json_length s now c) h)
