-- ===== src/Runtime/WellFormed.antt =====
-- The storage stays well formed, whatever calls are made.
use mathlib.Core.Path.{subst}
use mathlib.Core.Option.{some-injective}
use sandboxengine.Prelude.{ℕ, ◌≡◌, refl, sym, ap, ◌∙◌, true, none, some, List, [], ◌∷◌, ◌++◌, arith}
use sandboxengine.Prelude.Int.{ℤ, pos, ◌+ℤ◌, ◌≤ℤ◌, int_laws, eqb_ℤ_iff}
use sandboxengine.Prelude.Text.{Text}
use sandboxengine.Prelude.Dict.{Dict, lookup, store, lookup-store_ne, lookup-store_same}
use sandboxengine.Contracts.Value.{Value, is_id}
use sandboxengine.Runtime.Records.{Storage, MutableSession, OperationRecord, TurnRecordBoundary}
use sandboxengine.Runtime.Storage.{
  operation_key, is_processing, turns_of, is_valid_world_state, is_valid_candidate_state,
  is_valid_turn_record,
}
use sandboxengine.Runtime.Claim.{next_fencing_token, activated, leased}
use sandboxengine.Contracts.World.{WorldState}
use sandboxengine.Runtime.Commit.{
  committed_operation, finished_operation, next_session, idle_session,
}
use sandboxengine.Runtime.Moves.{Call, Reacquires, Holds, Commits, Finishes}
use sandboxengine.Runtime.Keys.{operation_key-session}
use sandboxengine.Runtime.Invariant.{Chain, IsSession, IsWellFormed}
use sandboxengine.Runtime.Keeps.{replaced-WellFormed}

pub next_fencing_token-next :
    (s : MutableSession) (t : ℤ) → next_fencing_token s ≡ some t → t ≡ s.fencing_counter +ℤ pos 1
unfolding next_fencing_token
next_fencing_token-next s t h = ground arith

pub next_fencing_token-le :
    (s : MutableSession) (t : ℤ) → next_fencing_token s ≡ some t → s.fencing_counter ≤ℤ t
next_fencing_token-le s t h = let e = next_fencing_token-next s t h in rw e (omega int_laws)

-- The operation that a session works on now.
pub activated-IsSession :
    (ops : Dict OperationRecord) (turns : Dict (List TurnRecordBoundary)) (sid k : Text)
    (s : MutableSession) (token : ℤ) (o' : OperationRecord)
    → o'.session_id ≡ sid
    → is_processing o'.status ≡ true
    → o'.fencing_token ≡ token
    → IsSession ops turns sid s
    → IsSession (store k o' ops) turns sid (activated s k token)
activated-IsSession ops turns sid k s token o' of_sid going newest ok = record {
  named = ok.named;
  is_session_id = ok.is_session_id;
  revision_of = ok.revision_of;
  valid = ok.valid;
  working = λ i e. (
    o',
    record {
      stored =
          ap (λ z. lookup z (store k o' ops)) (sym (some-injective _ _ e))
          ∙ lookup-store_same k o' ops;
      of_session = of_sid;
      going = going;
      newest = newest;
    },
  );
  start = ok.start;
  history = ok.history;
}

-- A session that works on nothing.
idle-IsSession :
    (ops : Dict OperationRecord) (turns : Dict (List TurnRecordBoundary)) (sid : Text)
    (s s' : MutableSession)
    → s'.active_operation_id ≡ none
    → s'.session_id ≡ s.session_id
    → s'.state.revision ≡ s'.revision
    → is_valid_world_state s'.state ≡ true
    → (start : ℤ) → Chain start (turns_of (lookup sid turns)) s'.revision
    → is_id sid ≡ true
    → s.session_id ≡ sid
    → IsSession ops turns sid s'
idle-IsSession ops turns sid s s' idle same rev valid start history id_ named = record {
  named = same ∙ named;
  is_session_id = id_;
  revision_of = rev;
  valid = valid;
  working = λ i e. let bad = sym idle ∙ e in cc;
  start = start;
  history = history;
}

pub Reacquires-WellFormed :
    {c : Call} (now : ℤ) (s t : Storage) → Reacquires now c s t → IsWellFormed s → IsWellFormed t
Reacquires-WellFormed now s t m wf =
    let o = m.operation in
    let ok = wf.operations_ok m.found_id o m.operation_found in
    let (p, p_found, p_key) =
      wf.keys_ok (operation_key m.input.session_id m.input.idempotency_key) m.found_id
        m.key_found in
    let p_is_o = some-injective _ _ (sym p_found ∙ m.operation_found) in
    let of_sid : o.session_id ≡ m.input.session_id =
      operation_key-session o.session_id m.input.session_id o.idempotency_key
        m.input.idempotency_key ok.session_is_id m.session_is_id
        (ap (λ z. operation_key z.session_id z.idempotency_key) (sym p_is_o) ∙ p_key) in
    let found : lookup o.operation_id s.operations ≡ some o =
      ap (λ z. lookup z s.operations) ok.named ∙ m.operation_found in
    let session_ok = wf.sessions_ok m.input.session_id m.session m.session_found in
    rw m.after (
      replaced-WellFormed s wf m.input.session_id o.operation_id m.session
        (activated m.session o.operation_id m.token) o
        (leased o (now +ℤ m.input.lease_duration_ms) m.token) s.turns s.next_operation_ordinal
        m.session_found found of_sid refl refl refl ok.answered (omega arith)
        (next_fencing_token-le m.session m.token m.next)
        (activated-IsSession s.operations s.turns m.input.session_id o.operation_id m.session
          m.token (leased o (now +ℤ m.input.lease_duration_ms) m.token) of_sid m.going refl
          session_ok)
        (λ j ne. refl))

-- What the holder of an operation knows.
module _ (now : ℤ) (s : Storage) (wf : IsWellFormed s) (sid oid : Text) (token : ℤ)
    (session : MutableSession) (o : OperationRecord) (h : Holds now s sid oid token session o) where
  pub held-found : lookup o.operation_id s.operations ≡ some o
  held-found =
      let ok = wf.operations_ok oid o h.operation_found in
      ap (λ z. lookup z s.operations) ok.named ∙ h.operation_found

  pub held-no_newer : o.fencing_token ≤ℤ session.fencing_counter
  held-no_newer =
      let ok = wf.operations_ok oid o h.operation_found in
      let agree =
        some-injective _ _
          (sym ok.session_found ∙ ap (λ z. lookup z s.sessions) h.same_session ∙ h.session_found) in
      subst (λ (z : MutableSession). o.fencing_token ≤ℤ z.fencing_counter) agree ok.no_newer

Chain-snoc :
    (a b : ℤ) (ts : List TurnRecordBoundary) (t : TurnRecordBoundary)
    → Chain a ts b
    → t.before_revision ≡ b
    → t.after_revision ≡ b +ℤ pos 1
    → Chain a (ts ++ t ∷ []) (b +ℤ pos 1)
Chain-snoc a b [] t h before after =
    (before ∙ sym h, after ∙ ap (λ z. z +ℤ pos 1) (sym h), ap (λ z. z +ℤ pos 1) h)
Chain-snoc a b (u ∷ ts) t h before after =
    (h.0, h.1, Chain-snoc (a +ℤ pos 1) b ts t h.2 before after)

candidate-parts :
    (s : WorldState) (r : ℤ)
    → is_valid_candidate_state s r ≡ true
    → (is_valid_world_state s ≡ true) × (s.revision ≡ r +ℤ pos 1)
unfolding is_valid_candidate_state
candidate-parts s r h = ground (arith, eqb_ℤ_iff s.revision (r +ℤ pos 1))

turn-parts :
    (t : TurnRecordBoundary) (o : OperationRecord) (r : ℤ)
    → is_valid_turn_record t o r ≡ true
    → (t.before_revision ≡ r) × (t.after_revision ≡ r +ℤ pos 1)
unfolding is_valid_turn_record
turn-parts t o r h =
    ground (arith, eqb_ℤ_iff t.before_revision r, eqb_ℤ_iff t.after_revision (r +ℤ pos 1))

pub Commits-WellFormed :
    {json_length : Value → ℕ} {c : Call} (now : ℤ) (s t : Storage)
    → Commits json_length now c s t
    → IsWellFormed s
    → IsWellFormed t
Commits-WellFormed now s t m wf =
    let o = m.operation in
    let h = m.holds in
    let sid = m.input.holder.session_id in
    let ok = wf.operations_ok m.input.holder.operation_id o h.operation_found in
    let session_ok = wf.sessions_ok sid m.session h.session_found in
    let (valid, grown) = candidate-parts m.input.candidate_state m.session.revision m.valid_state in
    let (before, after) = turn-parts m.input.turn_record o m.session.revision m.valid_turn in
    let ts = turns_of (lookup sid s.turns) ++ m.input.turn_record ∷ [] in
    let o' = committed_operation o m.input.turn_record.turn_id m.input.public_response in
    let longer : Chain session_ok.start ts m.input.candidate_state.revision = rw grown (
      Chain-snoc session_ok.start m.session.revision (turns_of (lookup sid s.turns))
        m.input.turn_record session_ok.history before after) in
    rw m.after (
      replaced-WellFormed s wf sid o.operation_id m.session
        (next_session m.session m.input.candidate_state) o o' (store sid ts s.turns)
        s.next_operation_ordinal h.session_found
        (held-found now s wf sid m.input.holder.operation_id m.input.holder.fencing_token m.session
          o h)
        h.same_session refl refl refl (m.input.public_response, refl)
        (held-no_newer now s wf sid m.input.holder.operation_id m.input.holder.fencing_token
          m.session o h)
        (omega arith)
        (idle-IsSession (store o.operation_id o' s.operations) (store sid ts s.turns) sid m.session
          (next_session m.session m.input.candidate_state) refl refl refl valid session_ok.start
          (rw (lookup-store_same sid ts s.turns) longer) session_ok.is_session_id session_ok.named)
        (λ j ne. lookup-store_ne j sid ts s.turns ne))

pub Finishes-WellFormed :
    {json_length : Value → ℕ} {c : Call} (now : ℤ) (s t : Storage)
    → Finishes json_length now c s t
    → IsWellFormed s
    → IsWellFormed t
Finishes-WellFormed now s t m wf =
    let o = m.operation in
    let h = m.holds in
    let sid = m.input.holder.session_id in
    let ok = wf.operations_ok m.input.holder.operation_id o h.operation_found in
    let session_ok = wf.sessions_ok sid m.session h.session_found in
    let o' = finished_operation o m.input.public_response in
    rw m.after (
      replaced-WellFormed s wf sid o.operation_id m.session (idle_session m.session) o o' s.turns
        s.next_operation_ordinal h.session_found
        (held-found now s wf sid m.input.holder.operation_id m.input.holder.fencing_token m.session
          o h)
        h.same_session refl refl refl (m.input.public_response, refl)
        (held-no_newer now s wf sid m.input.holder.operation_id m.input.holder.fencing_token
          m.session o h)
        (omega arith)
        (idle-IsSession (store o.operation_id o' s.operations) s.turns sid m.session
          (idle_session m.session) refl refl session_ok.revision_of session_ok.valid
          session_ok.start session_ok.history session_ok.is_session_id session_ok.named)
        (λ j ne. refl))
