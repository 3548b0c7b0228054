-- ===== src/Runtime/Fencing.antt =====
-- Fencing tokens: each claim that acquires an operation has the newest one, and overtakes older holders.
use mathlib.Core.Path.{subst}
use mathlib.Core.Option.{some-injective}
use sandboxengine.Prelude.{
  ℕ, suc, ◌≡◌, refl, sym, ap, ◌∙◌, Bool, true, not, ◌||◌, Option, none, some, List, inl, inr,
  Bool-cases, Option-cases, arith,
}
use sandboxengine.Prelude.Int.{ℤ, ◌≤ℤ◌, ◌<ℤ◌, int_laws, eqb_ℤ}
use sandboxengine.Prelude.Text.{Text, text_eq, text_eq_iff}
use sandboxengine.Prelude.Dict.{lookup, is_stored, lookup-store_same}
use sandboxengine.Contracts.Value.{Value, is_id}
use sandboxengine.Runtime.Records.{Storage, SessionRecord, MutableSession, OperationRecord}
use sandboxengine.Runtime.Storage.{
  operation_key, is_processing, is_active, is_lease_end_safe, canonical_request_hash, lease_holds,
}
use sandboxengine.Runtime.Claim.{
  ClaimOperationInput, ClaimOperationResult, acquired, reacquire, claim_operation, claim_in_session,
  claim_existing, claim_new, claim_fresh, open_operation, is_valid_claim_input, next_fencing_token,
  other_active, activated, replay_existing,
}
use sandboxengine.Runtime.Commit.{CommitTurnInput, committed, commit_turn}
use sandboxengine.Runtime.Holders.{hold-Holds}
use sandboxengine.Runtime.Moves.{Call}
use sandboxengine.Runtime.Steps.{run}
use sandboxengine.Runtime.Handlers.{claim_operation-Move}
use sandboxengine.Runtime.Invariant.{IsWellFormed}
use sandboxengine.Runtime.WellFormed.{held-found, next_fencing_token-next}
use sandboxengine.Runtime.Reachable.{Move-WellFormed, run-IsWellFormed}
use sandboxengine.Runtime.Lasting.{HasCounter, run-HasCounter}
use sandboxengine.Runtime.Promises.{committed-parts}

-- The session of a claim that acquires an operation, before and after.
abbrev Acquired : Storage → ClaimOperationInput → Storage × ClaimOperationResult → Type 0
Acquired s i (t, acquired o b) =
    (session : MutableSession) × (lookup i.session_id s.sessions ≡ some session)
    × (next_fencing_token session ≡ some o.fencing_token)
    × (lookup i.session_id t.sessions ≡ some (activated session o.operation_id o.fencing_token))
Acquired s i (t, other) = Unit

replay_existing-Acquired :
    (s : Storage) (i : ClaimOperationInput) (o : OperationRecord) (v : Option Value)
    → Acquired s i (replay_existing s o v)
replay_existing-Acquired s i o none = tt
replay_existing-Acquired s i o (some v) = tt

module _ (now : ℤ) (s : Storage) (i : ClaimOperationInput) (session : MutableSession)
    (found : lookup i.session_id s.sessions ≡ some session) where
  claim_existing-Acquired : (o : OperationRecord) → Acquired s i (claim_existing now s i session o)
  unfolding claim_existing reacquire
  claim_existing-Acquired o =
      elim (Bool-cases (
        not (text_eq o.request_hash (canonical_request_hash i.request_hash))
        || not (eqb_ℤ o.expected_revision i.expected_revision))) [
          | inl e ↦ rw (e, claim_existing) tt
          | inr e ↦ elim (Bool-cases (is_processing o.status)) [
            | inr f ↦ rw (e, f, claim_existing) (replay_existing-Acquired s i o o.public_response)
            | inl f ↦ elim (Bool-cases (lease_holds now o.lease_expires_at_ms)) [
              | inl g ↦ rw (e, f, g, claim_existing) tt
              | inr g ↦ elim (Bool-cases (eqb_ℤ session.revision i.expected_revision)) [
                | inr h ↦ rw (e, f, g, h, claim_existing) tt
                | inl h ↦
                    elim (Option-cases (other_active session.active_operation_id o.operation_id)) [
                      | inr (j, a) ↦ rw (e, f, g, h, a, claim_existing) tt
                      | inl a ↦ elim (Option-cases (next_fencing_token session)) [
                        | inl n ↦ rw (e, f, g, h, a, n, claim_existing, reacquire) tt
                        | inr (token, n) ↦
                            rw (e, f, g, h, a, n, claim_existing, reacquire)
                              (
                                session,
                                found,
                                n,
                                lookup-store_same i.session_id
                                    (activated session o.operation_id token) s.sessions,
                              )
                      ]
                    ]
              ]
            ]
          ]
        ]

  open_operation-Acquired :
      (k : Text) (n : ℕ) (token : ℤ)
      → next_fencing_token session ≡ some token
      → Acquired s i
          (open_operation now (record s { next_operation_ordinal = n }) i session k token)
  unfolding open_operation
  open_operation-Acquired k n token e =
      elim (Bool-cases (not (is_id k) || is_stored (lookup k s.operations))) [
        | inl f ↦ rw (f, open_operation) tt
        | inr f ↦
            rw (f, open_operation)
              (
                session,
                found,
                e,
                lookup-store_same i.session_id (activated session k token) s.sessions,
              )
      ]

  claim_fresh-Acquired :
      (factory : ℕ → Text)
      → Acquired s i (claim_fresh factory now s i session (next_fencing_token session))
  unfolding claim_fresh
  claim_fresh-Acquired factory = elim (Option-cases (next_fencing_token session)) [
    | inl e ↦ rw (e, claim_fresh) tt
    | inr (token, e) ↦
        rw (e, claim_fresh)
          (open_operation-Acquired (factory s.next_operation_ordinal) (suc s.next_operation_ordinal)
            token e)
  ]

  claim_new-Acquired : (factory : ℕ → Text) → Acquired s i (claim_new factory now s i session)
  unfolding claim_new claim_fresh next_fencing_token open_operation
  claim_new-Acquired factory = elim (Bool-cases (eqb_ℤ session.revision i.expected_revision)) [
    | inr e ↦ rw (e, claim_new) tt
    | inl e ↦ elim (Option-cases session.active_operation_id) [
      | inr (j, a) ↦ rw (e, a, claim_new) tt
      | inl a ↦
          let opening : claim_new factory now s i session
              ≡ claim_fresh factory now s i session (next_fencing_token session) =
            rw (e, a, claim_new) refl in
          subst (Acquired s i) (sym opening) (claim_fresh-Acquired factory)
    ]
  ]

claim_operation-Acquired :
    (factory : ℕ → Text) (now : ℤ) (s : Storage) (i : ClaimOperationInput)
    → Acquired s i (claim_operation factory now s i)
unfolding claim_operation claim_in_session
claim_operation-Acquired factory now s i =
    elim (Bool-cases
      (not (is_valid_claim_input i) || not (is_lease_end_safe now i.lease_duration_ms))) [
        | inl v ↦ rw (v, claim_operation) tt
        | inr v ↦ elim (Option-cases (lookup i.session_id s.sessions)) [
          | inl e ↦ rw (v, e, claim_operation) tt
          | inr (session, e) ↦
              elim (Option-cases
                (lookup (operation_key i.session_id i.idempotency_key) s.operation_by_key)) [
                  | inl f ↦
                      rw (v, e, f, claim_operation, claim_in_session)
                        (claim_new-Acquired now s i session e factory)
                  | inr (k, f) ↦ elim (Option-cases (lookup k s.operations)) [
                    | inl g ↦ rw (v, e, f, g, claim_operation, claim_in_session) tt
                    | inr (o, g) ↦
                        rw (v, e, f, g, claim_operation, claim_in_session)
                          (claim_existing-Acquired now s i session e o)
                  ]
                ]
        ]
      ]

-- When a claim acquires an operation, its fencing token is greater than that of each operation that the
-- session has had so far.
pub claim_operation-newest :
    (factory : ℕ → Text) (now : ℤ) (s t : Storage) (i : ClaimOperationInput) (o : OperationRecord)
    (b : Bool) (k : Text) (p : OperationRecord)
    → IsWellFormed s
    → claim_operation factory now s i ≡ (t, acquired o b)
    → lookup k s.operations ≡ some p
    → p.session_id ≡ i.session_id
    → p.fencing_token <ℤ o.fencing_token
claim_operation-newest factory now s t i o b k p wf h found of_session =
    let (session, session_found, next, _) =
      subst (Acquired s i) h (claim_operation-Acquired factory now s i) in
    let ok = wf.operations_ok k p found in
    let agree =
      some-injective _ _
        (sym ok.session_found ∙ ap (λ z. lookup z s.sessions) of_session ∙ session_found) in
    let low : p.fencing_token ≤ℤ session.fencing_counter = rw (sym agree) ok.no_newer in
    let up = next_fencing_token-next session o.fencing_token next in rw up (omega (int_laws, low))

-- The operation that a session works on has the session's counter as its token.
active-newest :
    (s : Storage) (j : Text) (session : MutableSession) (k : Text) (o : OperationRecord)
    → IsWellFormed s
    → lookup j s.sessions ≡ some session
    → lookup k s.operations ≡ some o
    → is_active session.active_operation_id k ≡ true
    → o.fencing_token ≡ session.fencing_counter
active-newest s j session k o wf session_found found active =
    elim (Option-cases session.active_operation_id) [
      | inl e ↦ let bad = rw e at active in cc
      | inr (a, e) ↦
          let same : text_eq a k ≡ true = rw e at active in
          let (q, w) = (wf.sessions_ok j session session_found).working a e in
          let agree =
            some-injective _ _
              (sym w.stored ∙ ap (λ z. lookup z s.operations) ((text_eq_iff a k).0 same) ∙ found) in
          ap (λ z. z.fencing_token) (sym agree) ∙ w.newest
    ]

-- After a claim has acquired an operation and any further calls, no commit in that session under an
-- older fencing token succeeds, whatever operation it names.
pub claim_operation-fences :
    (factory : ℕ → Text) (json_length : Value → ℕ) (now later : ℤ) (s t : Storage)
    (i : ClaimOperationInput) (o : OperationRecord) (b : Bool) (cs : List (ℤ × Call))
    (j : CommitTurnInput) (u : Storage) (r : SessionRecord) (p : OperationRecord)
    → IsWellFormed s
    → claim_operation factory now s i ≡ (t, acquired o b)
    → j.holder.session_id ≡ i.session_id
    → j.holder.fencing_token <ℤ o.fencing_token
    → ¬ (commit_turn json_length later (run factory json_length t cs) j ≡ (u, committed r p))
claim_operation-fences factory json_length now later s t i o b cs j u r p wf h same older again =
    let end = run factory json_length t cs in
    let (old, _, _, made) = subst (Acquired s i) h (claim_operation-Acquired factory now s i) in
    let well : IsWellFormed t =
      subst (λ (z : Storage × ClaimOperationResult). IsWellFormed z.0) h
        (Move-WellFormed now s (claim_operation factory now s i).0
          (claim_operation-Move (λ v. 0) factory now s i) wf) in
    let first : HasCounter t.sessions i.session_id o.fencing_token =
      (activated old o.operation_id o.fencing_token, made, omega arith) in
    let (session, has, low) =
      run-HasCounter factory json_length t cs i.session_id o.fencing_token first in
    let (held_session, q, e, _) = committed-parts json_length later end u j r p again in
    let (holds, _, _) = hold-Holds later end j.holder held_session q e in
    let agree =
      some-injective _ _ (sym holds.session_found ∙ ap (λ z. lookup z end.sessions) same ∙ has) in
    let end_ok = run-IsWellFormed factory json_length t cs well in
    let stored =
      held-found later end end_ok j.holder.session_id j.holder.operation_id j.holder.fencing_token
        held_session q holds in
    let token =
      active-newest end j.holder.session_id held_session q.operation_id q end_ok holds.session_found
        stored holds.active in
    let counter : o.fencing_token ≤ℤ held_session.fencing_counter = rw agree low in
    let again_token : j.holder.fencing_token ≡ held_session.fencing_counter =
      sym holds.same_token ∙ token in
    let bad : held_session.fencing_counter <ℤ o.fencing_token = rw again_token at older in
    omega (int_laws, counter, bad)
