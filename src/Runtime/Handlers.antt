-- ===== src/Runtime/Handlers.antt =====
-- Every call makes one of the moves.
use mathlib.Core.Option.{some-injective}
use sandboxengine.Prelude.{
  ℕ, suc, ◌≡◌, refl, Option, sym, true, false, not, ◌||◌, none, some, inl, inr, Bool-cases,
  Option-cases, arith,
}
use sandboxengine.Prelude.Int.{ℤ, ltb_ℤ, ◌≤ℤ◌, pos, max_safe_integer, eqb_ℤ_iff, ◌+ℤ◌, eqb_ℤ}
use sandboxengine.Prelude.Text.{Text, text_eq, text_eq_iff}
use sandboxengine.Prelude.Dict.{lookup, is_stored}
use sandboxengine.Contracts.Value.{Value, is_id}
use sandboxengine.Runtime.Records.{Storage, MutableSession, OperationRecord}
use sandboxengine.Runtime.Storage.{
  operation_key, is_processing, lease_holds, canonical_request_hash, is_lease_end_safe,
}
use sandboxengine.Runtime.Claim.{
  ClaimOperationInput, is_valid_claim_input, next_fencing_token, other_active, reacquire,
  claim_existing, open_operation, claim_fresh, claim_new, claim_in_session, claim_operation,
  replay_existing,
}
use sandboxengine.Runtime.Moves.{Call, claim_call, IsLease, Move, stays, reacquires, opens}

pub same : {json_length : Value → ℕ} {c : Call} (now : ℤ) (s : Storage) → Move json_length now c s s
same now s = stays s.next_operation_ordinal refl

lease_over :
    (now : ℤ) (lease : Option ℤ)
    → lease_holds now lease ≡ false
    → (until : ℤ) → lease ≡ some until
    → until ≤ℤ now
lease_over now lease h until e = let late : ltb_ℤ now until ≡ false = rw e at h in ground arith

next_up :
    (session : MutableSession) (token : ℤ)
    → next_fencing_token session ≡ some token
    → token ≡ session.fencing_counter +ℤ pos 1
unfolding next_fencing_token
next_up session token h = elim (Bool-cases (eqb_ℤ session.fencing_counter (pos max_safe_integer))) [
  | inl e ↦ let bad = rw (e, next_fencing_token) at h in cc
  | inr e ↦ sym (some-injective _ _ (rw (e, next_fencing_token) at h))
]

-- A session that a claim is for.
module _ (json_length : Value → ℕ) (now : ℤ) (s : Storage) (i : ClaimOperationInput)
    (session : MutableSession) (lease : IsLease i.lease_duration_ms)
    (sid : is_id i.session_id ≡ true) (key : is_id i.idempotency_key ≡ true)
    (found : lookup i.session_id s.sessions ≡ some session) where
  reacquire-Move :
      (k : Text) (o : OperationRecord)
      → lookup (operation_key i.session_id i.idempotency_key) s.operation_by_key ≡ some k
      → lookup k s.operations ≡ some o
      → o.request_hash ≡ canonical_request_hash i.request_hash
      → o.expected_revision ≡ i.expected_revision
      → session.revision ≡ i.expected_revision
      → is_processing o.status ≡ true
      → lease_holds now o.lease_expires_at_ms ≡ false
      → other_active session.active_operation_id o.operation_id ≡ none
      → Move json_length now
          (claim_call i)
          s
          (reacquire now s i session o (next_fencing_token session)).0
  unfolding reacquire
  reacquire-Move k o has_key has same_hash same_revision current going late free =
      elim (Option-cases (next_fencing_token session)) [
        | inl e ↦ rw (e, reacquire) (same now s)
        | inr (token, e) ↦
            rw (e, reacquire)
              (reacquires (record {
                input = i;
                asked = refl;
                lease = lease;
                same_hash = same_hash;
                same_revision = same_revision;
                current = current;
                session = session;
                found_id = k;
                operation = o;
                token = token;
                session_is_id = sid;
                key_is_id = key;
                session_found = found;
                key_found = has_key;
                operation_found = has;
                going = going;
                expired = late;
                over = lease_over now o.lease_expires_at_ms late;
                free = free;
                next = e;
                up = next_up session token e;
                after = refl;
              }))
      ]

  replay_existing-Move :
      (o : OperationRecord)
      → Move json_length now (claim_call i) s (replay_existing s o o.public_response).0
  replay_existing-Move o = elim (Option-cases o.public_response) [
    | inl e ↦ rw e (same now s)
    | inr (v, e) ↦ rw e (same now s)
  ]

  same_request :
      (o : OperationRecord)
      → (not (text_eq o.request_hash (canonical_request_hash i.request_hash))
          || not (eqb_ℤ o.expected_revision i.expected_revision))
        ≡ false
      → (o.request_hash ≡ canonical_request_hash i.request_hash)
        × (o.expected_revision ≡ i.expected_revision)
  same_request o h =
      let both : (text_eq o.request_hash (canonical_request_hash i.request_hash) ≡ true)
          × (eqb_ℤ o.expected_revision i.expected_revision ≡ true) =
        ground arith in
      (
        (text_eq_iff o.request_hash (canonical_request_hash i.request_hash)).0 both.0,
        (eqb_ℤ_iff o.expected_revision i.expected_revision).0 both.1,
      )

  claim_existing-Move :
      (k : Text) (o : OperationRecord)
      → lookup (operation_key i.session_id i.idempotency_key) s.operation_by_key ≡ some k
      → lookup k s.operations ≡ some o
      → Move json_length now (claim_call i) s (claim_existing now s i session o).0
  unfolding claim_existing
  claim_existing-Move k o has_key has =
      elim (Bool-cases (
        not (text_eq o.request_hash (canonical_request_hash i.request_hash))
        || not (eqb_ℤ o.expected_revision i.expected_revision))) [
          | inl e ↦ rw (e, claim_existing) (same now s)
          | inr e ↦ elim (Bool-cases (is_processing o.status)) [
            | inr f ↦ rw (e, f, claim_existing) (replay_existing-Move o)
            | inl f ↦ elim (Bool-cases (lease_holds now o.lease_expires_at_ms)) [
              | inl g ↦ rw (e, f, g, claim_existing) (same now s)
              | inr g ↦ elim (Bool-cases (eqb_ℤ session.revision i.expected_revision)) [
                | inr h ↦ rw (e, f, g, h, claim_existing) (same now s)
                | inl h ↦
                    elim (Option-cases (other_active session.active_operation_id o.operation_id)) [
                      | inr (j, a) ↦ rw (e, f, g, h, a, claim_existing) (same now s)
                      | inl a ↦
                          rw (e, f, g, h, a, claim_existing)
                            (let (hash, revision) = same_request o e in
                              reacquire-Move k o has_key has hash revision
                                ((eqb_ℤ_iff session.revision i.expected_revision).0 h) f g a)
                    ]
              ]
            ]
          ]
        ]

  open_operation-Move :
      (k : Text) (token : ℤ)
      → lookup (operation_key i.session_id i.idempotency_key) s.operation_by_key ≡ none
      → session.revision ≡ i.expected_revision
      → session.active_operation_id ≡ none
      → next_fencing_token session ≡ some token
      → Move json_length now
          (claim_call i)
          s
          (open_operation now
            (record s { next_operation_ordinal = suc s.next_operation_ordinal })
            i
            session
            k
            token).0
  unfolding open_operation
  open_operation-Move k token key_new current idle e =
      elim (Bool-cases (not (is_id k) || is_stored (lookup k s.operations))) [
        | inl f ↦ rw (f, open_operation) (stays (suc s.next_operation_ordinal) refl)
        | inr f ↦
            rw (f, open_operation)
              (opens (record {
                input = i;
                asked = refl;
                lease = lease;
                current = current;
                session = session;
                operation_id = k;
                token = token;
                ordinal = suc s.next_operation_ordinal;
                session_is_id = sid;
                key_is_id = key;
                session_found = found;
                key_new = key_new;
                idle = idle;
                id_new = not_stored k f;
                next = e;
                up = next_up session token e;
                after = refl;
              }))
      ]
    where
      not_stored :
          (k : Text)
          → (not (is_id k) || is_stored (lookup k s.operations)) ≡ false
          → lookup k s.operations ≡ none
      not_stored k h = elim (Option-cases (lookup k s.operations)) [
        | inl e ↦ e
        | inr (o, e) ↦ let bad = rw e at h in ground arith
      ]

  claim_new-Move :
      (factory : ℕ → Text)
      → lookup (operation_key i.session_id i.idempotency_key) s.operation_by_key ≡ none
      → Move json_length now (claim_call i) s (claim_new factory now s i session).0
  unfolding claim_new claim_fresh
  claim_new-Move factory key_new = elim (Bool-cases (eqb_ℤ session.revision i.expected_revision)) [
    | inr e ↦ rw (e, claim_new) (same now s)
    | inl e ↦ elim (Option-cases session.active_operation_id) [
      | inr (j, a) ↦ rw (e, a, claim_new) (same now s)
      | inl a ↦ elim (Option-cases (next_fencing_token session)) [
        | inl n ↦ rw (e, a, n, claim_new, claim_fresh) (same now s)
        | inr (token, n) ↦
            rw (e, a, n, claim_new, claim_fresh)
              (open_operation-Move (factory s.next_operation_ordinal) token key_new
                ((eqb_ℤ_iff session.revision i.expected_revision).0 e) a n)
      ]
    ]
  ]

  claim_in_session-Move :
      (factory : ℕ → Text)
      → Move json_length now (claim_call i) s (claim_in_session factory now s i session).0
  unfolding claim_in_session
  claim_in_session-Move factory =
      elim (Option-cases
        (lookup (operation_key i.session_id i.idempotency_key) s.operation_by_key)) [
          | inl e ↦ rw (e, claim_in_session) (claim_new-Move factory e)
          | inr (k, e) ↦ elim (Option-cases (lookup k s.operations)) [
            | inl f ↦ rw (e, f, claim_in_session) (same now s)
            | inr (o, f) ↦ rw (e, f, claim_in_session) (claim_existing-Move k o e f)
          ]
        ]

claim_input_ids :
    (i : ClaimOperationInput)
    → is_valid_claim_input i ≡ true
    → (is_id i.session_id ≡ true) × (is_id i.idempotency_key ≡ true) × IsLease i.lease_duration_ms
unfolding is_valid_claim_input
claim_input_ids i h = ground arith

pub claim_operation-Move :
    (json_length : Value → ℕ) (factory : ℕ → Text) (now : ℤ) (s : Storage) (i : ClaimOperationInput)
    → Move json_length now (claim_call i) s (claim_operation factory now s i).0
unfolding claim_operation
claim_operation-Move json_length factory now s i = elim (Bool-cases (is_valid_claim_input i)) [
  | inr v ↦ rw (v, claim_operation) (same now s)
  | inl v ↦ elim (Bool-cases (is_lease_end_safe now i.lease_duration_ms)) [
    | inr w ↦ rw (v, w, claim_operation) (same now s)
    | inl w ↦ elim (Option-cases (lookup i.session_id s.sessions)) [
      | inl e ↦ rw (v, w, e, claim_operation) (same now s)
      | inr (session, e) ↦
          let (sid, key, lease) = claim_input_ids i v in
          rw (v, w, e, claim_operation)
            (claim_in_session-Move json_length now s i session lease sid key e factory)
    ]
  ]
]
