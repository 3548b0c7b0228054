-- ===== src/Runtime/Holders.antt =====
-- The calls of the holder of an operation make one of the moves.
use mathlib.Core.Path.{subst}
use sandboxengine.Prelude.{
  ℕ, ◌≡◌, refl, ap, Option, true, false, not, ◌||◌, none, some, inl, inr, Bool-cases, Option-cases,
  arith,
}
use sandboxengine.Prelude.Int.{ℤ, ◌<ℤ◌, eqb_ℤ, eqb_ℤ_iff}
use sandboxengine.Prelude.Text.{Text, text_eq, text_eq_iff}
use sandboxengine.Prelude.Dict.{lookup}
use sandboxengine.Contracts.Value.{Value}
use sandboxengine.Runtime.Records.{Storage, MutableSession, OperationRecord}
use sandboxengine.Runtime.Storage.{is_processing, lease_holds, is_active, is_lease_end_safe}
use sandboxengine.Runtime.Claim.{
  RenewLeaseInput, refuse_holder, renew_operation, renew_lease, is_valid_renew_input,
}
use sandboxengine.Runtime.Commit.{
  Holder, Held, held, not_held, hold, is_valid_holder, refuse_operation,
}
use sandboxengine.Runtime.Moves.{renew_call, IsLease, Move, Holds, renews}
use sandboxengine.Runtime.Handlers.{same}

holder-parts :
    (now : ℤ) (session : MutableSession) (o : OperationRecord) (token : ℤ)
    → refuse_holder now session o token ≡ none
    → (is_active session.active_operation_id o.operation_id ≡ true)
      × (eqb_ℤ o.fencing_token token ≡ true)
      × (lease_holds now o.lease_expires_at_ms ≡ true)
unfolding refuse_holder
holder-parts now session o token h = ground arith

operation-parts :
    (now : ℤ) (session : MutableSession) (o : OperationRecord) (h : Holder)
    → refuse_operation now session o h ≡ none
    → (text_eq o.session_id h.session_id ≡ true)
      × (is_processing o.status ≡ true)
      × (eqb_ℤ session.revision h.expected_revision ≡ true)
      × (eqb_ℤ o.expected_revision h.expected_revision ≡ true)
      × (refuse_holder now session o h.fencing_token ≡ none)
unfolding refuse_operation
operation-parts now session o h e = ground arith

is_active-some : (active : Option Text) (k : Text) → is_active active k ≡ true → active ≡ some k
is_active-some none k h = cc
is_active-some (some j) k h = ap some ((text_eq_iff j k).0 h)

lease_holds-until :
    (now : ℤ) (lease : Option ℤ)
    → lease_holds now lease ≡ true
    → (until : ℤ) × (lease ≡ some until) × (now <ℤ until)
lease_holds-until now none h = cc
lease_holds-until now (some at) h = (at, refl, ground arith)

Holds-of :
    (now : ℤ) (s : Storage) (sid oid : Text) (token : ℤ) (session : MutableSession)
    (o : OperationRecord)
    → lookup sid s.sessions ≡ some session
    → lookup oid s.operations ≡ some o
    → text_eq o.session_id sid ≡ true
    → is_processing o.status ≡ true
    → refuse_holder now session o token ≡ none
    → Holds now s sid oid token session o
Holds-of now s sid oid token session o a b c d e =
    let (active, same_token, leased) = holder-parts now session o token e in
    record {
      session_found = a;
      operation_found = b;
      same_session = (text_eq_iff o.session_id sid).0 c;
      going = d;
      active = active;
      same_token = (eqb_ℤ_iff o.fencing_token token).0 same_token;
      leased_still = leased;
      working = is_active-some session.active_operation_id o.operation_id active;
      until = (lease_holds-until now o.lease_expires_at_ms leased).0;
      ends = (lease_holds-until now o.lease_expires_at_ms leased).1;
      in_time = (lease_holds-until now o.lease_expires_at_ms leased).2;
    }

renew_operation-Move :
    (json_length : Value → ℕ) (now : ℤ) (s : Storage) (i : RenewLeaseInput)
    (session : MutableSession) (o : OperationRecord)
    → lookup i.session_id s.sessions ≡ some session
    → lookup i.operation_id s.operations ≡ some o
    → IsLease i.lease_duration_ms
    → Move json_length now (renew_call i) s (renew_operation now s i session o).0
unfolding renew_operation
renew_operation-Move json_length now s i session o a b lease =
    elim (Bool-cases (text_eq o.session_id i.session_id)) [
      | inr e ↦ rw (e, renew_operation) (same now s)
      | inl e ↦ elim (Bool-cases (is_processing o.status)) [
        | inr f ↦ rw (e, f, renew_operation) (same now s)
        | inl f ↦ elim (Option-cases (refuse_holder now session o i.fencing_token)) [
          | inr (r, g) ↦ rw (e, f, g, renew_operation) (same now s)
          | inl g ↦
              rw (e, f, g, renew_operation)
                (renews (record {
                  input = i;
                  asked = refl;
                  session = session;
                  operation = o;
                  lease = lease;
                  holds =
                      Holds-of now s i.session_id i.operation_id i.fencing_token session o a b e f
                        g;
                  after = refl;
                }))
        ]
      ]
    ]

renew_input-IsLease :
    (now : ℤ) (i : RenewLeaseInput)
    → (not (is_valid_renew_input i) || not (is_lease_end_safe now i.lease_duration_ms)) ≡ false
    → IsLease i.lease_duration_ms
unfolding is_valid_renew_input
renew_input-IsLease now i h = ground arith

pub renew_lease-Move :
    (json_length : Value → ℕ) (now : ℤ) (s : Storage) (i : RenewLeaseInput)
    → Move json_length now (renew_call i) s (renew_lease now s i).0
unfolding renew_lease
renew_lease-Move json_length now s i =
    elim (Bool-cases
      (not (is_valid_renew_input i) || not (is_lease_end_safe now i.lease_duration_ms))) [
        | inl v ↦ rw (v, renew_lease) (same now s)
        | inr v ↦ elim (Option-cases (lookup i.session_id s.sessions)) [
          | inl e ↦ rw (v, e, renew_lease) (same now s)
          | inr (session, e) ↦ elim (Option-cases (lookup i.operation_id s.operations)) [
            | inl f ↦ rw (v, e, f, renew_lease) (same now s)
            | inr (o, f) ↦
                rw (v, e, f, renew_lease)
                  (renew_operation-Move json_length now s i session o e f
                    (renew_input-IsLease now i v))
          ]
        ]
      ]

abbrev HeldWith : ℤ → Storage → Holder → Held → Type 0
HeldWith now s h (not_held r) = Unit
HeldWith now s h (held session o) =
    Holds now s h.session_id h.operation_id h.fencing_token session o
    × (session.revision ≡ h.expected_revision)
    × (o.expected_revision ≡ h.expected_revision)

-- What is held.
pub hold-Holds :
    (now : ℤ) (s : Storage) (h : Holder) (session : MutableSession) (o : OperationRecord)
    → hold now s h ≡ held session o
    → Holds now s h.session_id h.operation_id h.fencing_token session o
      × (session.revision ≡ h.expected_revision)
      × (o.expected_revision ≡ h.expected_revision)
unfolding hold
hold-Holds now s h session o e = elim (Bool-cases (is_valid_holder h)) [
  | inr v ↦ let bad = rw (v, hold) at e in cc
  | inl v ↦ elim (Option-cases (lookup h.session_id s.sessions)) [
    | inl a ↦ let bad = rw (v, a, hold) at e in cc
    | inr (session', a) ↦ elim (Option-cases (lookup h.operation_id s.operations)) [
      | inl b ↦ let bad = rw (v, a, b, hold) at e in cc
      | inr (o', b) ↦ elim (Option-cases (refuse_operation now session' o' h)) [
        | inr (r, c) ↦ let bad = rw (v, a, b, c, hold) at e in cc
        | inl c ↦
            let got : held session' o' ≡ held session o = rw (v, a, b, c, hold) at e in
            let (same_id, going, here, there, free) = operation-parts now session' o' h c in
            let all : Holds now s h.session_id h.operation_id h.fencing_token session' o'
                × (session'.revision ≡ h.expected_revision)
                × (o'.expected_revision ≡ h.expected_revision) =
              (
                Holds-of now s h.session_id h.operation_id h.fencing_token session' o' a b same_id
                    going free,
                (eqb_ℤ_iff session'.revision h.expected_revision).0 here,
                (eqb_ℤ_iff o'.expected_revision h.expected_revision).0 there,
              ) in
            subst (λ (z : Held). HeldWith now s h z) got all
      ]
    ]
  ]
]
