-- ===== src/Runtime/Invariant.antt =====
-- What holds of the storage between calls.
use mathlib.Core.Option.{some-injective}
use sandboxengine.Prelude.{
  ◌≡◌, sym, ap, ◌∙◌, true, Option, none, some, List, [], ◌∷◌, inl, inr, Bool-cases, arith,
}
use sandboxengine.Prelude.Int.{ℤ, pos, ◌+ℤ◌, ◌≤ℤ◌}
use sandboxengine.Prelude.Text.{Text, text_eq, text_eq_iff}
use sandboxengine.Prelude.Dict.{Dict, Every, lookup, store, lookup-store_ne, lookup-store_same}
use sandboxengine.Contracts.Value.{Value, is_id}
use sandboxengine.Runtime.Records.{
  Storage, MutableSession, OperationRecord, OperationStatus, TurnRecordBoundary,
}
use sandboxengine.Runtime.Storage.{operation_key, is_processing, turns_of, is_valid_world_state}

-- Turns that lead from one revision to another, each from where the one before it ended.
abbrev pub Chain : ℤ → List TurnRecordBoundary → ℤ → Type 0
Chain a [] b = a ≡ b
Chain a (t ∷ ts) b =
    (t.before_revision ≡ a) × (t.after_revision ≡ a +ℤ pos 1) × Chain (a +ℤ pos 1) ts b

-- The operation that a session works on is there, is the session's, goes on, and has the newest token.
pub record IsWorkedOn (operations : Dict OperationRecord) (session_id : Text) (counter : ℤ)
    (k : Text) (o : OperationRecord) : Type 0 where
  pub stored : lookup k operations ≡ some o
  pub of_session : o.session_id ≡ session_id
  pub going : is_processing o.status ≡ true
  pub newest : o.fencing_token ≡ counter

pub record IsSession (operations : Dict OperationRecord) (turns : Dict (List TurnRecordBoundary))
    (j : Text) (s : MutableSession) : Type 0 where
  pub named : s.session_id ≡ j
  pub is_session_id : is_id j ≡ true
  pub revision_of : s.state.revision ≡ s.revision
  pub valid : is_valid_world_state s.state ≡ true
  pub working :
      (k : Text)
      → s.active_operation_id ≡ some k
      → (o : OperationRecord) × IsWorkedOn operations j s.fencing_counter k o
  pub start : ℤ
  pub history : Chain start (turns_of (lookup j turns)) s.revision

-- An operation has an answer just when it is done.
abbrev pub Answered : OperationStatus → Option Value → Type 0
Answered OperationStatus.processing r = r ≡ none
Answered OperationStatus.completed r = (v : Value) × (r ≡ some v)
Answered OperationStatus.finished_without_turn r = (v : Value) × (r ≡ some v)

pub record IsOperation (sessions : Dict MutableSession) (keys : Dict Text) (k : Text)
    (o : OperationRecord) : Type 0 where
  pub named : o.operation_id ≡ k
  pub session_is_id : is_id o.session_id ≡ true
  pub session : MutableSession
  pub session_found : lookup o.session_id sessions ≡ some session
  pub no_newer : o.fencing_token ≤ℤ session.fencing_counter
  pub by_key : lookup (operation_key o.session_id o.idempotency_key) keys ≡ some k
  pub answered : Answered o.status o.public_response

abbrev pub IsKey : Dict OperationRecord → Text → Text → Type 0
IsKey operations key k =
    (o : OperationRecord) × (lookup k operations ≡ some o)
    × (operation_key o.session_id o.idempotency_key ≡ key)

pub record IsWellFormed (s : Storage) : Type 0 where
  pub sessions_ok : Every (IsSession s.operations s.turns) s.sessions
  pub operations_ok : Every (IsOperation s.sessions s.operation_by_key) s.operations
  pub keys_ok : Every (IsKey s.operations) s.operation_by_key

-- An operation that replaces one of the same session and key.
pub IsKey-store :
    (ops : Dict OperationRecord) (k : Text) (o o' : OperationRecord) (key j : Text)
    → lookup k ops ≡ some o
    → operation_key o'.session_id o'.idempotency_key ≡ operation_key o.session_id o.idempotency_key
    → IsKey ops key j
    → IsKey (store k o' ops) key j
IsKey-store ops k o o' key j has same (p, found, e) = elim (Bool-cases (text_eq k j)) [
  | inl q ↦
      let kj = (text_eq_iff k j).0 q in
      let agree : some o ≡ some p = sym has ∙ ap (λ z. lookup z ops) kj ∙ found in
      (
        o',
        ap (λ z. lookup z (store k o' ops)) (sym kj) ∙ lookup-store_same k o' ops,
        same
            ∙ ap (λ z. operation_key z.session_id z.idempotency_key) (some-injective _ _ agree)
            ∙ e,
      )
  | inr q ↦ (p, lookup-store_ne j k o' ops q ∙ found, e)
]

-- A session whose counter has not gone back.
pub IsOperation-store_session :
    (sessions : Dict MutableSession) (keys : Dict Text) (sid : Text) (s s' : MutableSession)
    (k : Text) (o : OperationRecord)
    → lookup sid sessions ≡ some s
    → s.fencing_counter ≤ℤ s'.fencing_counter
    → IsOperation sessions keys k o
    → IsOperation (store sid s' sessions) keys k o
IsOperation-store_session sessions keys sid s s' k o has up op =
    elim (Bool-cases (text_eq sid o.session_id)) [
      | inl q ↦
          let e = (text_eq_iff sid o.session_id).0 q in
          let agree =
            some-injective _ _ (sym has ∙ ap (λ z. lookup z sessions) e ∙ op.session_found) in
          let bound : o.fencing_token ≤ℤ s.fencing_counter = rw (sym agree) at op.no_newer in
          record {
            named = op.named;
            session_is_id = op.session_is_id;
            session = s';
            session_found =
                ap (λ z. lookup z (store sid s' sessions)) (sym e)
                ∙ lookup-store_same sid s' sessions;
            no_newer = omega (arith, bound, up);
            by_key = op.by_key;
            answered = op.answered;
          }
      | inr q ↦ record {
        named = op.named;
        session_is_id = op.session_is_id;
        session = op.session;
        session_found = lookup-store_ne o.session_id sid s' sessions q ∙ op.session_found;
        no_newer = op.no_newer;
        by_key = op.by_key;
        answered = op.answered;
      }
    ]

-- The operations of other sessions do not matter to a session.
pub IsSession-other :
    (ops : Dict OperationRecord) (turns : Dict (List TurnRecordBoundary)) (j k : Text)
    (o' : OperationRecord) (s : MutableSession)
    → ((o : OperationRecord) → lookup k ops ≡ some o → o.session_id ≡ j → ⊥)
    → IsSession ops turns j s
    → IsSession (store k o' ops) turns j s
IsSession-other ops turns j k o' s apart ok = record {
  named = ok.named;
  is_session_id = ok.is_session_id;
  revision_of = ok.revision_of;
  valid = ok.valid;
  working = λ i e.
      let (o, w) = ok.working i e in
      elim (Bool-cases (text_eq k i)) [
        | inl q ↦
            absurd
              (apart o (ap (λ z. lookup z ops) ((text_eq_iff k i).0 q) ∙ w.stored) w.of_session)
        | inr q ↦ (
          o,
          record {
            stored = lookup-store_ne i k o' ops q ∙ w.stored;
            of_session = w.of_session;
            going = w.going;
            newest = w.newest;
          },
        )
      ];
  start = ok.start;
  history = ok.history;
}
