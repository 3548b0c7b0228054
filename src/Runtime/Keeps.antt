-- ===== src/Runtime/Keeps.antt =====
-- Every move keeps the storage well formed.
use mathlib.Core.Path.{subst}
use mathlib.Core.Option.{some-injective}
use sandboxengine.Prelude.{ℕ, ◌≡◌, refl, sym, ap, ◌∙◌, false, some, List}
use sandboxengine.Prelude.Int.{◌≤ℤ◌}
use sandboxengine.Prelude.Text.{Text, text_eq, text_eq_iff}
use sandboxengine.Prelude.Dict.{Dict, Every-store, lookup, store, lookup-store_same}
use sandboxengine.Runtime.Records.{Storage, MutableSession, OperationRecord, TurnRecordBoundary}
use sandboxengine.Runtime.Storage.{operation_key, turns_of}
use sandboxengine.Runtime.Invariant.{
  Chain, IsSession, IsOperation, IsWellFormed, Answered, IsKey-store, IsOperation-store_session,
  IsSession-other,
}

pub IsSession-turns :
    (ops : Dict OperationRecord) (turns turns' : Dict (List TurnRecordBoundary)) (j : Text)
    (s : MutableSession)
    → lookup j turns' ≡ lookup j turns
    → IsSession ops turns j s
    → IsSession ops turns' j s
IsSession-turns ops turns turns' j s same ok = record {
  named = ok.named;
  is_session_id = ok.is_session_id;
  revision_of = ok.revision_of;
  valid = ok.valid;
  working = ok.working;
  start = ok.start;
  history = subst (λ z. Chain ok.start (turns_of z) s.revision) (sym same) ok.history;
}

-- One session and one of its operations are replaced.
module _ (s : Storage) (wf : IsWellFormed s) (sid k : Text) (session session' : MutableSession)
    (o o' : OperationRecord) (turns' : Dict (List TurnRecordBoundary)) (ordinal : ℕ)
    (session_found : lookup sid s.sessions ≡ some session)
    (found : lookup k s.operations ≡ some o) where
  pub replaced-WellFormed :
      o.session_id ≡ sid
      → o'.operation_id ≡ k
      → o'.session_id ≡ o.session_id
      → o'.idempotency_key ≡ o.idempotency_key
      → Answered o'.status o'.public_response
      → o'.fencing_token ≤ℤ session'.fencing_counter
      → session.fencing_counter ≤ℤ session'.fencing_counter
      → IsSession (store k o' s.operations) turns' sid session'
      → ((j : Text) → text_eq sid j ≡ false → lookup j turns' ≡ lookup j s.turns)
      → IsWellFormed (record s {
        sessions = store sid session' s.sessions;
        operations = store k o' s.operations;
        turns = turns';
        next_operation_ordinal = ordinal;
      })
  replaced-WellFormed of_sid named same_session same_key answered newest up new others =
      let old = wf.operations_ok k o found in
      let same_id : operation_key o'.session_id o'.idempotency_key
          ≡ operation_key o.session_id o.idempotency_key =
        rw (same_session, same_key) refl in
      record {
        sessions_ok =
            Every-store (IsSession (store k o' s.operations) turns') sid session' s.sessions new
              (λ j a ne e.
                IsSession-turns (store k o' s.operations) s.turns turns' j a (others j ne) (
                  IsSession-other s.operations s.turns j k o' a
                    (λ p f q.
                      let agree = some-injective _ _ (sym found ∙ f) in
                      let sid_j : sid ≡ j = sym of_sid ∙ ap (λ z. z.session_id) agree ∙ q in
                      let yes_j = (text_eq_iff sid j).1 sid_j in cc)
                    (wf.sessions_ok j a e)));
        operations_ok =
            Every-store (IsOperation (store sid session' s.sessions) s.operation_by_key) k o'
              s.operations
              (record {
                named = named;
                session_is_id = rw same_session old.session_is_id;
                session = session';
                session_found =
                    ap (λ z. lookup z (store sid session' s.sessions)) (same_session ∙ of_sid)
                    ∙ lookup-store_same sid session' s.sessions;
                no_newer = newest;
                by_key = ap (λ z. lookup z s.operation_by_key) same_id ∙ old.by_key;
                answered = answered;
              })
              (λ j a ne e.
                IsOperation-store_session s.sessions s.operation_by_key sid session session' j a
                  session_found up (wf.operations_ok j a e));
        keys_ok =
            λ key j e. IsKey-store s.operations k o o' key j found same_id (wf.keys_ok key j e);
      }
