-- ===== src/Runtime/Opening.antt =====
-- A lease that is renewed, and an operation that is opened, leave the storage well formed.
use mathlib.Core.Option.{some-injective}
use sandboxengine.Prelude.{◌≡◌, refl, sym, ap, ◌∙◌, none, some, List, inl, inr, Bool-cases, arith}
use sandboxengine.Prelude.Int.{ℤ, ◌+ℤ◌}
use sandboxengine.Prelude.Text.{Text, text_eq, text_eq_iff}
use sandboxengine.Prelude.Dict.{
  Dict, Every-store, lookup, store, lookup-store_ne, lookup-store_same,
}
use sandboxengine.Runtime.Records.{Storage, MutableSession, OperationRecord, TurnRecordBoundary}
use sandboxengine.Runtime.Storage.{operation_key, is_processing}
use sandboxengine.Runtime.Claim.{activated, new_operation}
use sandboxengine.Runtime.Moves.{Call, Opens, Renews}
use sandboxengine.Runtime.Invariant.{
  IsSession, IsOperation, IsKey, IsWellFormed, IsKey-store, IsOperation-store_session,
  IsSession-other,
}
use sandboxengine.Runtime.WellFormed.{next_fencing_token-le, activated-IsSession}

-- An operation is replaced by one of the same session, status and token.
IsSession-renewed :
    (ops : Dict OperationRecord) (turns : Dict (List TurnRecordBoundary)) (j k : Text)
    (o o' : OperationRecord) (s : MutableSession)
    → lookup k ops ≡ some o
    → o'.session_id ≡ o.session_id
    → o'.status ≡ o.status
    → o'.fencing_token ≡ o.fencing_token
    → IsSession ops turns j s
    → IsSession (store k o' ops) turns j s
IsSession-renewed ops turns j k o o' s found a b c ok = record {
  named = ok.named;
  is_session_id = ok.is_session_id;
  revision_of = ok.revision_of;
  valid = ok.valid;
  working = λ i e.
      let (p, w) = ok.working i e in
      elim (Bool-cases (text_eq k i)) [
        | inl q ↦
            let k_i = (text_eq_iff k i).0 q in
            let o_p = some-injective _ _ (sym found ∙ ap (λ z. lookup z ops) k_i ∙ w.stored) in
            (
              o',
              record {
                stored = ap (λ z. lookup z (store k o' ops)) (sym k_i) ∙ lookup-store_same k o' ops;
                of_session = a ∙ ap (λ z. z.session_id) o_p ∙ w.of_session;
                going =
                    ap (λ z. is_processing z) b ∙ ap (λ z. is_processing z.status) o_p ∙ w.going;
                newest = c ∙ ap (λ z. z.fencing_token) o_p ∙ w.newest;
              },
            )
        | inr q ↦ (
          p,
          record {
            stored = lookup-store_ne i k o' ops q ∙ w.stored;
            of_session = w.of_session;
            going = w.going;
            newest = w.newest;
          },
        )
      ];
  start = ok.start;
  history = ok.history;
}

pub Renews-WellFormed :
    {c : Call} (now : ℤ) (s t : Storage) → Renews now c s t → IsWellFormed s → IsWellFormed t
Renews-WellFormed now s t m wf =
    let o = m.operation in
    let ok = wf.operations_ok m.input.operation_id o m.holds.operation_found in
    let found : lookup o.operation_id s.operations ≡ some o =
      ap (λ z. lookup z s.operations) ok.named ∙ m.holds.operation_found in
    let o' : OperationRecord = record o {
      lease_expires_at_ms = some (now +ℤ m.input.lease_duration_ms);
    } in
    let old = wf.operations_ok o.operation_id o found in
    let new : IsOperation s.sessions s.operation_by_key o.operation_id o' = record {
      named = refl;
      session_is_id = old.session_is_id;
      session = old.session;
      session_found = old.session_found;
      no_newer = old.no_newer;
      by_key = old.by_key;
      answered = old.answered;
    } in
    rw m.after (record {
      sessions_ok = λ j a e.
          IsSession-renewed s.operations s.turns j o.operation_id o o' a found refl refl refl
            (wf.sessions_ok j a e);
      operations_ok =
          Every-store (IsOperation s.sessions s.operation_by_key) o.operation_id o' s.operations new
            (λ j a ne e. wf.operations_ok j a e);
      keys_ok = λ key j e.
          IsKey-store s.operations o.operation_id o o' key j found refl (wf.keys_ok key j e);
    })

IsOperation-store_key :
    (sessions : Dict MutableSession) (keys : Dict Text) (key k j : Text) (o : OperationRecord)
    → lookup key keys ≡ none
    → IsOperation sessions keys j o
    → IsOperation sessions (store key k keys) j o
IsOperation-store_key sessions keys key k j o new ok =
    let mine = operation_key o.session_id o.idempotency_key in
    elim (Bool-cases (text_eq key mine)) [
      | inl q ↦
          let bad = sym new ∙ ap (λ z. lookup z keys) ((text_eq_iff key mine).0 q) ∙ ok.by_key in cc
      | inr q ↦ record {
        named = ok.named;
        session_is_id = ok.session_is_id;
        session = ok.session;
        session_found = ok.session_found;
        no_newer = ok.no_newer;
        by_key = lookup-store_ne mine key k keys q ∙ ok.by_key;
        answered = ok.answered;
      }
    ]

IsKey-fresh :
    (ops : Dict OperationRecord) (k : Text) (o' : OperationRecord) (key j : Text)
    → lookup k ops ≡ none
    → IsKey ops key j
    → IsKey (store k o' ops) key j
IsKey-fresh ops k o' key j new (p, found, e) = elim (Bool-cases (text_eq k j)) [
  | inl q ↦ let bad = sym new ∙ ap (λ z. lookup z ops) ((text_eq_iff k j).0 q) ∙ found in cc
  | inr q ↦ (p, lookup-store_ne j k o' ops q ∙ found, e)
]

pub Opens-WellFormed :
    {c : Call} (now : ℤ) (s t : Storage) → Opens now c s t → IsWellFormed s → IsWellFormed t
Opens-WellFormed now s t m wf =
    let i = m.input in
    let sid = i.session_id in
    let k = m.operation_id in
    let o' = new_operation now i k m.token in
    let session' = activated m.session k m.token in
    let key = operation_key sid i.idempotency_key in
    let sessions' = store sid session' s.sessions in
    let keys' = store key k s.operation_by_key in
    let new_session : IsSession (store k o' s.operations) s.turns sid session' =
      activated-IsSession s.operations s.turns sid k m.session m.token o' refl refl refl
        (wf.sessions_ok sid m.session m.session_found) in
    let new : IsOperation sessions' keys' k o' = record {
      named = refl;
      session_is_id = m.session_is_id;
      session = session';
      session_found = lookup-store_same sid session' s.sessions;
      no_newer = omega arith;
      by_key = lookup-store_same key k s.operation_by_key;
      answered = refl;
    } in
    rw m.after (record {
      sessions_ok =
          Every-store (IsSession (store k o' s.operations) s.turns) sid session' s.sessions
            new_session
            (λ j a ne e.
              IsSession-other s.operations s.turns j k o' a
                (λ p f q. let bad = sym m.id_new ∙ f in cc) (wf.sessions_ok j a e));
      operations_ok = Every-store (IsOperation sessions' keys') k o' s.operations new (λ j a ne e.
          IsOperation-store_key sessions' s.operation_by_key key k j a m.key_new (
            IsOperation-store_session s.sessions s.operation_by_key sid m.session session' j a
              m.session_found (next_fencing_token-le m.session m.token m.next)
              (wf.operations_ok j a e)));
      keys_ok =
          Every-store (IsKey (store k o' s.operations)) key k s.operation_by_key
            (o', lookup-store_same k o' s.operations, refl)
            (λ key' j ne e. IsKey-fresh s.operations k o' key' j m.id_new (wf.keys_ok key' j e));
    })
