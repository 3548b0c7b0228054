-- ===== src/Runtime/Reachable.antt =====
-- The storage after any calls.
use mathlib.Core.Option.{some-injective}
use sandboxengine.Prelude.{
  ℕ, ◌≡◌, refl, true, not, ◌||◌, some, List, [], ◌∷◌, inl, inr, Bool-cases, arith,
}
use sandboxengine.Prelude.Int.{ℤ, eqb_ℤ_iff, is_safe_natural}
use sandboxengine.Prelude.Text.{Text}
use sandboxengine.Prelude.Dict.{
  Dict, Every, Every-store, lookup, store, is_stored, lookup-store_ne, lookup-store_same,
}
use sandboxengine.Contracts.Value.{Value, is_id}
use sandboxengine.Runtime.Records.{Storage, SessionRecord}
use sandboxengine.Runtime.Storage.{
  seeded, seed_sessions, create_storage, empty_storage, is_valid_seed_session, is_valid_world_state,
}
use sandboxengine.Runtime.Moves.{Call, Move, stays, reacquires, opens, renews, commits, finishes}
use sandboxengine.Runtime.Steps.{step, run, step-Move}
use sandboxengine.Runtime.Invariant.{IsSession, IsOperation, IsKey, IsWellFormed}
use sandboxengine.Runtime.Keeps.{IsSession-turns}
use sandboxengine.Runtime.WellFormed.{
  Reacquires-WellFormed, Commits-WellFormed, Finishes-WellFormed,
}
use sandboxengine.Runtime.Opening.{Renews-WellFormed, Opens-WellFormed}

pub Move-WellFormed :
    {json_length : Value → ℕ} {c : Call} (now : ℤ) (s t : Storage)
    → Move json_length now c s t
    → IsWellFormed s
    → IsWellFormed t
Move-WellFormed now s t (stays n after) wf = rw after (record {
  sessions_ok = wf.sessions_ok;
  operations_ok = wf.operations_ok;
  keys_ok = wf.keys_ok;
})
Move-WellFormed now s t (reacquires m) wf = Reacquires-WellFormed now s t m wf
Move-WellFormed now s t (opens m) wf = Opens-WellFormed now s t m wf
Move-WellFormed now s t (renews m) wf = Renews-WellFormed now s t m wf
Move-WellFormed now s t (commits m) wf = Commits-WellFormed now s t m wf
Move-WellFormed now s t (finishes m) wf = Finishes-WellFormed now s t m wf

pub run-IsWellFormed :
    (factory : ℕ → Text) (json_length : Value → ℕ) (s : Storage) (cs : List (ℤ × Call))
    → IsWellFormed s
    → IsWellFormed (run factory json_length s cs)
unfolding run
run-IsWellFormed factory json_length s [] wf = wf
run-IsWellFormed factory json_length s ((now, c) ∷ cs) wf =
    run-IsWellFormed factory json_length (step factory json_length s (now, c)) cs (
      Move-WellFormed now s (step factory json_length s (now, c))
        (step-Move factory json_length s now c) wf)

seed-parts :
    (r : SessionRecord)
    → is_valid_seed_session r ≡ true
    → (is_id r.session_id ≡ true)
      × (r.state.revision ≡ r.revision)
      × (is_valid_world_state r.state ≡ true)
unfolding is_valid_seed_session
seed-parts r h = ground (arith, eqb_ℤ_iff r.state.revision r.revision)

blank-Every : {A : Type 0} (P : Text → A → Type 0) (d : Dict A) → d ≡ [] → Every P d
unfolding lookup
blank-Every P d e k a h = let bad = rw e at h in cc

seed_sessions-IsWellFormed :
    (s t : Storage) (rs : List SessionRecord)
    → s.operations ≡ []
    → s.operation_by_key ≡ []
    → Every (IsSession s.operations s.turns) s.sessions
    → seed_sessions s rs ≡ some t
    → IsWellFormed t
unfolding seed_sessions
seed_sessions-IsWellFormed s t [] no_ops no_keys ok h = rw (some-injective _ _ h) at (all_ok)
  where
    all_ok : IsWellFormed s
    all_ok = record {
      sessions_ok = ok;
      operations_ok = blank-Every (IsOperation s.sessions s.operation_by_key) s.operations no_ops;
      keys_ok = blank-Every (IsKey s.operations) s.operation_by_key no_keys;
    }
seed_sessions-IsWellFormed s t (r ∷ rs) no_ops no_keys ok h =
    elim (Bool-cases
      (not (is_valid_seed_session r) || is_stored (lookup r.session_id s.sessions))) [
        | inl e ↦ let bad = rw (e, seed_sessions) at h in cc
        | inr e ↦
            let sid = r.session_id in
            let (is_sid, rev, valid) = seed-parts r (ground arith) in
            let turns' = store sid [] s.turns in
            let new : IsSession s.operations turns' sid (seeded r) = record {
              named = refl;
              is_session_id = is_sid;
              revision_of = rev;
              valid = valid;
              working = λ k f. cc;
              start = r.revision;
              history = rw (lookup-store_same sid [] s.turns) refl;
            } in
            seed_sessions-IsWellFormed
              (record s { sessions = store sid (seeded r) s.sessions; turns = turns' }) t rs no_ops
              no_keys
              (Every-store (IsSession s.operations turns') sid (seeded r) s.sessions new
                (λ j a ne f.
                  IsSession-turns s.operations s.turns turns' j a
                    (lookup-store_ne j sid [] s.turns ne) (ok j a f)))
              (rw (e, seed_sessions) at h)
      ]

pub create_storage-IsWellFormed :
    (now : ℤ) (seeds : List SessionRecord) (s : Storage)
    → create_storage now seeds ≡ some s
    → IsWellFormed s
unfolding create_storage
create_storage-IsWellFormed now seeds s h = elim (Bool-cases (is_safe_natural now)) [
  | inr e ↦ let bad = rw (e, create_storage) at h in cc
  | inl e ↦
      seed_sessions-IsWellFormed empty_storage s seeds refl refl
        (blank-Every (IsSession [] []) [] refl) (rw (e, create_storage) at h)
]

-- A storage that is created from seed sessions is well formed after any calls at any times: each
-- session has its own valid state at its revision, which a chain of turns of one revision each leads
-- to; the operation that it works on is there, is its own, goes on and has its newest token; each
-- operation is found under its session's and its own key, has no newer token than its session, and an
-- answer just when it is done.
pub reachable-IsWellFormed :
    (factory : ℕ → Text) (json_length : Value → ℕ) (now : ℤ) (seeds : List SessionRecord)
    (s : Storage)
    → create_storage now seeds ≡ some s
    → (cs : List (ℤ × Call)) → IsWellFormed (run factory json_length s cs)
reachable-IsWellFormed factory json_length now seeds s h cs =
    run-IsWellFormed factory json_length s cs (create_storage-IsWellFormed now seeds s h)
