-- ===== src/Core/Effects/Batch.antt =====
-- Whole batches: what a success keeps, how batches compose, and whom a failure blames.
use sandboxengine.Prelude.{
  ℕ, suc, ◌≡◌, refl, sym, ap, true, some, List, [], ◌∷◌, ◌++◌, all, arith, Option-cases, Bool-cases,
  inl, inr,
}
use sandboxengine.Prelude.Results.{ok, Result-cases, ok-injective}
use sandboxengine.Contracts.World.{
  WorldState, WorldLocation, has_valid_world_state_references, resource_ids, item_ids, entity_ids,
  distinct,
}
use sandboxengine.Contracts.Value.{Value}
use sandboxengine.Contracts.Effect.{GameplayEffect, as_gameplay_effect}
use sandboxengine.Core.Resource.{is_safe_resource}
use sandboxengine.Core.Effects.{
  Trial, EffectBatchSuccess, apply_effect, or_blame, apply_raw, apply_from, trial_of, with_trial,
  finish, is_valid_state, try_apply_effect_batch,
}
use sandboxengine.Core.Effects.Step.{
  IsTrial, IsBounded, apply_effect-IsTrial, apply_effect-IsBounded,
}

-- A value that was applied is an effect by the guard, and was accepted.
pub apply_raw-ok :
    (ls : List WorldLocation) (t : Trial) (i : ℕ) (raw : Value) (t' : Trial) (e : GameplayEffect)
    → apply_raw ls t i raw ≡ ok (t', e)
    → (as_gameplay_effect raw ≡ some e) × (apply_effect ls t e ≡ ok t')
unfolding apply_raw
apply_raw-ok ls t i raw t' e h = elim (Option-cases (as_gameplay_effect raw)) [
  | inl n ↦ let bad = rw (n, apply_raw) at h in cc
  | inr (e', read) ↦
      let step : or_blame raw i e' (apply_effect ls t e') ≡ ok (t', e) =
        rw (read, apply_raw) at h in
      ground arith
]

module _ (P : Trial → Type 0) (ls : List WorldLocation)
    (keep : (t : Trial) (e : GameplayEffect) (t' : Trial)
      → apply_effect ls t e ≡ ok t'
      → P t
      → P t') where
  -- Every effect that keeps a property of trials makes the loop keep it.
  pub apply_from-keeps :
      (effects : List Value) (t : Trial) (i : ℕ) (applied : List GameplayEffect) (t' : Trial)
      (applied' : List GameplayEffect)
      → apply_from ls t i applied effects ≡ ok (t', applied')
      → P t
      → P t'
  unfolding apply_from
  apply_from-keeps [] t i applied t' applied' h p = rw (← ap (λ x. x.0) (ok-injective h)) p
  apply_from-keeps (raw ∷ rest) t i applied t' applied' h p =
      elim (Result-cases (apply_raw ls t i raw)) [
        | inl ((u, e), step) ↦
            apply_from-keeps rest u (suc i) (applied ++ e ∷ []) t' applied'
              (rw (step, apply_from) at h) (keep t e u (apply_raw-ok ls t i raw u e step).1 p)
        | inr (f, step) ↦ let bad = rw (step, apply_from) at h in cc
      ]

-- A successful batch, taken apart.
pub try_apply-ok :
    (s : WorldState) (effects : List Value) (r : EffectBatchSuccess)
    → try_apply_effect_batch s effects ≡ ok r
    → (is_valid_state s ≡ true)
      × (t : Trial) × (applied : List GameplayEffect) × (apply_from s.locations
            (trial_of s)
            0
            []
            effects
          ≡ ok (t, applied))
      × (r ≡ record { state = with_trial s t; applied_effects = applied })
unfolding try_apply_effect_batch
try_apply-ok s effects r h = elim (Bool-cases (is_valid_state s)) [
  | inr n ↦ ground arith
  | inl v ↦
      let done : finish s (apply_from s.locations (trial_of s) 0 [] effects) ≡ ok r =
        rw (v, try_apply_effect_batch) at h in
      elim (Result-cases (apply_from s.locations (trial_of s) 0 [] effects)) [
        | inl ((t, applied), e) ↦ (v, t, applied, e, sym (ok-injective (rw e at done)))
        | inr (f, e) ↦ let bad = rw e at done in cc
      ]
]

trial_of-IsTrial :
    (s : WorldState) → is_valid_state s ≡ true → IsTrial s.locations (trial_of s) (trial_of s)
unfolding is_valid_state has_valid_world_state_references
trial_of-IsTrial s h = record {
  resource_ids_kept = refl;
  item_ids_kept = refl;
  entity_ids_kept = refl;
  locations_known = ground arith;
  positions_known = ground arith;
}

with_trial-is_valid :
    (s : WorldState) (t : Trial)
    → is_valid_state s ≡ true
    → IsTrial s.locations (trial_of s) t
    → is_valid_state (with_trial s t) ≡ true
unfolding is_valid_state has_valid_world_state_references
with_trial-is_valid s t h k = ground (
  arith,
  ap distinct k.resource_ids_kept,
  ap distinct k.item_ids_kept,
  ap distinct k.entity_ids_kept,
  k.locations_known,
  k.positions_known,
)

module _ (s : WorldState) (effects : List Value) (r : EffectBatchSuccess)
    (done : try_apply_effect_batch s effects ≡ ok r) where
  pub try_apply-IsTrial :
      (t : Trial) × (r.state ≡ with_trial s t) × IsTrial s.locations (trial_of s) t
  try_apply-IsTrial =
      let (v, t, applied, e, same) = try_apply-ok s effects r done in
      (
        t,
        ap (λ r. r.state) same,
        apply_from-keeps (IsTrial s.locations (trial_of s)) s.locations
            (λ t e t' a h. apply_effect-IsTrial s.locations (trial_of s) t h e t' a) effects
            (trial_of s) 0 [] t applied e (trial_of-IsTrial s v),
      )

  -- The state that a successful batch returns has the known version and valid references.
  pub try_apply-is_valid_state : is_valid_state r.state ≡ true
  try_apply-is_valid_state =
      let (t, same, inv) = try_apply-IsTrial in
      rw same (with_trial-is_valid s t (try_apply-ok s effects r done).0 inv)

  -- Resources that are within their bounds before a successful batch are so after it.
  pub try_apply-bounded :
      all is_safe_resource s.resources ≡ true → all is_safe_resource r.state.resources ≡ true
  try_apply-bounded b =
      let (v, t, applied, e, same) = try_apply-ok s effects r done in
      rw same (
        apply_from-keeps IsBounded s.locations
          (λ t e t' a h. apply_effect-IsBounded s.locations t e t' a h) effects (trial_of s) 0 [] t
          applied e b)

  -- A successful batch leaves alone the version, the revision, the clock, the locations, the
  -- terminal, and the ids of resources, items and entities with their order.
  pub try_apply-frame :
      (r.state.schema_version ≡ s.schema_version)
      × (r.state.revision ≡ s.revision)
      × (r.state.clock ≡ s.clock)
      × (r.state.locations ≡ s.locations)
      × (r.state.terminal ≡ s.terminal)
      × (resource_ids r.state.resources ≡ resource_ids s.resources)
      × (item_ids r.state.items ≡ item_ids s.items)
      × (entity_ids r.state.entities ≡ entity_ids s.entities)
  try_apply-frame =
      let (t, same, inv) = try_apply-IsTrial in
      rw same (
        refl, refl, refl, refl, refl, inv.resource_ids_kept, inv.item_ids_kept, inv.entity_ids_kept,
      )
