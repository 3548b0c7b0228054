-- ===== src/Core/Effects/Compose.antt =====
-- A batch is its effects one after another: how batches compose, and whom a failure blames.
use sandboxengine.Prelude.{
  ℕ, suc, ◌+◌, ◌≡◌, refl, sym, ap, ◌∙◌, true, List, [], ◌∷◌, ◌++◌, length, arith, Option-cases, inl,
  inr,
}
use mathlib.Core.List.{append-nil, append_assoc}
use sandboxengine.Prelude.Int.{pos, ◌+ℤ◌, pos_add}
use sandboxengine.Prelude.Results.{Result, ok, err, Result-cases, ok-injective, err-injective}
use sandboxengine.Contracts.World.{WorldState, WorldLocation}
use sandboxengine.Contracts.Value.{Value}
use sandboxengine.Contracts.Effect.{GameplayEffect, as_gameplay_effect}
use sandboxengine.Core.Effects.{
  Trial, EffectBatchFailure, EffectBatchSuccess, EffectBatchResult, apply_effect, apply_raw,
  apply_from, trial_of, with_trial, finish, is_valid_state, try_apply_effect_batch, failure,
}
use sandboxengine.Core.Effects.Batch.{try_apply-ok, try_apply-is_valid_state}

-- A failure of a later part of a batch, seen from the whole batch.
abbrev pub later_by : ℕ → EffectBatchFailure → EffectBatchFailure
later_by n f = record f { effect_index = f.effect_index +ℤ pos n }

abbrev pub after : List GameplayEffect → ℕ → EffectBatchResult → EffectBatchResult
after applied n (ok q) = ok (record q { applied_effects = applied ++ q.applied_effects })
after applied n (err f) = err (later_by n f)

abbrev shift_raw :
    ℕ
    → Result EffectBatchFailure (Trial × GameplayEffect)
    → Result EffectBatchFailure (Trial × GameplayEffect)
shift_raw n (ok p) = ok p
shift_raw n (err f) = err (later_by n f)

abbrev shift_loop :
    ℕ
    → List GameplayEffect
    → Result EffectBatchFailure (Trial × List GameplayEffect)
    → Result EffectBatchFailure (Trial × List GameplayEffect)
shift_loop n before (ok (t, applied)) = ok (t, before ++ applied)
shift_loop n before (err f) = err (later_by n f)

apply_raw-shift :
    (ls : List WorldLocation) (t : Trial) (i n : ℕ) (raw : Value)
    → apply_raw ls t (i + n) raw ≡ shift_raw n (apply_raw ls t i raw)
unfolding apply_raw failure
apply_raw-shift ls t i n raw = elim (Option-cases (as_gameplay_effect raw)) [
  | inl e ↦ rw (e, apply_raw) (rw (pos_add i n))
  | inr (v, e) ↦ elim (Result-cases (apply_effect ls t v)) [
    | inl (u, step) ↦ rw (e, apply_raw) (rw step)
    | inr (c, step) ↦ rw (e, apply_raw) (rw step (rw (pos_add i n)))
  ]
]

-- The loop's turn, accepted or refused.
module _ (ls : List WorldLocation) (t : Trial) (i : ℕ) (applied : List GameplayEffect) (raw : Value)
    (rest : List Value) where
  pub apply_from-step :
      (u : Trial) (e : GameplayEffect)
      → apply_raw ls t i raw ≡ ok (u, e)
      → apply_from ls t i applied (raw ∷ rest) ≡ apply_from ls u (suc i) (applied ++ e ∷ []) rest
  unfolding apply_from
  apply_from-step u e h = rw (h, apply_from)

  pub apply_from-stop :
      (f : EffectBatchFailure)
      → apply_raw ls t i raw ≡ err f
      → apply_from ls t i applied (raw ∷ rest) ≡ err f
  unfolding apply_from
  apply_from-stop f h = rw (h, apply_from)

apply_from-shift :
    (ls : List WorldLocation) (effects : List Value) (t : Trial) (i n : ℕ)
    (before applied : List GameplayEffect)
    → apply_from ls t (i + n) (before ++ applied) effects
      ≡ shift_loop n before (apply_from ls t i applied effects)
unfolding apply_from
apply_from-shift ls [] t i n before applied = refl
apply_from-shift ls (raw ∷ rest) t i n before applied = elim (Result-cases (apply_raw ls t i raw)) [
  | inl ((u, e), step) ↦
      let later : apply_raw ls t (i + n) raw ≡ ok (u, e) =
        rw (apply_raw-shift ls t i n raw) (rw step) in
      let next : suc (i + n) ≡ suc i + n = omega arith in
      apply_from-step ls t (i + n) (before ++ applied) raw rest u e later
      ∙ rw (next, append_assoc) (apply_from-shift ls rest u (suc i) n before (applied ++ e ∷ []))
      ∙ ap (shift_loop n before) (sym (apply_from-step ls t i applied raw rest u e step))
  | inr (f, step) ↦
      let later : apply_raw ls t (i + n) raw ≡ err (later_by n f) =
        rw (apply_raw-shift ls t i n raw) (rw step) in
      apply_from-stop ls t (i + n) (before ++ applied) raw rest (later_by n f) later
      ∙ ap (shift_loop n before) (sym (apply_from-stop ls t i applied raw rest f step))
]

apply_from-append :
    (ls : List WorldLocation) (xs ys : List Value) (t : Trial) (i : ℕ)
    (applied : List GameplayEffect) (u : Trial) (applied' : List GameplayEffect)
    → apply_from ls t i applied xs ≡ ok (u, applied')
    → apply_from ls t i applied (xs ++ ys) ≡ apply_from ls u (length xs + i) applied' ys
unfolding apply_from
apply_from-append ls [] ys t i applied u applied' h =
    let same = ok-injective h in
    let zeroed : 0 + i ≡ i = omega arith in rw zeroed (ap (λ p. apply_from ls p.0 i p.1 ys) same)
apply_from-append ls (raw ∷ rest) ys t i applied u applied' h =
    elim (Result-cases (apply_raw ls t i raw)) [
      | inl ((v, e), step) ↦
          let next : suc (length rest) + i ≡ length rest + suc i = omega arith in
          apply_from-step ls t i applied raw (rest ++ ys) v e step
          ∙ rw next (
              apply_from-append ls rest ys v (suc i) (applied ++ e ∷ []) u applied'
                (sym (apply_from-step ls t i applied raw rest v e step) ∙ h))
      | inr (f, step) ↦ let bad = sym (apply_from-stop ls t i applied raw rest f step) ∙ h in cc
    ]

try_apply-valid :
    (s : WorldState) (effects : List Value)
    → is_valid_state s ≡ true
    → try_apply_effect_batch s effects ≡ finish s (apply_from s.locations (trial_of s) 0 [] effects)
unfolding try_apply_effect_batch
try_apply-valid s effects v = rw (v, try_apply_effect_batch)

after-finish :
    (s : WorldState) (t : Trial) (n : ℕ) (applied : List GameplayEffect)
    (x : Result EffectBatchFailure (Trial × List GameplayEffect))
    → after applied n (finish (with_trial s t) x) ≡ finish s (shift_loop n applied x)
after-finish s t n applied (ok (u, later)) = refl
after-finish s t n applied (err f) = refl

-- A batch that begins with a batch that succeeds is that batch, and then the rest on its result:
-- the effects add up, and an index of a failure counts from the start of the whole.
pub try_apply-append :
    (s : WorldState) (xs ys : List Value) (r : EffectBatchSuccess)
    → try_apply_effect_batch s xs ≡ ok r
    → try_apply_effect_batch s (xs ++ ys)
      ≡ after r.applied_effects (length xs) (try_apply_effect_batch r.state ys)
try_apply-append s xs ys r h =
    let (v, t, applied, e, same) = try_apply-ok s xs r h in
    let later : is_valid_state (with_trial s t) ≡ true =
      rw (sym (ap (λ r. r.state) same)) (try_apply-is_valid_state s xs r h) in
    let counted : length xs + 0 ≡ 0 + length xs = omega arith in
    try_apply-valid s (xs ++ ys) v
    ∙ ap (finish s) (
        apply_from-append s.locations xs ys (trial_of s) 0 [] t applied e
        ∙ rw counted (
            ap (λ a. apply_from s.locations t (0 + length xs) a ys) (sym (append-nil applied))
            ∙ apply_from-shift s.locations ys t 0 (length xs) applied []))
    ∙ sym (after-finish s t (length xs) applied (apply_from s.locations t 0 [] ys))
    ∙ rw same (ap (after applied (length xs)) (sym (try_apply-valid (with_trial s t) ys later)))

-- Where a loop stops: the values before it were accepted.
Stops :
    List WorldLocation → Trial → ℕ → List GameplayEffect → List Value → EffectBatchFailure → Type 0
Stops ls t i applied effects f =
    (pre : List Value) × (raw : Value) × (post : List Value) × (u : Trial) × (applied' : List
      GameplayEffect)
    × (effects ≡ pre ++ raw ∷ post)
    × (apply_from ls t i applied pre ≡ ok (u, applied'))
    × (apply_raw ls u (length pre + i) raw ≡ err f)

apply_from-Stops :
    (ls : List WorldLocation) (effects : List Value) (t : Trial) (i : ℕ)
    (applied : List GameplayEffect) (f : EffectBatchFailure)
    → apply_from ls t i applied effects ≡ err f
    → Stops ls t i applied effects f
unfolding apply_from Stops
apply_from-Stops ls [] t i applied f h = cc
apply_from-Stops ls (raw ∷ rest) t i applied f h = elim (Result-cases (apply_raw ls t i raw)) [
  | inl ((v, e), step) ↦
      let (pre, bad, post, u, applied', split, run, stop) =
        apply_from-Stops ls rest v (suc i) (applied ++ e ∷ []) f
          (sym (apply_from-step ls t i applied raw rest v e step) ∙ h) in
      let next : suc (length pre) + i ≡ length pre + suc i = omega arith in
      (
        raw ∷ pre,
        bad,
        post,
        u,
        applied',
        ap (λ l. raw ∷ l) split,
        apply_from-step ls t i applied raw pre v e step ∙ run,
        rw next stop,
      )
  | inr (g, step) ↦
      let zeroed : 0 + i ≡ i = omega arith in
      (
        [],
        raw,
        rest,
        t,
        applied,
        refl,
        refl,
        rw zeroed (
            step
            ∙ ap err (err-injective (sym (apply_from-stop ls t i applied raw rest g step) ∙ h))),
      )
]

-- The failure of one value is that of the loop's turn at index 0.
try_apply-one :
    (s : WorldState) (t : Trial) (raw : Value) (g : EffectBatchFailure)
    → is_valid_state (with_trial s t) ≡ true
    → apply_raw s.locations t 0 raw ≡ err g
    → try_apply_effect_batch (with_trial s t) (raw ∷ []) ≡ err g
try_apply-one s t raw g v h =
    try_apply-valid (with_trial s t) (raw ∷ []) v
    ∙ ap (finish (with_trial s t)) (apply_from-stop s.locations t 0 [] raw [] g h)

unshift :
    (n : ℕ) (x : Result EffectBatchFailure (Trial × GameplayEffect)) (f : EffectBatchFailure)
    → shift_raw n x ≡ err f
    → (g : EffectBatchFailure) × (x ≡ err g) × (f ≡ later_by n g)
unshift n (ok p) f h = cc
unshift n (err g) f h = (g, refl, sym (err-injective h))

-- Of a batch that fails on a state with valid references: the values before the one that is blamed
-- form a batch that succeeds, the blamed value alone fails on its result with the same code, type
-- and source, and the index counts the values before it.
pub try_apply-blame :
    (s : WorldState) (effects : List Value) (f : EffectBatchFailure)
    → is_valid_state s ≡ true
    → try_apply_effect_batch s effects ≡ err f
    → (pre : List Value) × (raw : Value) × (post : List Value) × (r : EffectBatchSuccess)
      × (g : EffectBatchFailure) × (effects ≡ pre ++ raw ∷ post)
      × (try_apply_effect_batch s pre ≡ ok r)
      × (try_apply_effect_batch r.state (raw ∷ []) ≡ err g)
      × (f ≡ later_by (length pre) g)
unfolding Stops
try_apply-blame s effects f v h =
    let failed : finish s (apply_from s.locations (trial_of s) 0 [] effects) ≡ err f =
      sym (try_apply-valid s effects v) ∙ h in
    elim (Result-cases (apply_from s.locations (trial_of s) 0 [] effects)) [
      | inl ((t, a), e) ↦ let bad = rw e at failed in cc
      | inr (f', e) ↦
          let same : f' ≡ f = err-injective (rw e at failed) in
          let (pre, raw, post, u, applied, split, run, stop) =
            apply_from-Stops s.locations effects (trial_of s) 0 [] f (e ∙ ap err same) in
          let r : EffectBatchSuccess = record {
            state = with_trial s u;
            applied_effects = applied;
          } in
          let good : try_apply_effect_batch s pre ≡ ok r =
            try_apply-valid s pre v ∙ ap (finish s) run in
          let counted : length pre + 0 ≡ 0 + length pre = omega arith in
          let (g, here, shifted) =
            unshift (length pre) (apply_raw s.locations u 0 raw) f
              (sym (apply_raw-shift s.locations u 0 (length pre) raw) ∙ rw (← counted) stop) in
          (
            pre,
            raw,
            post,
            r,
            g,
            split,
            good,
            try_apply-one s u raw g (try_apply-is_valid_state s pre r good) here,
            shifted,
          )
    ]

-- The batch of no effects returns the state as it is.
pub try_apply-empty :
    (s : WorldState)
    → is_valid_state s ≡ true
    → (r : EffectBatchSuccess) × (try_apply_effect_batch s [] ≡ ok r) × (r.state ≡ s)
unfolding apply_from
try_apply-empty s v = (record { state = s; applied_effects = [] }, try_apply-valid s [] v, refl)
