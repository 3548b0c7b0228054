-- ===== src/Core/Actions/Paint.antt =====
-- What a resolved paint action promises.
use mathlib.Core.Option.{some-injective}
use sandboxengine.Prelude.{
  ℕ, ◌+◌, ◌*◌, ◌≤◌, ◌<◌, min, ◌≡◌, refl, sym, ap, ◌∙◌, true, false, not, ◌&&◌, ◌||◌, Option, none,
  some, [], ◌∷◌, leb, ltb, map, find?, inl, inr, ◌⊎◌, Bool-cases, Option-cases, arith,
}
use sandboxengine.Prelude.Int.{ℤ, pos, pos_part, neg_ℤ, ◌-ℤ◌, leb_ℤ, is_safe_integer}
use sandboxengine.Prelude.Text.{text_eq, lit}
use sandboxengine.Prelude.Results.{ok, ok-injective, Result-cases}
use sandboxengine.Contracts.World.{WorldState, WorldResource}
use sandboxengine.Contracts.Value.{schema_version, as_integer, get}
use sandboxengine.Contracts.Effect.{resource_change, effect_value}
use sandboxengine.Core.Effects.{EffectBatchSuccess, is_resource, try_apply_effect_batch}
use sandboxengine.Core.Actions.{
  PaintActionDefinition, PaintCalculatedAction, executed, partial, blocked, ResolvedIntent,
  ResolvePaintSuccess, resolve_paint_action, paint_resource, positive_safe, paint_units, answer,
  blocked_action, done_action, possible_units, read_requested_units, is_valid_definition,
  is_calculated_action, spend_effect,
}
use sandboxengine.Core.Actions.Units.{units_done, units_blocked}

-- Units that were done, of those requested.
pub record IsDone (s : WorldState) (d : PaintActionDefinition) (requested : ℕ) (r : WorldResource)
    (n : ℕ) (out : ResolvePaintSuccess) : Type 0 where
  pub some_units : 1 ≤ n
  pub no_more : n ≤ requested
  pub affordable : n * pos_part d.resource_units_per_unit ≤ pos_part (r.value -ℤ r.min)
  pub as_many :
      (n ≡ requested) × (out.action.status ≡ executed) × (out.action.reason_code ≡ none)
      ⊎ (d.allow_partial ≡ true)
        × (n < requested)
        × (out.action.status ≡ partial)
        × (out.action.reason_code ≡ some (lit "RESOURCE_LIMIT"))
        × (pos_part (r.value -ℤ r.min)
            < n * pos_part d.resource_units_per_unit + pos_part d.resource_units_per_unit)
  pub asked : out.action.requested_units ≡ requested
  pub completed : out.action.completed_units ≡ n
  pub duration : out.action.duration_seconds ≡ n * pos_part d.duration_seconds_per_unit
  pub spent :
      out.action.effects
      ≡ resource_change d.id d.resource_id (neg_ℤ (pos (n * pos_part d.resource_units_per_unit)))
        ∷ []
  pub batch : EffectBatchSuccess
  pub applied : try_apply_effect_batch s (map effect_value out.action.effects) ≡ ok batch
  pub state : out.state ≡ batch.state

-- Nothing was done: the resource does not do for one unit, or not for all and all are wanted.
pub record IsBlocked (s : WorldState) (d : PaintActionDefinition) (requested : ℕ)
    (r : WorldResource) (out : ResolvePaintSuccess) : Type 0 where
  pub too_little :
      (pos_part (r.value -ℤ r.min) < pos_part d.resource_units_per_unit)
      ⊎ (d.allow_partial ≡ false)
        × (pos_part (r.value -ℤ r.min) < requested * pos_part d.resource_units_per_unit)
  pub status : out.action.status ≡ blocked
  pub reason : out.action.reason_code ≡ some (lit "RESOURCE_LIMIT")
  pub asked : out.action.requested_units ≡ requested
  pub completed : out.action.completed_units ≡ 0
  pub duration : out.action.duration_seconds ≡ 0
  pub effects : out.action.effects ≡ []
  pub same_state : out.state ≡ s

answer-ok :
    (a : PaintCalculatedAction) (s : WorldState) (out : ResolvePaintSuccess)
    → answer a s ≡ ok out
    → (out.action ≡ a) × (out.state ≡ s)
unfolding answer
answer-ok a s out h = elim (Bool-cases (is_calculated_action a)) [
  | inl e ↦
      let same = sym (ok-injective (rw (e, answer) at h)) in
      (ap (λ o. o.action) same, ap (λ o. o.state) same)
  | inr e ↦ let bad = rw (e, answer) at h in cc
]

paint_units-ok :
    (s : WorldState) (d : PaintActionDefinition) (requested n : ℕ) (out : ResolvePaintSuccess)
    → paint_units s d requested n ≡ ok out
    → (out.action ≡ done_action d requested n)
      × (b : EffectBatchSuccess) × (try_apply_effect_batch s
            (effect_value (spend_effect d (n * pos_part d.resource_units_per_unit)) ∷ [])
          ≡ ok b)
      × (out.state ≡ b.state)
unfolding paint_units
paint_units-ok s d requested n out h =
    let spent = n * pos_part d.resource_units_per_unit in
    let duration = n * pos_part d.duration_seconds_per_unit in
    elim (Bool-cases (not (is_safe_integer (pos spent)) || not (is_safe_integer (pos duration)))) [
      | inl e ↦ let bad = rw (e, paint_units) at h in cc
      | inr e ↦
          elim (Result-cases
            (try_apply_effect_batch s (effect_value (spend_effect d spent) ∷ []))) [
              | inr (f, x) ↦ let bad = rw (e, x, paint_units) at h in cc
              | inl (b, x) ↦
                  let (act, state) =
                    answer-ok (done_action d requested n) b.state out
                      (rw (e, x, paint_units) at h) in
                  (act, b, x, state)
            ]
    ]

-- The status and the reason of the action, from the number of units.
as_many-action :
    (d : PaintActionDefinition) (requested n per avail : ℕ) (out : ResolvePaintSuccess)
    → out.action ≡ done_action d requested n
    → (n ≡ requested) ⊎ (d.allow_partial ≡ true) × (n < requested) × (avail < n * per + per)
    → (n ≡ requested) × (out.action.status ≡ executed) × (out.action.reason_code ≡ none)
      ⊎ (d.allow_partial ≡ true)
        × (n < requested)
        × (out.action.status ≡ partial)
        × (out.action.reason_code ≡ some (lit "RESOURCE_LIMIT"))
        × (avail < n * per + per)
as_many-action d requested n per avail out act (inl same) =
    let all : ltb n requested ≡ false = ground arith in
    inl (same, ap (λ a. a.status) act ∙ rw all refl, ap (λ a. a.reason_code) act ∙ rw all refl)
as_many-action d requested n per avail out act (inr (allowed, less, close)) =
    let some_of_it : ltb n requested ≡ true = ground arith in
    inr (
      allowed,
      less,
      ap (λ a. a.status) act ∙ rw some_of_it refl,
      ap (λ a. a.reason_code) act ∙ rw some_of_it refl,
      close,
    )

-- An answer for a requested number of units.
abbrev pub IsPainted :
    WorldState → PaintActionDefinition → ℕ → WorldResource → ResolvePaintSuccess → Type 0
IsPainted s d requested r out =
    IsBlocked s d requested r out ⊎ ((n : ℕ) × IsDone s d requested r n out)

paint_resource-IsPainted :
    (s : WorldState) (d : PaintActionDefinition) (requested : ℕ) (r : WorldResource)
    (out : ResolvePaintSuccess)
    → 0 < pos_part d.resource_units_per_unit
    → 1 ≤ requested
    → paint_resource s d requested (some r) ≡ ok out
    → IsPainted s d requested r out
unfolding paint_resource
paint_resource-IsPainted s d requested r out p q h =
    let possible = possible_units d r in
    let per = pos_part d.resource_units_per_unit in
    let avail = pos_part (r.value -ℤ r.min) in
    let units = min requested possible in
    elim (Bool-cases (leb possible 0 || not d.allow_partial && ltb possible requested)) [
      | inl e ↦
          let answered : answer (blocked_action requested) s ≡ ok out = ground arith in
          let (act, state) = answer-ok (blocked_action requested) s out answered in
          inl (record {
            too_little = units_blocked avail per requested possible d.allow_partial p refl e;
            status = ap (λ a. a.status) act;
            reason = ap (λ a. a.reason_code) act;
            asked = ap (λ a. a.requested_units) act;
            completed = ap (λ a. a.completed_units) act;
            duration = ap (λ a. a.duration_seconds) act;
            effects = ap (λ a. a.effects) act;
            same_state = state;
          })
      | inr e ↦
          let painted : paint_units s d requested (min requested possible) ≡ ok out =
            ground arith in
          let (act, b, applied, state) =
            paint_units-ok s d requested (min requested possible) out painted in
          let (one, most, fits, many) =
            units_done avail per requested possible d.allow_partial p q refl e in
          inr (
            units,
            record {
              some_units = one;
              no_more = most;
              affordable = fits;
              as_many = as_many-action d requested units per avail out act many;
              asked = ap (λ a. a.requested_units) act;
              completed = ap (λ a. a.completed_units) act;
              duration = ap (λ a. a.duration_seconds) act;
              spent = ap (λ a. a.effects) act;
              batch = b;
              applied = rw act applied;
              state = state;
            },
          )
    ]

positive_safe-positive : (z : Option ℤ) (n : ℕ) → positive_safe z ≡ some n → 1 ≤ n
positive_safe-positive none n h = cc
positive_safe-positive (some z) n h = elim (Bool-cases (is_safe_integer z && leb_ℤ (pos 1) z)) [
  | inl e ↦ let same = some-injective _ _ (rw e at h) in ground (arith, same)
  | inr e ↦ let bad = rw e at h in cc
]

read_requested_units-positive :
    (i : ResolvedIntent) (n : ℕ) → read_requested_units i ≡ some n → 1 ≤ n
unfolding read_requested_units
read_requested_units-positive i n h =
    let read : positive_safe (as_integer (get (lit "units") i.args)) ≡ some n = ground arith in
    positive_safe-positive (as_integer (get (lit "units") i.args)) n read

valid-per_unit :
    (d : PaintActionDefinition)
    → is_valid_definition d ≡ true
    → 0 < pos_part d.resource_units_per_unit
unfolding is_valid_definition
valid-per_unit d h = ground arith

-- A resolved paint action found its requested units, at least one, and its resource. Either nothing
-- was done: the action is blocked for the resource's limit, with no unit completed, no duration and no
-- effect; the state is unchanged, and the resource above its minimum does not do for one unit, or
-- partial work is not allowed and it does not do for all. Or between one and all of the units were
-- done, all that the resource above its minimum does for: the action is executed without a reason if
-- these are all, and is partial for the resource's limit, which must be allowed, if they are fewer. It
-- reports the requested and the done units, their duration, and one effect that takes what they cost
-- from the resource; and the state is the one that this effect leads to as one batch.
pub resolve_paint_action-IsPainted :
    (s : WorldState) (d : PaintActionDefinition) (i : ResolvedIntent) (out : ResolvePaintSuccess)
    → resolve_paint_action s d i ≡ ok out
    → (requested : ℕ) × (r : WorldResource) × (read_requested_units i ≡ some requested)
      × (1 ≤ requested)
      × (find? (is_resource d.resource_id) s.resources ≡ some r)
      × IsPainted s d requested r out
unfolding resolve_paint_action paint_resource
resolve_paint_action-IsPainted s d i out h = elim (Bool-cases (is_valid_definition d)) [
  | inr v ↦ let bad = rw (v, resolve_paint_action) at h in cc
  | inl v ↦ elim (Option-cases (read_requested_units i)) [
    | inl e ↦ let bad = rw (v, e, resolve_paint_action) at h in cc
    | inr (n, e) ↦ elim (Bool-cases (text_eq s.schema_version schema_version)) [
      | inr w ↦ let bad = rw (v, e, w, resolve_paint_action) at h in cc
      | inl w ↦ elim (Option-cases (find? (is_resource d.resource_id) s.resources)) [
        | inl f ↦ let bad = rw (v, e, w, f, resolve_paint_action, paint_resource) at h in cc
        | inr (r, f) ↦
            let run : paint_resource s d n (some r) ≡ ok out =
              rw (v, e, w, f, resolve_paint_action) at h in
            let one = read_requested_units-positive i n e in
            (n, r, e, one, f, paint_resource-IsPainted s d n r out (valid-per_unit d v) one run)
      ]
    ]
  ]
]
