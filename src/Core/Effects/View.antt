-- ===== src/Core/Effects/View.antt =====
-- The abstract view of a world that effects act on: levels, positions and places by id, with the
-- arrays forgotten. A successful batch is its effects in order on the view.
use mathlib.Core.Path.{fun_ext}
use mathlib.Core.Option
use sandboxengine.Prelude.{
  ℕ, suc, ◌≡◌, refl, sym, ap, ◌∙◌, true, false, Option, some, List, [], ◌∷◌, ◌++◌, map, find?,
  update_first, Bool-cases, if◌then◌else◌, inl, inr, find?-update_first, find?-update_first_ne,
}
use mathlib.Core.List.{append_assoc, append-nil}
use sandboxengine.Prelude.Int.{ℤ, ◌+ℤ◌}
use sandboxengine.Prelude.Text.{Text, text_eq, text_eq_iff}
use sandboxengine.Prelude.Results.{ok, Result-cases, ok-injective}
use sandboxengine.Contracts.World.{
  WorldState, WorldLocation, WorldResource, WorldItem, WorldEntity, WorldItemPosition,
}
use sandboxengine.Contracts.Value.{Value}
use sandboxengine.Contracts.Effect.{
  GameplayEffect, resource_change, item_transfer, entity_move, as_gameplay_effect,
}
use sandboxengine.Core.Effects.{
  Trial, EffectBatchSuccess, apply_effect, apply_raw, apply_from, trial_of, is_resource, is_item,
  is_entity, with_value, with_position, with_location, try_apply_effect_batch,
}
use sandboxengine.Core.Effects.Step.{apply_effect-Applied}
use sandboxengine.Core.Effects.Batch.{apply_raw-ok, try_apply-ok}

pub record WorldView : Type 0 where
  pub levels : Text → Option ℤ
  pub positions : Text → Option WorldItemPosition
  pub places : Text → Option (Option Text)

abbrev pub level_in : List WorldResource → Text → Option ℤ
level_in rs j = Option.map (λ r. r.value) (find? (is_resource j) rs)

abbrev pub position_in : List WorldItem → Text → Option WorldItemPosition
position_in is j = Option.map (λ i. i.position) (find? (is_item j) is)

abbrev pub place_in : List WorldEntity → Text → Option (Option Text)
place_in es j = Option.map (λ e. e.location_id) (find? (is_entity j) es)

abbrev pub view_of : Trial → WorldView
view_of t = record {
  levels = level_in t.resources;
  positions = position_in t.items;
  places = place_in t.entities;
}

-- An effect on a view: one id gets another level, position or place.
abbrev pub act : WorldView → GameplayEffect → WorldView
act v (resource_change s k d) = record v {
  levels = λ j. if text_eq k j then Option.map (λ x. x +ℤ d) (v.levels j) else v.levels j;
}
act v (item_transfer s k p) = record v {
  positions = λ j. if text_eq k j then some p else v.positions j;
}
act v (entity_move s k l) = record v {
  places = λ j. if text_eq k j then some (some l) else v.places j;
}

abbrev pub act_all : WorldView → List GameplayEffect → WorldView
act_all v [] = v
act_all v (e ∷ es) = act_all (act v e) es

-- Two ids that differ are not both the id of one thing.
apart : (k j i : Text) → text_eq k j ≡ false → text_eq i k ≡ true → text_eq i j ≡ false
apart k j i h e = rw ((text_eq_iff i k).0 e) h

level_in-update :
    (rs : List WorldResource) (k j : Text) (d : ℤ) (r : WorldResource)
    → find? (is_resource k) rs ≡ some r
    → level_in (update_first (is_resource k) (with_value (r.value +ℤ d)) rs) j
      ≡ (if text_eq k j then Option.map (λ x. x +ℤ d) (level_in rs j) else level_in rs j)
level_in-update rs k j d r h = elim (Bool-cases (text_eq k j)) [
  | inl e ↦
      let same : k ≡ j = (text_eq_iff k j).0 e in
      let found : find? (is_resource j) rs ≡ some r = rw same at h in
      rw e (
        rw same (
          rw (find?-update_first (is_resource j) (with_value (r.value +ℤ d)) (λ x. refl) rs)
            (rw found)))
  | inr n ↦ rw n (
      rw (
        find?-update_first_ne (is_resource k) (is_resource j) (with_value (r.value +ℤ d))
          (λ x. apart k j x.id n) (λ x. refl) rs))
]

position_in-update :
    (is : List WorldItem) (k j : Text) (p : WorldItemPosition) (i : WorldItem)
    → find? (is_item k) is ≡ some i
    → position_in (update_first (is_item k) (with_position p) is) j
      ≡ (if text_eq k j then some p else position_in is j)
position_in-update is k j p i h = elim (Bool-cases (text_eq k j)) [
  | inl e ↦
      let same : k ≡ j = (text_eq_iff k j).0 e in
      let found : find? (is_item j) is ≡ some i = rw same at h in
      rw e
        (rw same (rw (find?-update_first (is_item j) (with_position p) (λ x. refl) is) (rw found)))
  | inr n ↦ rw n (
      rw (
        find?-update_first_ne (is_item k) (is_item j) (with_position p) (λ x. apart k j x.id n)
          (λ x. refl) is))
]

place_in-update :
    (es : List WorldEntity) (k j l : Text) (e : WorldEntity)
    → find? (is_entity k) es ≡ some e
    → place_in (update_first (is_entity k) (with_location l) es) j
      ≡ (if text_eq k j then some (some l) else place_in es j)
place_in-update es k j l e h = elim (Bool-cases (text_eq k j)) [
  | inl p ↦
      let same : k ≡ j = (text_eq_iff k j).0 p in
      let found : find? (is_entity j) es ≡ some e = rw same at h in
      rw p (
        rw same (rw (find?-update_first (is_entity j) (with_location l) (λ x. refl) es) (rw found)))
  | inr n ↦ rw n (
      rw (
        find?-update_first_ne (is_entity k) (is_entity j) (with_location l) (λ x. apart k j x.id n)
          (λ x. refl) es))
]

-- An accepted effect acts on the view of the trial.
pub view_of-apply_effect :
    (ls : List WorldLocation) (t : Trial) (e : GameplayEffect) (t' : Trial)
    → apply_effect ls t e ≡ ok t'
    → view_of t' ≡ act (view_of t) e
view_of-apply_effect ls t (resource_change s k d) t' a =
    let (r, found, _, _, _, same) = apply_effect-Applied ls t (resource_change s k d) t' a in
    rw same (
      ap (λ f. record (view_of t) { levels = f })
        (fun_ext (λ j. level_in-update t.resources k j d r found)))
view_of-apply_effect ls t (item_transfer s k p) t' a =
    let (i, found, _, same) = apply_effect-Applied ls t (item_transfer s k p) t' a in
    rw same (
      ap (λ f. record (view_of t) { positions = f })
        (fun_ext (λ j. position_in-update t.items k j p i found)))
view_of-apply_effect ls t (entity_move s k l) t' a =
    let (e, found, _, same) = apply_effect-Applied ls t (entity_move s k l) t' a in
    rw same (
      ap (λ f. record (view_of t) { places = f })
        (fun_ext (λ j. place_in-update t.entities k j l e found)))

-- The loop adds the effects that the guard reads, and acts with them in order.
apply_from-view :
    (ls : List WorldLocation) (effects : List Value) (t : Trial) (i : ℕ)
    (applied : List GameplayEffect) (u : Trial) (applied' : List GameplayEffect)
    → apply_from ls t i applied effects ≡ ok (u, applied')
    → (new : List GameplayEffect) × (applied' ≡ applied ++ new)
      × (map as_gameplay_effect effects ≡ map some new)
      × (view_of u ≡ act_all (view_of t) new)
unfolding apply_from
apply_from-view ls [] t i applied u applied' h =
    let same = ok-injective h in
    (
      [],
      sym (ap (λ p. p.1) same) ∙ sym (append-nil applied),
      refl,
      sym (ap view_of (ap (λ p. p.0) same)),
    )
apply_from-view ls (raw ∷ rest) t i applied u applied' h =
    elim (Result-cases (apply_raw ls t i raw)) [
      | inr (f, step) ↦ let bad = rw (step, apply_from) at h in cc
      | inl ((v, e), step) ↦
          let (read, done) = apply_raw-ok ls t i raw v e step in
          let (new, grown, reads, acts) =
            apply_from-view ls rest v (suc i) (applied ++ e ∷ []) u applied'
              (rw (step, apply_from) at h) in
          (
            e ∷ new,
            grown ∙ append_assoc applied (e ∷ []) new,
            cc (read, reads),
            acts ∙ ap (λ w. act_all w new) (view_of-apply_effect ls t e v done),
          )
    ]

-- A successful batch has applied exactly the effects that the guard reads from its values, in order,
-- and the view of its state is the initial view after those effects.
pub try_apply-refines :
    (s : WorldState) (effects : List Value) (r : EffectBatchSuccess)
    → try_apply_effect_batch s effects ≡ ok r
    → (map as_gameplay_effect effects ≡ map some r.applied_effects)
      × (view_of (trial_of r.state) ≡ act_all (view_of (trial_of s)) r.applied_effects)
try_apply-refines s effects r h =
    let (v, t, applied, e, same) = try_apply-ok s effects r h in
    let (new, grown, reads, acts) =
      apply_from-view s.locations effects (trial_of s) 0 [] t applied e in
    let all_new : applied ≡ new = grown in rw same (rw all_new (reads, acts))
