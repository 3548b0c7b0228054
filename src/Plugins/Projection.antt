-- ===== src/Plugins/Projection.antt =====
-- The projection of the plans that the resolver makes.
use mathlib.Core.Path.{subst}
use sandboxengine.Prelude.{
  ◌≡◌, refl, ap, Bool, true, false, not, ◌||◌, some, List, [], ◌∷◌, map, Bool-cases, if◌then◌else◌,
  ◌⊎◌, inl, inr, arith,
}
use sandboxengine.Prelude.Int.{
  ℤ, pos, neg_ℤ, ◌+ℤ◌, ◌≤ℤ◌, ◌<ℤ◌, leb_ℤ, ltb_ℤ, eqb_ℤ, is_safe_integer, int_laws,
}
use sandboxengine.Prelude.Text.{Text, text_eq, text_eq_refl}
use sandboxengine.Prelude.Results.{ok, Result-cases, ok-injective}
use sandboxengine.Contracts.Effect.{GameplayEffect}
use sandboxengine.Core.Rng.{DeterministicRngState, Draw, draw_deterministic_int}
use sandboxengine.Core.Rng.Draws.{draw-ok, draw_deterministic_int_lem}
use sandboxengine.Plugins.Narrative.{is_narrative_template, replace_placeholders}
use sandboxengine.Plugins.DiceCheck.{
  DiceCheckDefinition, DiceCheckOutcome, success, failure, DiceCheckResult, PluginActionPlan,
  dice_check_d20_sides, dice_check_action_type_id, is_integer_between,
  validate_dice_check_definition, materialize_effect, DiceCheckEffectTemplate, change_template,
  move_template, transfer_template, narrative_of, plan_of, resolve_dice_check, replacement,
  render_dice_check_narrative, project_trace, project_dice_check_result,
}
use sandboxengine.Plugins.Rendering.{replace_placeholders-Rendered}
use sandboxengine.Plugins.Promise.{
  AreMade, none_made, change_made, move_made, transfer_made, IsReplacement, IsSuccess, IsFailure,
  IsProjected,
}

small_safe : (n : ℤ) → neg_ℤ (pos 40) ≤ℤ n → n ≤ℤ pos 60 → is_safe_integer n ≡ true
small_safe n low high = ground arith

between : (n a b : ℤ) → is_safe_integer n ≡ true → a ≤ℤ n → n ≤ℤ b → is_integer_between n a b ≡ true
between n a b safe low high = ground arith

between-parts : (n a b : ℤ) → is_integer_between n a b ≡ true → (a ≤ℤ n) × (n ≤ℤ b)
between-parts n a b h = ground arith

definition-parts :
    (d : DiceCheckDefinition)
    → validate_dice_check_definition d ≡ true
    → (is_integer_between d.difficulty (pos 1) (pos 40) ≡ true)
      × (is_integer_between d.modifier (neg_ℤ (pos 20)) (pos 20) ≡ true)
      × (is_narrative_template d.success_narrative ≡ true)
      × (is_narrative_template d.failure_narrative ≡ true)
unfolding validate_dice_check_definition
definition-parts d h = ground arith

narrative_ok :
    (d : DiceCheckDefinition) (o : DiceCheckOutcome)
    → validate_dice_check_definition d ≡ true
    → is_narrative_template (narrative_of d o) ≡ true
narrative_ok d success h = let (_, _, s, _) = definition-parts d h in s
narrative_ok d failure h = let (_, _, _, f) = definition-parts d h in f

-- The result of a roll, with its rendered narrative.
abbrev pub rolled : DiceCheckDefinition → ℤ → DiceCheckResult
rolled d roll =
    let total = roll +ℤ d.modifier in
    let outcome = if leb_ℤ d.difficulty total then success else failure in
    record {
      roll = roll;
      modifier = d.modifier;
      total = total;
      difficulty = d.difficulty;
      outcome = outcome;
      narrative =
          replace_placeholders (replacement roll d.modifier total d.difficulty outcome) 0
            (narrative_of d outcome);
    }

total_safe :
    (roll modifier : ℤ)
    → pos 1 ≤ℤ roll
    → roll ≤ℤ pos 20
    → neg_ℤ (pos 20) ≤ℤ modifier
    → modifier ≤ℤ pos 20
    → is_safe_integer (roll +ℤ modifier) ≡ true
total_safe roll modifier r_low r_high m_low m_high =
    small_safe (roll +ℤ modifier) (omega (int_laws, r_low, m_low))
      (omega (int_laws, r_high, m_high))

render-rolled :
    (d : DiceCheckDefinition) (roll : ℤ)
    → validate_dice_check_definition d ≡ true
    → pos 1 ≤ℤ roll
    → roll ≤ℤ pos 20
    → render_dice_check_narrative
        (narrative_of d (rolled d roll).outcome)
        roll
        d.modifier
        (rolled d roll).total
        d.difficulty
        (rolled d roll).outcome
      ≡ some (rolled d roll).narrative
unfolding render_dice_check_narrative
render-rolled d roll valid low high =
    let (difficulty, modifier, _, _) = definition-parts d valid in
    let (m_low, m_high) = between-parts d.modifier (neg_ℤ (pos 20)) (pos 20) modifier in
    let template = narrative_ok d (rolled d roll).outcome valid in
    let roll_safe = small_safe roll (omega (arith, low)) (omega (arith, high)) in
    let roll_ok = between roll (pos 1) dice_check_d20_sides roll_safe low high in
    let total_ok = total_safe roll d.modifier low high m_low m_high in
    rw (template, roll_ok, modifier, total_ok, difficulty) refl

-- A trace that the projection refuses.
abbrev off_die : ℤ → ℤ → Bool
off_die bound v =
    not (eqb_ℤ bound dice_check_d20_sides)
    || not (is_safe_integer v)
    || ltb_ℤ v (pos 0)
    || leb_ℤ dice_check_d20_sides v

off_die-drawn : (v : ℤ) → pos 0 ≤ℤ v → v <ℤ pos 20 → off_die (pos 20) v ≡ false
off_die-drawn v low high =
    let safe = small_safe v (omega (arith, low)) (omega (arith, high)) in ground arith

project_trace-rolled :
    (json_text : List GameplayEffect → Text) (d : DiceCheckDefinition) (drawn : Draw)
    → validate_dice_check_definition d ≡ true
    → pos 0 ≤ℤ drawn.provenance.value
    → drawn.provenance.value <ℤ pos 20
    → drawn.provenance.max_exclusive ≡ pos 20
    → project_trace json_text d (plan_of d dice_check_action_type_id drawn) drawn.provenance
      ≡ some (rolled d (drawn.provenance.value +ℤ pos 1))
unfolding project_trace
project_trace-rolled json_text d drawn valid low high bound =
    let v = drawn.provenance.value in
    let plan = plan_of d dice_check_action_type_id drawn in
    let die : off_die drawn.provenance.max_exclusive v ≡ false =
      rw bound (off_die-drawn v low high) in
    let reason = text_eq_refl plan.reason_code in
    let effects = text_eq_refl (json_text plan.effects) in
    let text =
      render-rolled d (v +ℤ pos 1) valid (omega (int_laws, low)) (omega (int_laws, high)) in
    rw (die, reason, effects, text) refl

AreMade-map :
    (ts : List DiceCheckEffectTemplate)
    → AreMade ts (map (materialize_effect dice_check_action_type_id) ts)
AreMade-map [] = none_made
AreMade-map (change_template r n ∷ ts) =
    change_made r n ts (map (materialize_effect dice_check_action_type_id) ts) (AreMade-map ts)
AreMade-map (move_template e l ∷ ts) =
    move_made e l ts (map (materialize_effect dice_check_action_type_id) ts) (AreMade-map ts)
AreMade-map (transfer_template i p ∷ ts) =
    transfer_made i p ts (map (materialize_effect dice_check_action_type_id) ts) (AreMade-map ts)

-- The texts of the placeholders of a roll.
abbrev texts_of : DiceCheckDefinition → ℤ → Text → Text
texts_of d roll =
    let result = rolled d roll in
    replacement roll d.modifier result.total d.difficulty result.outcome

texts_of-IsReplacement :
    (d : DiceCheckDefinition) (roll : ℤ) → IsReplacement (texts_of d roll) (rolled d roll)
unfolding text_eq
texts_of-IsReplacement d roll = record {
  roll = refl;
  modifier = refl;
  total = refl;
  difficulty = refl;
}

rolled-either :
    (d : DiceCheckDefinition) (drawn : Draw)
    → let plan = plan_of d dice_check_action_type_id drawn in
      let roll = drawn.provenance.value +ℤ pos 1 in
      IsSuccess d plan (texts_of d roll) (rolled d roll)
      ⊎ IsFailure d plan (texts_of d roll) (rolled d roll)
unfolding text_eq
rolled-either d drawn =
    let total = drawn.provenance.value +ℤ pos 1 +ℤ d.modifier in
    elim (Bool-cases (leb_ℤ d.difficulty total)) [
      | inl e ↦ inl (record {
        reached = ground arith;
        outcome = rw e refl;
        outcome_text = rw e refl;
        reason = rw e refl;
        effects = rw e (AreMade-map d.on_success_effects);
        narrative = rw e (
            replace_placeholders-Rendered
              (replacement (drawn.provenance.value +ℤ pos 1) d.modifier total d.difficulty success)
              d.success_narrative);
      })
      | inr e ↦ inr (record {
        missed = ground arith;
        outcome = rw e refl;
        outcome_text = rw e refl;
        reason = rw e refl;
        effects = rw e (AreMade-map d.on_failure_effects);
        narrative = rw e (
            replace_placeholders-Rendered
              (replacement (drawn.provenance.value +ℤ pos 1) d.modifier total d.difficulty failure)
              d.failure_narrative);
      })
    ]

-- The plan that the resolver of a valid definition makes has one draw, and is projected to a result: its
-- roll is the drawn value and one, from 1 to 20, and its total is that and the modifier. If the total
-- reaches the difficulty then outcome, reason, effects and narrative are those of a success, and
-- otherwise those of a failure: the plan's effects are made of the templates of that outcome, one by
-- one, and the narrative is its template, from the left, with each key in double braces replaced by the
-- number of the result or the outcome that it names, and all else kept. The plan takes the
-- definition's duration.
pub project-resolve :
    (json_text : List GameplayEffect → Text) (d : DiceCheckDefinition)
    (rng rng' : DeterministicRngState) (plan : PluginActionPlan)
    → validate_dice_check_definition d ≡ true
    → resolve_dice_check d dice_check_action_type_id rng ≡ ok (plan, rng')
    → IsProjected json_text d plan
unfolding resolve_dice_check project_dice_check_result text_eq
project-resolve json_text d rng rng' plan valid h =
    elim (Result-cases (draw_deterministic_int rng dice_check_d20_sides)) [
      | inr (e, f) ↦ let bad = rw (f, resolve_dice_check) at h in cc
      | inl (drawn, f) ↦
          let (low, high, _, _, _, _, _) =
            draw_deterministic_int_lem rng dice_check_d20_sides drawn f in
          let (_, _, _, same) = draw-ok rng dice_check_d20_sides drawn f in
          let bound : drawn.provenance.max_exclusive ≡ pos 20 =
            ap (λ z. z.provenance.max_exclusive) same in
          let made : (plan_of d dice_check_action_type_id drawn, drawn.state) ≡ (plan, rng') =
            ok-injective (rw (f, resolve_dice_check) at h) in
          let plan_is : plan_of d dice_check_action_type_id drawn ≡ plan =
            ap (λ (z : PluginActionPlan × DeterministicRngState). z.0) made in
          let roll = drawn.provenance.value +ℤ pos 1 in
          let projected = project_trace-rolled json_text d drawn valid low high bound in
          subst (λ z. IsProjected json_text d z) plan_is
            (record {
              trace = drawn.provenance;
              drawn = refl;
              duration = refl;
              result = rolled d roll;
              projected = rw (valid, projected) refl;
              roll = refl;
              at_least = omega (int_laws, low);
              at_most = omega (int_laws, high);
              modifier = refl;
              difficulty = refl;
              total = refl;
              texts = texts_of d roll;
              replacement = texts_of-IsReplacement d roll;
              either = rolled-either d drawn;
            })
    ]
