-- ===== src/Core/Conditions.antt =====
-- packages/core/src/conditions.ts: conditions evaluated on a world state.
pub mod Meaning
pub mod References
use sandboxengine.Prelude.{
  Bool, true, false, not, ◌&&◌, ◌||◌, Option, none, some, List, [], ◌∷◌, any, find?, if◌then◌else◌,
}
use sandboxengine.Prelude.Int.{ℤ, leb_ℤ}
use sandboxengine.Prelude.Text.{Text, lit, text_eq}
use sandboxengine.Prelude.Results.{Result, ok, err}
use sandboxengine.Contracts.World.{
  WorldState, WorldResource, WorldEntity, WorldItem, WorldItemPosition, location, holder,
}
use sandboxengine.Contracts.Value.{Value}
use sandboxengine.Contracts.Condition.{
  Condition, resource_at_least, entity_at, item_held_by, all_of, any_of, not_of, Conditions, nil,
  cons, as_condition,
}
use sandboxengine.Core.Resource.{is_safe_resource}
use sandboxengine.Core.Effects.{
  is_location, is_resource, is_item, is_entity, is_valid_state, text_at,
}

pub data ConditionEvaluationFailureCode : Type 0 where
  invalid_state invalid_condition resource_not_found : ConditionEvaluationFailureCode
  entity_not_found location_not_found : ConditionEvaluationFailureCode
  item_not_found holder_not_found : ConditionEvaluationFailureCode

pub record ConditionEvaluationFailure : Type 0 where
  pub code : ConditionEvaluationFailureCode
  pub condition_type : Option Text
  pub reference_id : Option Text

abbrev pub ConditionEvaluationResult : Type 0
ConditionEvaluationResult = Result ConditionEvaluationFailure Bool

abbrev pub failure :
    ConditionEvaluationFailureCode → Option Text → Option Text → ConditionEvaluationResult
failure c t r = err (record { code = c; condition_type = t; reference_id = r })

abbrev pub evaluate_resource : Text → ℤ → Option WorldResource → ConditionEvaluationResult
evaluate_resource k v none = failure resource_not_found (some (lit "resource.atLeast")) (some k)
evaluate_resource k v (some r) =
    if is_safe_resource r
    then ok (leb_ℤ v r.value)
    else failure invalid_state (some (lit "resource.atLeast")) (some k)

-- location === wanted, for a location that may be null
abbrev pub is_at : Option Text → Text → Bool
is_at none k = false
is_at (some l) k = text_eq l k

abbrev pub evaluate_entity : Text → Text → Option WorldEntity → ConditionEvaluationResult
evaluate_entity k l none = failure entity_not_found (some (lit "entity.at")) (some k)
evaluate_entity k l (some e) = ok (is_at e.location_id l)

abbrev pub is_held : WorldItemPosition → Text → Bool
is_held (location l) k = false
is_held (holder h) k = text_eq h k

abbrev pub evaluate_item :
    List WorldEntity → Text → Text → Option WorldItem → ConditionEvaluationResult
evaluate_item es k h none = failure item_not_found (some (lit "item.heldBy")) (some k)
evaluate_item es k h (some i) =
    if any (is_entity h) es
    then ok (is_held i.position h)
    else failure holder_not_found (some (lit "item.heldBy")) (some h)

abbrev pub negate : ConditionEvaluationResult → ConditionEvaluationResult
negate (ok b) = ok (not b)
negate (err e) = err e

-- `evaluate_all` and `evaluate_any` are the loops of `all` and `any`, with the loop's variable
-- `value`: a failure ends a loop, and a value that settles the answer does not.
unfoldable mutual
  pub evaluate_known_condition : WorldState → Condition → ConditionEvaluationResult
  evaluate_known_condition s (resource_at_least k v) =
      evaluate_resource k v (find? (is_resource k) s.resources)
  evaluate_known_condition s (entity_at k l) =
      if any (is_location l) s.locations
      then evaluate_entity k l (find? (is_entity k) s.entities)
      else failure location_not_found (some (lit "entity.at")) (some l)
  evaluate_known_condition s (item_held_by k h) =
      evaluate_item s.entities k h (find? (is_item k) s.items)
  evaluate_known_condition s (all_of cs) = evaluate_all s true cs
  evaluate_known_condition s (any_of cs) = evaluate_any s false cs
  evaluate_known_condition s (not_of c) = negate (evaluate_known_condition s c)

  pub evaluate_all : WorldState → Bool → Conditions → ConditionEvaluationResult
  evaluate_all s value nil = ok value
  evaluate_all s value (cons c cs) = elim (evaluate_known_condition s c) [
    | err e ↦ err e
    | ok b ↦ evaluate_all s (if b then value else false) cs
  ]

  pub evaluate_any : WorldState → Bool → Conditions → ConditionEvaluationResult
  evaluate_any s value nil = ok value
  evaluate_any s value (cons c cs) = elim (evaluate_known_condition s c) [
    | err e ↦ err e
    | ok b ↦ evaluate_any s (if b then true else value) cs
  ]

unfoldable pub evaluate_condition : WorldState → Value → ConditionEvaluationResult
evaluate_condition s raw =
    if is_valid_state s
    then elim (as_condition raw) [
      | none ↦ failure invalid_condition (text_at (lit "type") raw) none
      | some c ↦ evaluate_known_condition s c
    ]
    else failure invalid_state none none
