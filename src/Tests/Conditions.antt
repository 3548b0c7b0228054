-- ===== src/Tests/Conditions.antt =====
-- Conditions on the small world.
use sandboxengine.Prelude.{◌≡◌, refl, Bool, true, ◌↔◌, some}
use sandboxengine.Prelude.Int.{pos}
use sandboxengine.Prelude.Text.{lit}
use sandboxengine.Prelude.Results.{ok}
use sandboxengine.Contracts.Value.{Value, num, str, obj, integer, end, field, schema_version}
use sandboxengine.Contracts.Condition.{
  Condition, any_of, resource_at_least, item_held_by, as_condition, Conditions,
}
use sandboxengine.Core.Conditions.{evaluate_condition, evaluate_known_condition}
use sandboxengine.Core.Conditions.Meaning.{Answers, Holds, evaluate_condition-Answers}
use sandboxengine.Core.Conditions.References.{Resolves, evaluate_known_condition-Resolves}
use sandboxengine.Tests.Data.{batches, world}

-- not (paint >= 11)
abbrev raw_condition : Value
raw_condition = obj (
    field (lit "schemaVersion") (str schema_version) (
      field (lit "type") (str (lit "not")) (
        field (lit "condition")
          (obj (
            field (lit "schemaVersion") (str schema_version) (
              field (lit "type") (str (lit "resource.atLeast")) (
                field (lit "resourceId") (str (lit "paint"))
                  (field (lit "value") (num (integer (pos 11))) end)))))
          end)))

raw_run : evaluate_condition world raw_condition ≡ ok true
unfolding batches evaluate_condition evaluate_known_condition as_condition
raw_run = refl

evaluate_condition-Answers_example :
    (c : Condition) × (as_condition raw_condition ≡ some c) × Answers true (Holds world c)
evaluate_condition-Answers_example = evaluate_condition-Answers world raw_condition true raw_run

-- The first branch holds, and the reference of the second is broken.
abbrev broken : Condition
broken = any_of (
    Conditions.cons (resource_at_least (lit "paint") (pos 1))
      (Conditions.cons (item_held_by (lit "rope") (lit "ann")) Conditions.nil))

evaluate_known_condition-Resolves_example :
    ((b : Bool) × (evaluate_known_condition world broken ≡ ok b)) ↔ Resolves world broken
evaluate_known_condition-Resolves_example = evaluate_known_condition-Resolves world broken
