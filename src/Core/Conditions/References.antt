-- ===== src/Core/Conditions/References.antt =====
-- Broken references are failures and never collapse into false: an evaluation returns a Boolean
-- exactly if every reference of the condition resolves, those of settled branches included.
use sandboxengine.Prelude.{
  ◌≡◌, refl, Bool, true, false, not, inl, inr, ◌↔◌, some, any, find?, arith, Bool-cases,
  Option-cases, if◌then◌else◌,
}
use sandboxengine.Prelude.Int.{leb_ℤ}
use sandboxengine.Prelude.Results.{ok, err, Result-cases}
use sandboxengine.Contracts.World.{WorldState, WorldResource, WorldEntity, WorldItem}
use sandboxengine.Contracts.Condition.{
  Condition, resource_at_least, entity_at, item_held_by, all_of, any_of, not_of, Conditions, nil,
  cons,
}
use sandboxengine.Core.Resource.{is_safe_resource}
use sandboxengine.Core.Effects.{is_location, is_resource, is_item, is_entity}
use sandboxengine.Core.Conditions.{
  evaluate_resource, evaluate_entity, evaluate_item, is_at, is_held, negate,
  ConditionEvaluationResult, evaluate_known_condition, evaluate_all, evaluate_any,
}

abbrev mutual
  pub Resolves : WorldState → Condition → Type 0
  Resolves s (resource_at_least k v) =
      (r : WorldResource) × (find? (is_resource k) s.resources ≡ some r)
      × (is_safe_resource r ≡ true)
  Resolves s (entity_at k l) =
      (any (is_location l) s.locations ≡ true)
      × (e : WorldEntity) × (find? (is_entity k) s.entities ≡ some e)
  Resolves s (item_held_by k h) =
      (any (is_entity h) s.entities ≡ true) × (i : WorldItem) × (find? (is_item k) s.items ≡ some i)
  Resolves s (all_of cs) = ResolvesAll s cs
  Resolves s (any_of cs) = ResolvesAll s cs
  Resolves s (not_of c) = Resolves s c

  pub ResolvesAll : WorldState → Conditions → Type 0
  ResolvesAll s nil = Unit
  ResolvesAll s (cons c cs) = Resolves s c × ResolvesAll s cs

negate-ok : (r : ConditionEvaluationResult) (b : Bool) → negate r ≡ ok b → (c : Bool) × (r ≡ ok c)
negate-ok (ok c) b h = (c, refl)
negate-ok (err e) b h = cc

mutual
  unfolding evaluate_known_condition

  Resolves-of_ok :
      (s : WorldState) (c : Condition) (b : Bool)
      → evaluate_known_condition s c ≡ ok b
      → Resolves s c
  Resolves-of_ok s (resource_at_least k v) b h =
      elim (Option-cases (find? (is_resource k) s.resources)) [
        | inl e ↦ let bad = rw e at h in cc
        | inr (r, e) ↦
            let found : evaluate_resource k v (some r) ≡ ok b = rw e at h in (r, e, ground arith)
      ]
  Resolves-of_ok s (entity_at k l) b h = elim (Bool-cases (any (is_location l) s.locations)) [
    | inr n ↦ let bad = rw n at h in cc
    | inl a ↦
        let found : evaluate_entity k l (find? (is_entity k) s.entities) ≡ ok b = rw a at h in
        elim (Option-cases (find? (is_entity k) s.entities)) [
          | inl e ↦ let bad = rw e at found in cc
          | inr (x, e) ↦ (a, x, e)
        ]
  ]
  Resolves-of_ok s (item_held_by k l) b h = elim (Option-cases (find? (is_item k) s.items)) [
    | inl e ↦ let bad = rw e at h in cc
    | inr (x, e) ↦
        let found : evaluate_item s.entities k l (some x) ≡ ok b = rw e at h in (ground arith, x, e)
  ]
  Resolves-of_ok s (all_of cs) b h = resolves_of_all s true cs b h
  Resolves-of_ok s (any_of cs) b h = resolves_of_any s false cs b h
  Resolves-of_ok s (not_of c) b h =
      let (b', e) = negate-ok (evaluate_known_condition s c) b h in Resolves-of_ok s c b' e

  resolves_of_all :
      (s : WorldState) (value : Bool) (cs : Conditions) (b : Bool)
      → evaluate_all s value cs ≡ ok b
      → ResolvesAll s cs
  resolves_of_all s value nil b h = tt
  resolves_of_all s value (cons c cs) b h = elim (Result-cases (evaluate_known_condition s c)) [
    | inr (f, e) ↦ let bad = rw (e, evaluate_all) at h in cc
    | inl (v, e) ↦ (
      Resolves-of_ok s c v e,
      resolves_of_all s (if v then value else false) cs b (rw (e, evaluate_all) at h),
    )
  ]

  resolves_of_any :
      (s : WorldState) (value : Bool) (cs : Conditions) (b : Bool)
      → evaluate_any s value cs ≡ ok b
      → ResolvesAll s cs
  resolves_of_any s value nil b h = tt
  resolves_of_any s value (cons c cs) b h = elim (Result-cases (evaluate_known_condition s c)) [
    | inr (f, e) ↦ let bad = rw (e, evaluate_any) at h in cc
    | inl (v, e) ↦ (
      Resolves-of_ok s c v e,
      resolves_of_any s (if v then true else value) cs b (rw (e, evaluate_any) at h),
    )
  ]

mutual
  unfolding evaluate_known_condition

  ok_of_Resolves :
      (s : WorldState) (c : Condition)
      → Resolves s c
      → (b : Bool) × (evaluate_known_condition s c ≡ ok b)
  ok_of_Resolves s (resource_at_least k v) (r, e, safe) = (leb_ℤ v r.value, rw e (rw safe))
  ok_of_Resolves s (entity_at k l) (a, x, e) = (is_at x.location_id l, rw a (rw e))
  ok_of_Resolves s (item_held_by k l) (a, x, e) = (is_held x.position l, rw e (rw a))
  ok_of_Resolves s (all_of cs) r = ok_of_ResolvesAll s true cs r
  ok_of_Resolves s (any_of cs) r = ok_of_ResolvesAny s false cs r
  ok_of_Resolves s (not_of c) r = let (b, e) = ok_of_Resolves s c r in (not b, rw e)

  ok_of_ResolvesAll :
      (s : WorldState) (value : Bool) (cs : Conditions)
      → ResolvesAll s cs
      → (b : Bool) × (evaluate_all s value cs ≡ ok b)
  ok_of_ResolvesAll s value nil r = (value, refl)
  ok_of_ResolvesAll s value (cons c cs) (r, rs) =
      let (v, e) = ok_of_Resolves s c r in
      let (b, later) = ok_of_ResolvesAll s (if v then value else false) cs rs in
      (b, rw (e, evaluate_all) later)

  ok_of_ResolvesAny :
      (s : WorldState) (value : Bool) (cs : Conditions)
      → ResolvesAll s cs
      → (b : Bool) × (evaluate_any s value cs ≡ ok b)
  ok_of_ResolvesAny s value nil r = (value, refl)
  ok_of_ResolvesAny s value (cons c cs) (r, rs) =
      let (v, e) = ok_of_Resolves s c r in
      let (b, later) = ok_of_ResolvesAny s (if v then true else value) cs rs in
      (b, rw (e, evaluate_any) later)

-- A known condition evaluates to a Boolean exactly if each of its references resolves, in every
-- branch of it.
pub evaluate_known_condition-Resolves :
    (s : WorldState) (c : Condition)
    → ((b : Bool) × (evaluate_known_condition s c ≡ ok b)) ↔ Resolves s c
evaluate_known_condition-Resolves s c =
    (λ t. let (b, e) = t in Resolves-of_ok s c b e, ok_of_Resolves s c)
