-- ===== src/Core/Conditions/Meaning.antt =====
-- What a condition means on a world state, apart from the evaluator, and when every reference of it
-- resolves.
use mathlib.Core.Path.{subst}
use mathlib.Core.Option.{some-injective}
use mathlib.Core.Bool.{false≢true}
use mathlib.Core.List.{List}
use sandboxengine.Prelude.{
  ◌≡◌, refl, sym, ap, ◌∙◌, Bool, true, false, ◌⊎◌, inl, inr, ◌↔◌, Option, none, some, any, find?,
  arith, Bool-cases, Option-cases, if◌then◌else◌,
}
use sandboxengine.Prelude.Int.{ℤ, leb_ℤ, ◌≤ℤ◌}
use sandboxengine.Prelude.Text.{Text, text_eq_iff}
use sandboxengine.Prelude.Results.{ok, err, Result-cases, ok-injective}
use sandboxengine.Contracts.World.{
  WorldState, WorldResource, WorldEntity, WorldItem, WorldItemPosition, location, holder,
}
use sandboxengine.Contracts.Condition.{
  Condition, resource_at_least, entity_at, item_held_by, all_of, any_of, not_of, Conditions, nil,
  cons, as_condition,
}
use sandboxengine.Contracts.Value.{Value}
use sandboxengine.Core.Effects.{is_valid_state, is_location, is_resource, is_item, is_entity}
use sandboxengine.Core.Conditions.{
  evaluate_resource, evaluate_entity, evaluate_item, is_at, is_held, negate,
  ConditionEvaluationResult, evaluate_known_condition, evaluate_all, evaluate_any,
  evaluate_condition,
}

abbrev mutual
  pub Holds : WorldState → Condition → Type 0
  Holds s (resource_at_least k v) =
      (r : WorldResource) × (find? (is_resource k) s.resources ≡ some r) × (v ≤ℤ r.value)
  Holds s (entity_at k l) =
      (e : WorldEntity) × (find? (is_entity k) s.entities ≡ some e) × (e.location_id ≡ some l)
  Holds s (item_held_by k h) =
      (i : WorldItem) × (find? (is_item k) s.items ≡ some i) × (i.position ≡ holder h)
  Holds s (all_of cs) = HoldsAll s cs
  Holds s (any_of cs) = HoldsAny s cs
  Holds s (not_of c) = ¬ (Holds s c)

  pub HoldsAll : WorldState → Conditions → Type 0
  HoldsAll s nil = Unit
  HoldsAll s (cons c cs) = Holds s c × HoldsAll s cs

  pub HoldsAny : WorldState → Conditions → Type 0
  HoldsAny s nil = ⊥
  HoldsAny s (cons c cs) = Holds s c ⊎ HoldsAny s cs

-- A Boolean is the answer to a question.
abbrev pub Answers : Bool → Type 0 → Type 0
Answers true P = P
Answers false P = ¬ P

-- A test of the one thing that was found answers whether there is such a thing.
found_answers :
    {A : Type 0} (a : A) (P : A → Type 0) (c b : Bool)
    → ((c ≡ true) ↔ P a)
    → c ≡ b
    → Answers b ((x : A) × (◌≡◌ {A = Option A} (some a) (some x)) × P x)
found_answers a P c true test e = (a, refl, test.0 e)
found_answers a P c false test e = λ t.
    let (x, same, p) = t in
    let yes' : c ≡ true = test.1 (subst P (sym (some-injective _ _ same)) p) in ground arith

is_at_iff : (p : Option Text) (l : Text) → (is_at p l ≡ true) ↔ (p ≡ some l)
is_at_iff none l = ground arith
is_at_iff (some j) l =
    (λ h. ap some ((text_eq_iff j l).0 h), λ e. (text_eq_iff j l).1 (some-injective _ _ e))

is_held_iff : (p : WorldItemPosition) (h : Text) → (is_held p h ≡ true) ↔ (p ≡ holder h)
is_held_iff (location l) h = (λ e. cc, λ e. cc)
is_held_iff (holder j) h =
    (λ e. ap holder ((text_eq_iff j h).0 e), λ e. (text_eq_iff j h).1 (ground arith))

Answers-resource :
    (o : Option WorldResource) (k : Text) (v : ℤ) (b : Bool)
    → evaluate_resource k v o ≡ ok b
    → Answers b ((r : WorldResource) × (o ≡ some r) × (v ≤ℤ r.value))
Answers-resource none k v b h = cc
Answers-resource (some r) k v b h =
    found_answers r (λ r. v ≤ℤ r.value) (leb_ℤ v r.value) b (ground arith) (ground arith)

Answers-entity :
    (o : Option WorldEntity) (k l : Text) (b : Bool)
    → evaluate_entity k l o ≡ ok b
    → Answers b ((e : WorldEntity) × (o ≡ some e) × (e.location_id ≡ some l))
Answers-entity none k l b h = cc
Answers-entity (some e) k l b h =
    found_answers e (λ e. e.location_id ≡ some l) (is_at e.location_id l) b
      (is_at_iff e.location_id l) (ok-injective h)

Answers-item :
    (es : List WorldEntity) (o : Option WorldItem) (k h : Text) (b : Bool)
    → evaluate_item es k h o ≡ ok b
    → Answers b ((i : WorldItem) × (o ≡ some i) × (i.position ≡ holder h))
Answers-item es none k h b e = cc
Answers-item es (some i) k h b e =
    found_answers i (λ i. i.position ≡ holder h) (is_held i.position h) b (is_held_iff i.position h)
      (ground arith)

Answers-negate :
    (P : Type 0) (r : ConditionEvaluationResult) (b : Bool)
    → ((c : Bool) → r ≡ ok c → Answers c P)
    → negate r ≡ ok b
    → Answers b (¬ P)
Answers-negate P (err e) b h n = cc
Answers-negate P (ok true) true h n = cc
Answers-negate P (ok true) false h n = λ np. np (h true refl)
Answers-negate P (ok false) true h n = h false refl
Answers-negate P (ok false) false h n = cc

-- One turn of the loop of `all`, and of the loop of `any`.
Answers-and :
    (P Q : Type 0) (value c b : Bool)
    → Answers c P
    → Answers b (((if c then value else false) ≡ true) × Q)
    → Answers b ((value ≡ true) × (P × Q))
Answers-and P Q value true true p t = (t.0, (p, t.1))
Answers-and P Q value true false p t = λ u. t (u.0, u.1.1)
Answers-and P Q value false true p t = absurd (false≢true t.0)
Answers-and P Q value false false p t = λ u. p u.1.0

Answers-or :
    (P Q : Type 0) (value c b : Bool)
    → Answers c P
    → Answers b (((if c then true else value) ≡ true) ⊎ Q)
    → Answers b ((value ≡ true) ⊎ (P ⊎ Q))
Answers-or P Q value true true p t = inr (inl p)
Answers-or P Q value true false p t = absurd (t (inl refl))
Answers-or P Q value false true p (inl v) = inl v
Answers-or P Q value false true p (inr q) = inr (inr q)
Answers-or P Q value false false p t =
    λ u. elim u [ inl v ↦ t (inl v) | inr w ↦ elim w [ inl x ↦ p x | inr q ↦ t (inr q) ] ]

answer : (b : Bool) (P Q : Type 0) → (P → Q) → (Q → P) → Answers b P → Answers b Q
answer true P Q f g a = f a
answer false P Q f g a = λ q. a (g q)

value_answers : (value b : Bool) → value ≡ b → Answers b (value ≡ true)
value_answers value true e = e
value_answers value false e = λ t. false≢true (sym e ∙ t)

mutual
  unfolding evaluate_known_condition

  evaluate_answers :
      (s : WorldState) (c : Condition) (b : Bool)
      → evaluate_known_condition s c ≡ ok b
      → Answers b (Holds s c)
  evaluate_answers s (resource_at_least k v) b h =
      Answers-resource (find? (is_resource k) s.resources) k v b h
  evaluate_answers s (entity_at k l) b h = elim (Bool-cases (any (is_location l) s.locations)) [
    | inl e ↦ Answers-entity (find? (is_entity k) s.entities) k l b (rw e at h)
    | inr n ↦ let bad = rw n at h in cc
  ]
  evaluate_answers s (item_held_by k l) b h =
      Answers-item s.entities (find? (is_item k) s.items) k l b h
  evaluate_answers s (all_of cs) b h =
      answer b ((◌≡◌ {A = Bool} true true) × HoldsAll s cs) (HoldsAll s cs) (λ t. t.1)
        (λ t. (refl, t)) (evaluate_all_answers s true cs b h)
  evaluate_answers s (any_of cs) b h =
      answer b ((◌≡◌ {A = Bool} false true) ⊎ HoldsAny s cs) (HoldsAny s cs)
        (λ t. elim t [ inl e ↦ absurd (false≢true e) | inr q ↦ q ]) inr
        (evaluate_any_answers s false cs b h)
  evaluate_answers s (not_of c) b h =
      Answers-negate (Holds s c) (evaluate_known_condition s c) b (evaluate_answers s c) h

  evaluate_all_answers :
      (s : WorldState) (value : Bool) (cs : Conditions) (b : Bool)
      → evaluate_all s value cs ≡ ok b
      → Answers b ((value ≡ true) × HoldsAll s cs)
  evaluate_all_answers s value nil b h =
      answer b (value ≡ true) ((value ≡ true) × Unit) (λ e. (e, tt)) (λ t. t.0)
        (value_answers value b (ok-injective h))
  evaluate_all_answers s value (cons c cs) b h =
      elim (Result-cases (evaluate_known_condition s c)) [
        | inr (f, e) ↦ let bad = rw (e, evaluate_all) at h in cc
        | inl (v, e) ↦
            Answers-and (Holds s c) (HoldsAll s cs) value v b (evaluate_answers s c v e)
              (evaluate_all_answers s (if v then value else false) cs b (rw (e, evaluate_all) at h))
      ]

  evaluate_any_answers :
      (s : WorldState) (value : Bool) (cs : Conditions) (b : Bool)
      → evaluate_any s value cs ≡ ok b
      → Answers b ((value ≡ true) ⊎ HoldsAny s cs)
  evaluate_any_answers s value nil b h =
      answer b (value ≡ true) ((value ≡ true) ⊎ ⊥) inl
        (λ t. elim t [ inl e ↦ e | inr x ↦ absurd x ]) (value_answers value b (ok-injective h))
  evaluate_any_answers s value (cons c cs) b h =
      elim (Result-cases (evaluate_known_condition s c)) [
        | inr (f, e) ↦ let bad = rw (e, evaluate_any) at h in cc
        | inl (v, e) ↦
            Answers-or (Holds s c) (HoldsAny s cs) value v b (evaluate_answers s c v e)
              (evaluate_any_answers s (if v then true else value) cs b (rw (e, evaluate_any) at h))
      ]

-- An evaluation that returns a Boolean has read a condition, and the Boolean says whether the
-- condition holds on the state.
pub evaluate_condition-Answers :
    (s : WorldState) (raw : Value) (b : Bool)
    → evaluate_condition s raw ≡ ok b
    → (c : Condition) × (as_condition raw ≡ some c) × Answers b (Holds s c)
unfolding evaluate_condition
evaluate_condition-Answers s raw b h = elim (Bool-cases (is_valid_state s)) [
  | inr n ↦ let bad = rw (n, evaluate_condition) at h in cc
  | inl v ↦ elim (Option-cases (as_condition raw)) [
    | inl e ↦ let bad = rw (v, e, evaluate_condition) at h in cc
    | inr (c, e) ↦ (c, e, evaluate_answers s c b (rw (v, e, evaluate_condition) at h))
  ]
]
