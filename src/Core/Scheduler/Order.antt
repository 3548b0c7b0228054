-- ===== src/Core/Scheduler/Order.antt =====
-- The comparison of events is a total order on their times, orders and ids.
use Prim.Native.Nat.{lt, eq, gt}
use sandboxengine.Prelude.{
  ◌≡◌, refl, sym, ◌∙◌, Bool, true, false, Bool-cases, inl, inr, if◌then◌else◌, arith,
}
use sandboxengine.Prelude.Int.{ℤ, ltb_ℤ, ◌≤ℤ◌}
use sandboxengine.Prelude.Text.{Text, text_lt, text_lt_asymm, text_le_trans, text_lt_total}
use sandboxengine.Contracts.Event.{SchedulerEvent}
use sandboxengine.Core.Scheduler.{compare_scheduler_events, in_order}

-- One key of the comparison: less, greater, or the rest.
abbrev lex : Bool → Bool → Bool → Bool
lex less greater rest = if less then true else if greater then false else rest

abbrev lex_ℤ : ℤ → ℤ → Bool → Bool
lex_ℤ a b rest = lex (ltb_ℤ a b) (ltb_ℤ b a) rest

abbrev lex_text : Text → Text → Bool
lex_text s t = lex (text_lt s t) (text_lt t s) true

in_order_lex :
    (a b : SchedulerEvent)
    → in_order a b
      ≡ lex_ℤ a.at_elapsed_seconds b.at_elapsed_seconds
          (lex_ℤ a.order b.order (lex_text a.event_id b.event_id))
unfolding in_order compare_scheduler_events
in_order_lex a b =
    ladder (ltb_ℤ a.at_elapsed_seconds b.at_elapsed_seconds)
      (ltb_ℤ b.at_elapsed_seconds a.at_elapsed_seconds) (ltb_ℤ a.order b.order)
      (ltb_ℤ b.order a.order) (text_lt a.event_id b.event_id) (text_lt b.event_id a.event_id)
  where
    ladder :
        (p q r s t u : Bool)
        → (elim (if p
            then lt
            else if q
            then gt
            else if r
            then lt
            else if s
            then gt
            else if t
            then lt
            else if u
            then gt
            else eq) [ gt ↦ false | _ ↦ true ])
          ≡ lex p q (lex r s (lex t u true))
    ladder p q r s t u = ground arith

lex_ℤ_total :
    (a b : ℤ) (r r' : Bool) → (r ≡ false → r' ≡ true) → lex_ℤ a b r ≡ false → lex_ℤ b a r' ≡ true
lex_ℤ_total a b r r' f h = elim (Bool-cases r) [
  | inl e ↦ ground arith
  | inr e ↦ let g = f e in ground arith
]

lex_ℤ_trans :
    (a b c : ℤ) (r r' r'' : Bool)
    → (r ≡ true → r' ≡ true → r'' ≡ true)
    → lex_ℤ a b r ≡ true
    → lex_ℤ b c r' ≡ true
    → lex_ℤ a c r'' ≡ true
lex_ℤ_trans a b c true true r'' f h k = let g = f refl refl in ground arith
lex_ℤ_trans a b c true false r'' f h k = ground arith
lex_ℤ_trans a b c false r' r'' f h k = ground arith

lex_ℤ_rest :
    (a b : ℤ) (r r' : Bool) → lex_ℤ a b r ≡ true → lex_ℤ b a r' ≡ true → (r ≡ true) × (r' ≡ true)
lex_ℤ_rest a b r r' h k = (ground arith, ground arith)

lex_text_trans : (s t u : Text) → lex_text s t ≡ true → lex_text t u ≡ true → lex_text s u ≡ true
lex_text_trans s t u h k =
    ground (arith, text_le_trans s t u, text_lt_asymm s t, text_lt_asymm t u, text_lt_asymm u s)

lex_text_total : (s t : Text) → lex_text s t ≡ false → lex_text t s ≡ true
lex_text_total s t h = ground (arith, text_lt_asymm s t)

lex_text_antisymm : (s t : Text) → lex_text s t ≡ true → lex_text t s ≡ true → s ≡ t
lex_text_antisymm s t h k = ground (arith, text_lt_total s t, text_lt_asymm s t)

pub in_order_total : (a b : SchedulerEvent) → in_order a b ≡ false → in_order b a ≡ true
in_order_total a b h =
    in_order_lex b a
    ∙ lex_ℤ_total a.at_elapsed_seconds b.at_elapsed_seconds
        (lex_ℤ a.order b.order (lex_text a.event_id b.event_id))
        (lex_ℤ b.order a.order (lex_text b.event_id a.event_id))
        (lex_ℤ_total a.order b.order (lex_text a.event_id b.event_id)
          (lex_text b.event_id a.event_id) (lex_text_total a.event_id b.event_id))
        (sym (in_order_lex a b) ∙ h)

pub in_order_trans :
    (a b c : SchedulerEvent) → in_order a b ≡ true → in_order b c ≡ true → in_order a c ≡ true
in_order_trans a b c h k =
    in_order_lex a c
    ∙ lex_ℤ_trans a.at_elapsed_seconds b.at_elapsed_seconds c.at_elapsed_seconds
        (lex_ℤ a.order b.order (lex_text a.event_id b.event_id))
        (lex_ℤ b.order c.order (lex_text b.event_id c.event_id))
        (lex_ℤ a.order c.order (lex_text a.event_id c.event_id))
        (lex_ℤ_trans a.order b.order c.order (lex_text a.event_id b.event_id)
          (lex_text b.event_id c.event_id) (lex_text a.event_id c.event_id)
          (lex_text_trans a.event_id b.event_id c.event_id))
        (sym (in_order_lex a b) ∙ h) (sym (in_order_lex b c) ∙ k)

-- Two events that are in order both ways have one id.
pub in_order_antisymm :
    (a b : SchedulerEvent) → in_order a b ≡ true → in_order b a ≡ true → a.event_id ≡ b.event_id
in_order_antisymm a b h k =
    let (p, q) =
      lex_ℤ_rest a.at_elapsed_seconds b.at_elapsed_seconds
        (lex_ℤ a.order b.order (lex_text a.event_id b.event_id))
        (lex_ℤ b.order a.order (lex_text b.event_id a.event_id)) (sym (in_order_lex a b) ∙ h)
        (sym (in_order_lex b a) ∙ k) in
    let (r, s) =
      lex_ℤ_rest a.order b.order (lex_text a.event_id b.event_id) (lex_text b.event_id a.event_id) p
        q in
    lex_text_antisymm a.event_id b.event_id r s

lex_ℤ_le : (a b : ℤ) (r : Bool) → lex_ℤ a b r ≡ true → a ≤ℤ b
lex_ℤ_le a b r h = ground arith

-- Events in order are in order of time.
pub in_order_time :
    (a b : SchedulerEvent) → in_order a b ≡ true → a.at_elapsed_seconds ≤ℤ b.at_elapsed_seconds
in_order_time a b h =
    lex_ℤ_le a.at_elapsed_seconds b.at_elapsed_seconds
      (lex_ℤ a.order b.order (lex_text a.event_id b.event_id)) (sym (in_order_lex a b) ∙ h)
