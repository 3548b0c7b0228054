-- ===== src/Core/Process/Outcome.antt =====
-- What the loop, and `processTimeAdvancePlan` with any handler, guarantee of a success.
use sandboxengine.Prelude.{
  ℕ, zero, suc, ◌+◌, ◌≤◌, ◌≡◌, refl, sym, Bool, true, false, Option, List, [], ◌∷◌, length, arith,
  Bool-cases, inl, inr, ◌⊎◌,
}
use sandboxengine.Prelude.Int.{ℤ, ◌≤ℤ◌}
use sandboxengine.Prelude.Results.{ok, Result-cases, ok-injective}
use sandboxengine.Core.Advance.{apply_event, is_interruption}
use sandboxengine.Core.Process.{
  QueueEntry, Processing, SchedulerEventHandler, handle, process_entry, process_from, take_entry,
}
use sandboxengine.Core.Process.Account.{IsRunning, at}
use sandboxengine.Core.Process.Run.{
  IsDone, handle-IsRunning, take_entry-IsRunning, IsRunning-IsDone, interrupt-IsDone,
}

-- Where the loop stands after a round: it goes on, or it is done.
abbrev Stands : ℤ → ℤ → ℤ → QueueEntry → ℕ → Processing × Bool → Type 0
Stands start end limit e n (p, true) = IsRunning start end limit (at e) n p
Stands start end limit e n (p, false) = IsDone start end limit p × (length p.processed ≡ n)

process_entry-Stands :
    (start end limit now : ℤ) (n : ℕ) (handler : Option SchedulerEventHandler) (p : Processing)
    (e : QueueEntry) (rest : List QueueEntry) (r : Processing × Bool)
    → start ≤ℤ now
    → IsRunning start end limit now n p
    → p.queue ≡ e ∷ rest
    → process_entry handler end limit p e rest ≡ ok r
    → Stands start end limit e (suc n) r
unfolding process_entry
process_entry-Stands start end limit now n handler p e rest r began run q h =
    elim (Result-cases (apply_event p.trial e.event.payload)) [
      | inr (f, x) ↦ let bad = rw (x, process_entry) at h in cc
      | inl (s, x) ↦
          let next = take_entry-IsRunning start end limit now n p e rest s began run q in
          let future = rw q at run.future in
          elim (Bool-cases (is_interruption e.event.payload)) [
            | inl t ↦
                let out = ok-injective (rw (x, t, process_entry) at h) in
                rw (sym out)
                  (interrupt-IsDone start end limit (suc n) p e rest s future.0.1 next, next.taken)
            | inr t ↦ elim (Result-cases (handle handler e end limit (take_entry p e rest s))) [
              | inr (f, y) ↦ let bad = rw (x, t, y, process_entry) at h in cc
              | inl (p', y) ↦
                  let out = ok-injective (rw (x, t, y, process_entry) at h) in
                  rw (sym out) (
                    handle-IsRunning start end limit (suc n) handler e (take_entry p e rest s) p'
                      next y)
            ]
          ]
    ]

abbrev IsWithin : ℤ → ℤ → ℤ → ℕ → Processing → Type 0
IsWithin start end limit n p = IsDone start end limit p × (length p.processed ≤ n)

-- One round and the rest of the loop.
pub process_from-step :
    (end limit : ℤ) (handler : Option SchedulerEventHandler) (left : ℕ) (p p' : Processing)
    (e : QueueEntry) (rest : List QueueEntry)
    → p.queue ≡ e ∷ rest
    → process_from handler end limit (suc left) p ≡ ok p'
    → (r : Processing × Bool) × (process_entry handler end limit p e rest ≡ ok r)
      × ((r.1 ≡ true) × (process_from handler end limit left r.0 ≡ ok p')
          ⊎ (r.1 ≡ false) × (r.0 ≡ p'))
unfolding process_from
process_from-step end limit handler left p p' e rest q h =
    elim (Result-cases (process_entry handler end limit p e rest)) [
      | inr (f, x) ↦ let bad = rw (q, x, process_from) at h in cc
      | inl ((p'', true), x) ↦ ((p'', true), x, inl (refl, rw (q, x, process_from) at h))
      | inl ((p'', false), x) ↦
          ((p'', false), x, inr (refl, ok-injective (rw (q, x, process_from) at h)))
    ]

queue-cases :
    (xs : List QueueEntry)
    → (xs ≡ []) ⊎ ((e : QueueEntry) × (rest : List QueueEntry) × (xs ≡ e ∷ rest))
queue-cases [] = inl refl
queue-cases (e ∷ rest) = inr (e, rest, refl)

pub process_from-end :
    (end limit : ℤ) (handler : Option SchedulerEventHandler) (left : ℕ) (p p' : Processing)
    → p.queue ≡ []
    → process_from handler end limit left p ≡ ok p'
    → p ≡ p'
unfolding process_from
process_from-end end limit handler zero p p' q h = ok-injective (rw (q, process_from) at h)
process_from-end end limit handler (suc left) p p' q h = ok-injective (rw (q, process_from) at h)

pub process_from-no_step :
    (end limit : ℤ) (handler : Option SchedulerEventHandler) (p p' : Processing) (e : QueueEntry)
    (rest : List QueueEntry)
    → p.queue ≡ e ∷ rest
    → process_from handler end limit 0 p ≡ ok p'
    → ⊥
unfolding process_from
process_from-no_step end limit handler p p' e rest q h = let bad = rw (q, process_from) at h in cc

empty-IsWithin :
    (start end limit now : ℤ) (n : ℕ) (handler : Option SchedulerEventHandler) (left : ℕ)
    (p p' : Processing)
    → now ≤ℤ end
    → IsRunning start end limit now n p
    → p.queue ≡ []
    → process_from handler end limit left p ≡ ok p'
    → IsWithin start end limit (n + left) p'
empty-IsWithin start end limit now n handler left p p' by_end run q h =
    let done : IsWithin start end limit (n + left) p =
      (IsRunning-IsDone start end limit now n p by_end run q, omega (arith, run.taken)) in
    rw (process_from-end end limit handler left p p' q h) at done

-- The loop from a state of its own: at most `left` rounds more.
pub process_from-IsWithin :
    (start end limit now : ℤ) (n : ℕ) (handler : Option SchedulerEventHandler) (left : ℕ)
    (p p' : Processing)
    → start ≤ℤ now
    → now ≤ℤ end
    → IsRunning start end limit now n p
    → process_from handler end limit left p ≡ ok p'
    → IsWithin start end limit (n + left) p'
process_from-IsWithin start end limit now n handler zero p p' began by_end run h =
    elim (queue-cases p.queue) [
      | inl q ↦ empty-IsWithin start end limit now n handler 0 p p' by_end run q h
      | inr (e, rest, q) ↦ absurd (process_from-no_step end limit handler p p' e rest q h)
    ]
process_from-IsWithin start end limit now n handler (suc left) p p' began by_end run h =
    elim (queue-cases p.queue) [
      | inl q ↦ empty-IsWithin start end limit now n handler (suc left) p p' by_end run q h
      | inr (e, rest, q) ↦
          let ((p'', goes_on), done, next) =
            process_from-step end limit handler left p p' e rest q h in
          let stands =
            process_entry-Stands start end limit now n handler p e rest (p'', goes_on) began run q
              done in
          let future = rw q at run.future in
          elim next [
            | inl (t, more) ↦
                let run' : IsRunning start end limit (at e) (suc n) p'' = rw t at stands in
                let within =
                  process_from-IsWithin start end limit (at e) (suc n) handler left p'' p'
                    (omega (arith, future.0.0)) future.0.1 run' more in
                (within.0, omega (arith, within.1))
            | inr (t, same) ↦
                let done' : IsDone start end limit p'' × (length p''.processed ≡ suc n) =
                  rw t at stands in
                let within : IsWithin start end limit (n + suc left) p'' =
                  (done'.0, omega (arith, done'.1)) in
                rw same at within
          ]
    ]
