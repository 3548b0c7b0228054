-- ===== src/Core/Process/Run.antt =====
-- The rounds of the loop, and what a plan that was processed guarantees.

use sandboxengine.Prelude.{
  ℕ, suc, ◌+◌, ◌≡◌, refl, ap, Option, none, some, List, [], ◌∷◌, ◌++◌, length, All, All-append,
  arith, Option-cases, inl, inr, length-append,
}
use sandboxengine.Prelude.Int.{ℤ, pos, ◌≤ℤ◌, ◌<ℤ◌}
use sandboxengine.Prelude.Sort.{sort_by}
use sandboxengine.Prelude.Sorting.{Pairs, Before, All-map, All-sort_by}
use sandboxengine.Prelude.Results.{ok, ok-injective}
use sandboxengine.Contracts.World.{WorldState}
use sandboxengine.Contracts.Event.{SchedulerEvent}
use sandboxengine.Core.Process.{
  QueueEntry, Processing, SchedulerEventHandler, in_queue_order, add_child, refuse_child,
  add_children, handle, add_handled, take_entry, queue_events, interrupt,
}
use sandboxengine.Core.Process.Queue.{in_queue_order_time}
use sandboxengine.Core.Process.Account.{IsRunning, InTime, at, add_child-IsRunning, length-sort_by}

-- The same of the variables when the loop is left.
pub record IsDone (start end limit : ℤ) (p : Processing) : Type 0 where
  pub counts : length p.processed + (length p.unprocessed + length p.pending) ≡ p.total
  pub room : pos p.total ≤ℤ limit
  pub past : All (λ e. (start ≤ℤ at e) × (at e ≤ℤ end)) p.processed
  pub past_sorted : Pairs InTime p.processed
  pub left_over :
      All
        (λ u. (u.at_elapsed_seconds ≤ℤ end) × All (λ e. at e ≤ℤ u.at_elapsed_seconds) p.processed)
        p.unprocessed
  pub later : All (λ e. end <ℤ e.at_elapsed_seconds) p.pending

add_children-IsRunning :
    (start end limit : ℤ) (n : ℕ) (parent : QueueEntry) (cs : List SchedulerEvent)
    (p p' : Processing)
    → IsRunning start end limit (at parent) n p
    → add_children parent end limit p cs ≡ ok p'
    → IsRunning start end limit (at parent) n p'
unfolding add_children
add_children-IsRunning start end limit n parent [] p p' run h = rw (ok-injective h) at run
add_children-IsRunning start end limit n parent (c ∷ cs) p p' run h =
    elim (Option-cases (refuse_child parent limit p c)) [
      | inl e ↦
          add_children-IsRunning start end limit n parent cs (add_child parent end p c) p'
            (add_child-IsRunning start end limit n parent c p run e) (rw (e, add_children) at h)
      | inr (f, e) ↦ let bad = rw (e, add_children) at h in cc
    ]

add_handled-IsRunning :
    (start end limit : ℤ) (n : ℕ) (parent : QueueEntry) (o : Option (List SchedulerEvent))
    (p p' : Processing)
    → IsRunning start end limit (at parent) n p
    → add_handled parent end limit p o ≡ ok p'
    → IsRunning start end limit (at parent) n p'
add_handled-IsRunning start end limit n parent none p p' run h = cc
add_handled-IsRunning start end limit n parent (some cs) p p' run h =
    add_children-IsRunning start end limit n parent cs p p' run h

pub handle-IsRunning :
    (start end limit : ℤ) (n : ℕ) (handler : Option SchedulerEventHandler) (parent : QueueEntry)
    (p p' : Processing)
    → IsRunning start end limit (at parent) n p
    → handle handler parent end limit p ≡ ok p'
    → IsRunning start end limit (at parent) n p'
unfolding handle
handle-IsRunning start end limit n none parent p p' run h = rw (ok-injective h) at run
handle-IsRunning start end limit n (some f) parent p p' run h =
    add_handled-IsRunning start end limit n parent _ p p' run h

Pairs-snoc :
    (xs : List QueueEntry) (e : QueueEntry) (now : ℤ)
    → All (λ x. at x ≤ℤ now) xs
    → now ≤ℤ at e
    → Pairs InTime xs
    → Pairs InTime (xs ++ e ∷ [])
Pairs-snoc [] e now h k s = (tt, tt)
Pairs-snoc (x ∷ xs) e now h k s =
    (All-append (InTime x) xs (e ∷ []) s.0 (omega (arith, h.0), tt), Pairs-snoc xs e now h.1 k s.1)

behind :
    (now end : ℤ) (xs : List QueueEntry)
    → All (λ x. now ≤ℤ at x) xs
    → All (λ x. at x ≤ℤ end) xs
    → All (λ x. (now ≤ℤ at x) × (at x ≤ℤ end)) xs
behind now end [] h k = tt
behind now end (x ∷ xs) h k = ((h.0, k.0), behind now end xs h.1 k.1)

All-queue_events :
    (P : SchedulerEvent → Type 0) (xs : List QueueEntry)
    → All (λ x. P x.event) xs
    → All P (queue_events xs)
All-queue_events P [] h = tt
All-queue_events P (x ∷ xs) h = (h.0, All-queue_events P xs h.1)

length-queue_events : (xs : List QueueEntry) → length (queue_events xs) ≡ length xs
length-queue_events [] = refl
length-queue_events (x ∷ xs) = ap suc (length-queue_events xs)

-- The first entry is taken from the queue.
pub take_entry-IsRunning :
    (start end limit now : ℤ) (n : ℕ) (p : Processing) (e : QueueEntry) (rest : List QueueEntry)
    (s : WorldState)
    → start ≤ℤ now
    → IsRunning start end limit now n p
    → p.queue ≡ e ∷ rest
    → IsRunning start end limit (at e) (suc n) (take_entry p e rest s)
take_entry-IsRunning start end limit now n p e rest s began run q =
    let future = rw q at run.future in
    let order = rw q at run.queue_sorted in
    let size : length p.queue ≡ suc (length rest) = ap length q in
    let longer = length-append p.processed (e ∷ []) in
    record {
      taken = omega (arith, run.taken, longer);
      none_left = run.none_left;
      counts = omega (arith, run.counts, longer);
      room = run.room;
      past =
          All-append (λ x. (start ≤ℤ at x) × (at x ≤ℤ at e)) p.processed (e ∷ [])
            (All-map (λ x. (start ≤ℤ at x) × (at x ≤ℤ now)) (λ x. (start ≤ℤ at x) × (at x ≤ℤ at e))
              (λ x h. (h.0, omega (arith, h.1, future.0.0))) p.processed run.past)
            ((omega (arith, future.0.0), omega arith), tt);
      past_sorted =
          Pairs-snoc p.processed e now
            (All-map (λ x. (start ≤ℤ at x) × (at x ≤ℤ now)) (λ x. at x ≤ℤ now) (λ x h. h.1)
              p.processed run.past)
            future.0.0 run.past_sorted;
      future =
          behind (at e) end rest
            (All-map (Before in_queue_order e) (InTime e) (λ x h. in_queue_order_time e x h) rest
              order.0)
            (All-map (λ x. (now ≤ℤ at x) × (at x ≤ℤ end)) (λ x. at x ≤ℤ end) (λ x h. h.1) rest
              future.1);
      queue_sorted = order.1;
      later = run.later;
    }

-- The loop is left when the queue is empty.
pub IsRunning-IsDone :
    (start end limit now : ℤ) (n : ℕ) (p : Processing)
    → now ≤ℤ end
    → IsRunning start end limit now n p
    → p.queue ≡ []
    → IsDone start end limit p
IsRunning-IsDone start end limit now n p by_end run q =
    let none_waiting : length p.queue ≡ 0 = ap length q in
    let none_left : length p.unprocessed ≡ 0 = ap length run.none_left in
    record {
      counts = omega (arith, run.counts);
      room = run.room;
      past =
          All-map (λ x. (start ≤ℤ at x) × (at x ≤ℤ now)) (λ x. (start ≤ℤ at x) × (at x ≤ℤ end))
            (λ x h. (h.0, omega (arith, h.1))) p.processed run.past;
      past_sorted = run.past_sorted;
      left_over = rw run.none_left tt;
      later = run.later;
    }

-- It is left at a terminal event.
pub interrupt-IsDone :
    (start end limit : ℤ) (n : ℕ) (p : Processing) (e : QueueEntry) (rest : List QueueEntry)
    (s : WorldState)
    → at e ≤ℤ end
    → IsRunning start end limit (at e) n (take_entry p e rest s)
    → IsDone start end limit (interrupt p e rest s)
interrupt-IsDone start end limit n p e rest s by_end run =
    let taken = p.processed ++ e ∷ [] in
    let left = sort_by in_queue_order rest in
    record {
      counts =
          omega (arith, run.counts, length-queue_events left, length-sort_by in_queue_order rest);
      room = run.room;
      past =
          All-map (λ x. (start ≤ℤ at x) × (at x ≤ℤ at e)) (λ x. (start ≤ℤ at x) × (at x ≤ℤ end))
            (λ x h. (h.0, omega (arith, h.1))) taken run.past;
      past_sorted = run.past_sorted;
      left_over =
          All-queue_events
            (λ u. (u.at_elapsed_seconds ≤ℤ end) × All (λ x. at x ≤ℤ u.at_elapsed_seconds) taken)
            left
            (All-sort_by in_queue_order _ rest (
              All-map (λ x. (at e ≤ℤ at x) × (at x ≤ℤ end))
                (λ u. (at u ≤ℤ end) × All (λ x. at x ≤ℤ at u) taken)
                (λ u h. (
                  h.1,
                  All-map (λ x. (start ≤ℤ at x) × (at x ≤ℤ at e)) (λ x. at x ≤ℤ at u)
                      (λ x k. omega (arith, k.1, h.0)) taken run.past,
                ))
                rest run.future));
      later = run.later;
    }
