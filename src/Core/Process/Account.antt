-- ===== src/Core/Process/Account.antt =====
-- The loop keeps count of all events, and processes them in the order of time.

use sandboxengine.Prelude.{
  ℕ, suc, ◌+◌, ◌≡◌, refl, ap, ◌∙◌, Bool, none, List, [], ◌∷◌, ◌++◌, length, All, All-append, arith,
  Bool-cases, inl, inr, length-append,
}
use sandboxengine.Prelude.Int.{ℤ, pos, ◌≤ℤ◌, ◌<ℤ◌, leb_ℤ}
use sandboxengine.Prelude.Sort.{sort_by, insert_by}
use sandboxengine.Prelude.Sorting.{Pairs, Before, All-sort_by, sort_by-sorted}
use sandboxengine.Contracts.Event.{SchedulerEvent}
use sandboxengine.Core.Scheduler.{in_order}
use sandboxengine.Core.Process.{
  QueueEntry, Processing, in_queue_order, child_entry, add_child, refuse_child,
}
use sandboxengine.Core.Process.Queue.{in_queue_order_total, in_queue_order_trans}

abbrev pub at : QueueEntry → ℤ
at e = e.event.at_elapsed_seconds

abbrev pub InTime : QueueEntry → QueueEntry → Type 0
InTime a b = at a ≤ℤ at b

pub length-insert_by :
    {A : Type 0} (le : A → A → Bool) (x : A) (xs : List A)
    → length (insert_by le x xs) ≡ suc (length xs)
length-insert_by le x [] = refl
length-insert_by le x (y ∷ ys) = elim (Bool-cases (le x y)) [
  | inl e ↦ rw e refl
  | inr e ↦ rw e (ap suc (length-insert_by le x ys))
]

pub length-sort_by :
    {A : Type 0} (le : A → A → Bool) (xs : List A) → length (sort_by le xs) ≡ length xs
length-sort_by le [] = refl
length-sort_by le (x ∷ xs) = length-insert_by le x (sort_by le xs) ∙ ap suc (length-sort_by le xs)

-- While the loop runs, at the time `now` of the event that is being processed, after `n` rounds: no event is lost and
-- their number is within the limit; the processed events are in the order of time, and the queue
-- holds those from now to the end, in its order; the pending ones are after the end.
pub record IsRunning (start end limit now : ℤ) (n : ℕ) (p : Processing) : Type 0 where
  pub taken : length p.processed ≡ n
  pub none_left : p.unprocessed ≡ []
  pub counts : length p.processed + (length p.queue + length p.pending) ≡ p.total
  pub room : pos p.total ≤ℤ limit
  pub past : All (λ e. (start ≤ℤ at e) × (at e ≤ℤ now)) p.processed
  pub past_sorted : Pairs InTime p.processed
  pub future : All (λ e. (now ≤ℤ at e) × (at e ≤ℤ end)) p.queue
  pub queue_sorted : Pairs (Before in_queue_order) p.queue
  pub later : All (λ e. end <ℤ e.at_elapsed_seconds) p.pending

pub add_child-IsRunning :
    (start end limit : ℤ) (n : ℕ) (parent : QueueEntry) (c : SchedulerEvent) (p : Processing)
    → IsRunning start end limit (at parent) n p
    → refuse_child parent limit p c ≡ none
    → IsRunning start end limit (at parent) n (add_child parent end p c)
unfolding add_child refuse_child child_entry
add_child-IsRunning start end limit n parent c p run h =
    let in_past : at parent ≤ℤ c.at_elapsed_seconds = ground arith in
    let room : pos (suc p.total) ≤ℤ limit = ground arith in
    let entry = child_entry parent c p.next_sequence in
    elim (Bool-cases (leb_ℤ c.at_elapsed_seconds end)) [
      | inl e ↦ rw e (record {
        taken = run.taken;
        none_left = run.none_left;
        counts = omega (
          arith,
          run.counts,
          length-sort_by in_queue_order (p.queue ++ entry ∷ []),
          length-append p.queue (entry ∷ []),
        );
        room = room;
        past = run.past;
        past_sorted = run.past_sorted;
        future =
            All-sort_by in_queue_order (λ e. (at parent ≤ℤ at e) × (at e ≤ℤ end))
              (p.queue ++ entry ∷ [])
              (All-append (λ e. (at parent ≤ℤ at e) × (at e ≤ℤ end)) p.queue (entry ∷ []) run.future
                ((in_past, ground arith), tt));
        queue_sorted =
            sort_by-sorted in_queue_order in_queue_order_total in_queue_order_trans
              (p.queue ++ entry ∷ []);
        later = run.later;
      })
      | inr e ↦ rw e (record {
        taken = run.taken;
        none_left = run.none_left;
        counts = omega (
          arith,
          run.counts,
          length-sort_by in_order (p.pending ++ c ∷ []),
          length-append p.pending (c ∷ []),
        );
        room = room;
        past = run.past;
        past_sorted = run.past_sorted;
        future = run.future;
        queue_sorted = run.queue_sorted;
        later =
            All-sort_by in_order (λ e. end <ℤ e.at_elapsed_seconds) (p.pending ++ c ∷ [])
              (All-append (λ e. end <ℤ e.at_elapsed_seconds) p.pending (c ∷ []) run.later
                (ground arith, tt));
      })
    ]
