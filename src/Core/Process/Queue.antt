-- ===== src/Core/Process/Queue.antt =====
-- The comparison of queue entries is a total order, first by time.

use sandboxengine.Prelude.{ℕ, ◌≡◌, Bool, true, false, leb, arith, if◌then◌else◌}
use sandboxengine.Prelude.Int.{ℤ, ◌≤ℤ◌, ltb_ℤ, eqb_ℤ}
use sandboxengine.Core.Process.{QueueEntry, in_queue_order}

abbrev queue_lex : ℤ → ℤ → ℤ → ℤ → ℕ → ℕ → Bool
queue_lex a b c d m n = if eqb_ℤ a b then (if eqb_ℤ c d then leb m n else ltb_ℤ c d) else ltb_ℤ a b

queue_lex_total :
    (a b c d : ℤ) (m n : ℕ) → queue_lex a b c d m n ≡ false → queue_lex b a d c n m ≡ true
queue_lex_total a b c d m n h = ground arith

queue_lex_trans :
    (a b c d e f : ℤ) (l m n : ℕ)
    → queue_lex a b d e l m ≡ true
    → queue_lex b c e f m n ≡ true
    → queue_lex a c d f l n ≡ true
queue_lex_trans a b c d e f l m n h k = ground arith

pub in_queue_order_total :
    (a b : QueueEntry) → in_queue_order a b ≡ false → in_queue_order b a ≡ true
unfolding in_queue_order
in_queue_order_total a b h =
    queue_lex_total a.event.at_elapsed_seconds b.event.at_elapsed_seconds a.effective_order
      b.effective_order a.sequence b.sequence h

pub in_queue_order_trans :
    (a b c : QueueEntry)
    → in_queue_order a b ≡ true
    → in_queue_order b c ≡ true
    → in_queue_order a c ≡ true
unfolding in_queue_order
in_queue_order_trans a b c h k =
    queue_lex_trans a.event.at_elapsed_seconds b.event.at_elapsed_seconds c.event.at_elapsed_seconds
      a.effective_order b.effective_order c.effective_order a.sequence b.sequence c.sequence h k

-- An entry is not after the ones behind it in the queue.
pub in_queue_order_time :
    (a b : QueueEntry)
    → in_queue_order a b ≡ true
    → a.event.at_elapsed_seconds ≤ℤ b.event.at_elapsed_seconds
unfolding in_queue_order
in_queue_order_time a b h = ground arith
