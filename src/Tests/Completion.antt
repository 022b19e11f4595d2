-- ===== src/Tests/Completion.antt =====
-- Runs of the completion side.
use liburing.Common.{◌≤◌, ◌≡◌, refl, some, none, arith, [], ◌∷◌, slot, has}
use liburing.Common.Int.{pos}
use liburing.Ring.{Ring}
use liburing.Completion.{Peeked, cq_ready, cq_advance, cqe_index, peek_cqes, peek_loop, is_internal}
use liburing.Completion.Fifo.{Run, start, next, post, advance, post_cqe, Kept, completion_fifo}
use liburing.Completion.Peek.{Found, peek_cqes-Found}
use liburing.Tests.Data.{small, small-IsCq, answers}

-- The kernel posts a CQE, and the application takes two.
abbrev posted : Ring
posted = post_cqe small (answers 9)

two_steps : Run small (answers 9 ∷ []) (answers 7 ∷ answers 0 ∷ []) (cq_advance posted 2)
unfolding cq_ready cqe_index slot has
two_steps = next (next start (post (answers 9) (omega arith))) (advance 2 (omega arith))

completion_fifo_example :
    Kept 3 (answers 9 ∷ []) (answers 7 ∷ answers 0 ∷ []) small (cq_advance posted 2)
completion_fifo_example = completion_fifo small-IsCq two_steps

peek_cqes-Found_example : (p : Peeked) × (peek_cqes small ≡ some p) × Found 3 small p
peek_cqes-Found_example = peek_cqes-Found small-IsCq

peek_small :
    peek_cqes small ≡ some (record { err = pos 0; cqe = some 7; available = 2; ring = small })
unfolding peek_cqes peek_loop cq_ready cqe_index is_internal slot has
peek_small = refl

two_wait : 1 ≤ cq_ready small
unfolding cq_ready
two_wait = omega arith

-- A kernel without the flag word.
abbrev plain : Ring
plain = record small { cq = record small.cq { kflags = none } }
