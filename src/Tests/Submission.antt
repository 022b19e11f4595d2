-- ===== src/Tests/Submission.antt =====
-- Runs of the submission side.
use liburing.Common.{List, inl, slot, has, ◌≡◌, refl, inr, [], ◌∷◌}
use liburing.Common.Int.{pos}
use liburing.Ring.{Ring, sys_enter2}
use liburing.Completion.{cq_ring_needs_enter}
use liburing.Submit.{submit_and_wait, submit_flushed}
use liburing.Submit.Call.{HandedOver, submit_and_wait-HandedOver}
use liburing.Submission.{get_sqe, flush_sq, sq_ring_needs_enter}
use liburing.Submission.Steps.{
  Event, Run, start, next, take, write, flush, consume, take_head, write_sqe, unflushed_places,
}
use liburing.Submission.Fifo.{IsDirect, Kept, submission_fifo, handed}
use liburing.Submission.Refine.{queues, Moves, Run-Moves}
use liburing.Tests.Data.{small, small-IsSq, numbered, takes_all}

small-IsDirect : IsDirect small
small-IsDirect j le = inr refl

-- The application gets another SQE, writes it through the pointer and flushes, and the kernel takes SQE 2.
abbrev filled : Ring
filled = write_sqe (handed small) 0 (numbered 9)

abbrev told : Ring
told = (flush_sq filled).1

abbrev events : List Event
events =
    Event.got 0
    ∷ Event.wrote 0 (numbered 9)
    ∷ Event.flushed_all (numbered 3 ∷ numbered 9 ∷ [])
    ∷ Event.took (numbered 2)
    ∷ []

four_steps : Run small (3 ∷ []) events (take_head told) []
unfolding get_sqe flush_sq slot has
four_steps =
    next (next (next (next start (take refl)) (write 0 (numbered 9) (inr (inl refl)))) flush)
      (consume (λ e. cc))

small_held : 3 ∷ [] ≡ unflushed_places small
unfolding slot has
small_held = refl

submission_fifo_example : Kept 2 events small (take_head told) []
submission_fifo_example = submission_fifo small-IsSq small-IsDirect small_held four_steps

Run-Moves_example : Moves 4 (queues small) events (queues (take_head told))
Run-Moves_example = Run-Moves small-IsSq small-IsDirect small_held four_steps

submit_and_wait-HandedOver_example :
    HandedOver small 1 (submit_and_wait takes_all small 1).0 (submit_and_wait takes_all small 1).1
submit_and_wait-HandedOver_example = submit_and_wait-HandedOver takes_all small 1 refl

submit_takes_all : (submit_and_wait takes_all small 1).0 ≡ pos 2
unfolding submit_and_wait submit_flushed flush_sq sq_ring_needs_enter cq_ring_needs_enter sys_enter2
    has
submit_takes_all = refl
