-- ===== src/Tests/Cp.antt =====
-- `copy_file` of examples/io_uring-cp.c on small files.
use liburing.Common.{
  ℕ, ◌≡◌, refl, Bool, Option, some, none, true, false, List, [], ◌∷◌, arith, inl, ◌<◌, ◌+◌,
}
use liburing.Common.Int.{ℤ, pos, negsuc}
use liburing.Cp.{
  Copy, At, Event, queue_prepped, queue_read, next_read, queue_reads, to_drain, inner_first, outer,
  inner_next, requeue, finish, handle, handle_last, on_completion, step, copy_file, run, submit,
}
use liburing.Cp.Runs.{IsLegal}
use liburing.Cp.Ends.{IsRun, copy_file-copies, copy_file-ends}

abbrev infile : ℕ → ℕ
infile j = j + 7

abbrev blank : ℕ → ℕ
blank j = 0

abbrev alloc : Copy → Bool
alloc c = true

abbrev enter : Copy → ℤ
enter c = pos c.queued

-- A short read, the rest of it, and its write in the last loop
abbrev answers : List Event
answers = Event.completed 0 (pos 1) ∷ Event.completed 0 (pos 2) ∷ Event.completed 0 (pos 3) ∷ []

-- The result at a return, with a byte of the output
abbrev returned : At → ℕ → Option (ℤ × ℕ)
returned (At.done ret c) j = some (ret, c.out j)
returned a j = none

answers-copied :
    returned (run infile alloc enter (copy_file alloc enter blank 3) answers) 2 ≡ some (pos 0, 9)
unfolding queue_prepped queue_read next_read queue_reads to_drain inner_first outer inner_next
    requeue finish handle handle_last on_completion step copy_file run submit
answers-copied = refl

-- A write of two bytes in three in the last loop: the third byte is not copied, and the result is 0.
short_write-lost :
    returned
      (run infile alloc enter
        (copy_file alloc enter blank 3)
        (Event.completed 0 (pos 3) ∷ Event.completed 0 (pos 2) ∷ []))
      2
    ≡ some (pos 0, 0)
unfolding queue_prepped queue_read next_read queue_reads to_drain inner_first outer inner_next
    requeue finish handle handle_last on_completion step copy_file run submit
short_write-lost = refl

-- A failure of io_uring_submit ends the copy, and the result is 0.
submit_failure-lost : returned (copy_file alloc (λ c. negsuc 10) blank 3) 2 ≡ some (pos 0, 0)
unfolding queue_prepped queue_read next_read queue_reads to_drain inner_first outer inner_next
    requeue finish handle handle_last on_completion step copy_file run submit
submit_failure-lost = refl

answers-IsRun :
    (failing : Bool) → IsRun infile alloc enter failing (copy_file alloc enter blank 3) answers
unfolding IsRun IsLegal queue_prepped queue_read next_read queue_reads to_drain inner_first outer
    inner_next requeue finish handle handle_last on_completion step copy_file run submit
answers-IsRun failing = (
  (_, (refl, (omega arith, inl refl))),
  ((_, (refl, (omega arith, inl refl))), ((_, (refl, inl (refl, refl))), tt)),
)

abbrev end_state : Copy
end_state =
    (copy_file-ends infile 3 alloc enter blank answers (omega arith) (λ c. refl)
      (answers-IsRun false) (omega arith)).0

copy_file-ends_example :
    (c : Copy) × ((run infile alloc enter (copy_file alloc enter blank 3) answers
        ≡ At.done (pos 0) c)
      × ((j : ℕ) → j < 3 → c.out j ≡ infile j))
copy_file-ends_example =
    copy_file-ends infile 3 alloc enter blank answers (omega arith) (λ c. refl)
      (answers-IsRun false) (omega arith)

copy_file-copies_example : end_state.out 2 ≡ infile 2
copy_file-copies_example =
    copy_file-copies infile 3 alloc enter blank answers (omega arith) (λ c. refl)
      (answers-IsRun true) end_state
      (copy_file-ends infile 3 alloc enter blank answers (omega arith) (λ c. refl)
        (answers-IsRun false) (omega arith)).1.0
      2 (omega arith)
