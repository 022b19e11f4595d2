-- ===== src/Tests/LinkCp.antt =====
-- A file of ten bytes copied by examples/link-cp.c
use liburing.Common.{ℕ, length, refl, true, false, [], ◌∷◌}
use liburing.Common.Int.{pos, neg}
use liburing.Common.Window.{upd}
use liburing.Abi.Errno
use liburing.LinkCp.{
  Copy, Request, IoData, State, begin, copy_file, outer, queued_all, queue_pairs, queue_rw_pair,
  step, handled, handle_cqe, counted_up,
}
use liburing.LinkCp.Runs.{Run, start, completes, IsGood, Run-IsGood}
use liburing.LinkCp.Stuck.{IsStuck, now, cancelled-stays}

-- Every request is submitted at once.
abbrev accepts_all : Copy → ℕ
accepts_all c = length c.prepared

abbrev ten : IoData
ten = record { at = 0; offset = 0; iov_len = 10 }

abbrev reads : Request
reads = record { is_write = false; io = ten }

abbrev writes : Request
writes = record { is_write = true; io = ten }

abbrev both : Copy
both = record (begin 10) {
  insize = 0;
  offset = 10;
  inflight = 2;
  submitted = reads ∷ writes ∷ [];
  index = upd (λ at. 0) 0 0;
  allocated = 1;
}

abbrev has_read : Copy
has_read = record (counted_up reads both) { inflight = 1; submitted = writes ∷ [] }

abbrev has_written : Copy
has_written = record (counted_up writes has_read) { inflight = 0; submitted = []; freed = 0 ∷ [] }

after_start : Run accepts_all 10 [] (State.waits both)
unfolding copy_file outer queue_pairs queue_rw_pair queued_all
after_start = start

after_read : Run accepts_all 10 (reads ∷ []) (State.waits has_read)
unfolding step handle_cqe handled
after_read = completes [] reads (writes ∷ []) (pos 10) after_start refl (λ e. refl)

after_write : Run accepts_all 10 (writes ∷ reads ∷ []) (State.returns (pos 0) has_written)
unfolding step handle_cqe handled outer
after_write = completes [] writes [] (pos 10) after_read refl (λ e. refl)

Run-IsGood_example : IsGood 10 (writes ∷ reads ∷ []) (State.returns (pos 0) has_written)
Run-IsGood_example = Run-IsGood after_write

cancelled-stays_example :
    IsStuck (step accepts_all (record has_read { submitted = [] }) writes (neg Errno.ecanceled))
cancelled-stays_example = cancelled-stays [] writes [] after_read refl refl now
