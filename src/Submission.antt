-- ===== src/Submission.antt =====
-- The submission side of the ring that makes no system call: `_io_uring_get_sqe`, `io_uring_sq_ready`,
-- `io_uring_sq_space_left` of src/include/liburing.h, and `__io_uring_flush_sq` and
-- `sq_ring_needs_enter` of src/queue.c. Whether an access is an atomic load, a release store or
-- a plain one makes no difference to the value here.
pub mod Inv
pub mod Steps
pub mod Fifo
pub mod Refine
pub mod Pending
use liburing.Common.{
  ℕ, Bool, true, false, Option, none, some, ◌==◌, if◌then◌else◌, leb, has, bit_or, add32, sub32,
  slot,
}
use liburing.Abi.Setup
use liburing.Abi.Enter
use liburing.Abi.Shared
use liburing.Ring.{Ring, sqe_shift}

-- `_io_uring_get_sqe`: the index of a vacant SQE, or `none` if the ring is full.
unfoldable pub get_sqe : Ring → Option ℕ × Ring
get_sqe r =
    let sq = r.sq in
    let next = add32 sq.sqe_tail 1 in
    if leb (sub32 next sq.khead) sq.ring_entries
    then (
      some (slot sq.ring_mask (sqe_shift r) sq.sqe_tail),
      record r { sq = record sq { sqe_tail = next } },
    )
    else (none, r)

-- `__io_uring_flush_sq`
unfoldable pub flush_sq : Ring → ℕ × Ring
flush_sq r =
    let sq = r.sq in
    let tail = sq.sqe_tail in
    let r' =
      if sq.sqe_head == tail
      then r
      else record r { sq = record sq { sqe_head = tail; ktail = tail } } in
    (sub32 tail sq.khead, r')

-- `io_uring_sq_ready`
unfoldable pub sq_ready : Ring → ℕ
sq_ready r = sub32 r.sq.sqe_tail r.sq.khead

-- `io_uring_sq_space_left`
unfoldable pub sq_space_left : Ring → ℕ
unfolding sq_ready
sq_space_left r = sub32 r.sq.ring_entries (sq_ready r)

-- `sq_ring_needs_enter`, with the flags that it leaves in `*flags`.
unfoldable pub sq_ring_needs_enter : Ring → (submit flags : ℕ) → Bool × ℕ
sq_ring_needs_enter r submit flags =
    if submit == 0
    then (false, flags)
    else if has r.flags Setup.sqpoll
    then (if has r.sq.kflags Shared.sq_need_wakeup
        then (true, bit_or flags Enter.sq_wakeup)
        else (false, flags))
    else (true, flags)
