-- ===== src/Submit.antt =====
-- The functions of src/queue.c that hand SQEs to the kernel by io_uring_enter(2).
pub mod Call
pub mod Hands
pub mod Timeout
use liburing.Common.{ℕ, Bool, true, false, not, ◌||◌, none, some, ◌==◌, if◌then◌else◌, has, bit_or}
use liburing.Common.Int.{ℤ, pos, neg, s32, is_neg}
use liburing.Abi.Enter
use liburing.Abi.Errno
use liburing.Abi.IntFlag
use liburing.Abi.Setup
use liburing.Ring.{Ring, Kernel, EnterArg, EnterCall, sys_enter2}
use liburing.Submission.{get_sqe, flush_sq, sq_ring_needs_enter, sq_space_left}
use liburing.Submission.Steps.{write_sqe}
use liburing.Completion.{cq_ring_needs_enter, udata_timeout}
use liburing.Sqe.Base.{sqe_set_data64}
use liburing.Sqe.Prep.Event.{prep_timeout}

-- `_NSIG / 8`, the size of a signal mask
abbrev pub sigset_size : ℕ
sigset_size = 8

-- `if (ring->int_flags & INT_FLAG_REG_RING) flags |= IORING_ENTER_REGISTERED_RING;`
abbrev pub enter_flags : Ring → ℕ → ℕ
enter_flags r flags =
    if has r.int_flags IntFlag.reg_ring then bit_or flags Enter.registered_ring else flags

-- The arguments of `__sys_io_uring_enter`, which passes no signal mask.
abbrev pub plain_call : Ring → (to_submit min_complete flags : ℕ) → EnterCall
plain_call r to_submit min_complete flags = record {
  fd = r.enter_ring_fd;
  to_submit = to_submit;
  min_complete = min_complete;
  flags = flags;
  arg = EnterArg.sigset 0;
  sz = sigset_size;
}

module _ (kernel : Kernel) where
  -- `io_uring_get_events`
  unfoldable pub get_events : Ring → ℤ × Ring
  get_events r = sys_enter2 kernel (plain_call r 0 0 (enter_flags r Enter.getevents)) r

  -- `__io_uring_submit`, with the flags of the call
  unfoldable pub submit_flushed : Ring → (submitted wait_nr : ℕ) → (getevents : Bool) → ℤ × Ring
  submit_flushed r submitted wait_nr getevents =
      let cq_needs_enter = getevents || not (wait_nr == 0) || cq_ring_needs_enter r in
      let (sq_needs_enter, flags) = sq_ring_needs_enter r submitted 0 in
      let flags' = if cq_needs_enter then bit_or flags Enter.getevents else flags in
      if sq_needs_enter || cq_needs_enter
      then sys_enter2 kernel (plain_call r submitted wait_nr (enter_flags r flags')) r
      else (s32 submitted, r)

  -- `io_uring_submit_and_wait`, which is `__io_uring_submit_and_wait`
  unfoldable pub submit_and_wait : Ring → ℕ → ℤ × Ring
  submit_and_wait r wait_nr =
      let (submitted, r') = flush_sq r in submit_flushed r' submitted wait_nr false

  -- `io_uring_submit`
  unfoldable pub submit : Ring → ℤ × Ring
  submit r = submit_and_wait r 0

  -- `io_uring_submit_and_get_events`
  unfoldable pub submit_and_get_events : Ring → ℤ × Ring
  submit_and_get_events r = let (submitted, r') = flush_sq r in submit_flushed r' submitted 0 true

  -- `__io_uring_sqring_wait`
  unfoldable pub sqring_wait_enter : Ring → ℤ × Ring
  sqring_wait_enter r = sys_enter2 kernel (plain_call r 0 0 (enter_flags r Enter.sq_wait)) r

  -- `io_uring_sqring_wait`
  unfoldable pub sqring_wait : Ring → ℤ × Ring
  unfolding sqring_wait_enter
  sqring_wait r =
      if not (has r.flags Setup.sqpoll)
      then (pos 0, r)
      else if not (sq_space_left r == 0)
      then (pos 0, r)
      else sqring_wait_enter r

  -- The end of `__io_uring_submit_timeout`, once it has an SQE.
  unfoldable pub queue_timeout : Ring → (i wait_nr ts : ℕ) → ℤ × Ring
  queue_timeout r i wait_nr ts =
      let sqe = sqe_set_data64 (prep_timeout (r.sq.sqes i) ts wait_nr 0) udata_timeout in
      let (ready, r') = flush_sq (write_sqe r i sqe) in (s32 ready, r')

  -- The second attempt of `__io_uring_submit_timeout`, after it has submitted.
  unfoldable pub retry_timeout : ℤ × Ring → (wait_nr ts : ℕ) → ℤ × Ring
  unfolding queue_timeout
  retry_timeout (ret, r) wait_nr ts =
      if is_neg ret
      then (ret, r)
      else let (sqe, r') = get_sqe r in
        elim sqe [ some i ↦ queue_timeout r' i wait_nr ts | none ↦ (neg Errno.eagain, r') ]

  -- `__io_uring_submit_timeout`
  unfoldable pub submit_timeout : Ring → (wait_nr ts : ℕ) → ℤ × Ring
  unfolding queue_timeout retry_timeout
  submit_timeout r wait_nr ts =
      let (sqe, r') = get_sqe r in
      elim sqe [
        | some i ↦ queue_timeout r' i wait_nr ts
        | none ↦ retry_timeout (submit r') wait_nr ts
      ]
