-- ===== src/Wait.antt =====
-- The functions of src/queue.c and src/include/liburing.h that wait for completions.
pub mod Sound
pub mod Plain
pub mod Ends
pub mod Answer
pub mod Batch
use liburing.Common.{
  ℕ, zero, suc, ◌+◌, Bool, true, false, not, ◌&&◌, ◌||◌, Option, none, some, List, [], ◌∷◌, ◌==◌,
  if◌then◌else◌, ltb, has, bit_or, add32, sub32,
}
use liburing.Common.Int.{ℤ, pos, negsuc, neg, u32, is_neg, is_nonzero}
use liburing.Abi.Enter
use liburing.Abi.Errno
use liburing.Abi.Feat
use liburing.Ring.{Ring, Kernel, EnterArg, EnterCall, sys_enter2}
use liburing.Submission.{flush_sq, sq_ring_needs_enter}
use liburing.Completion.{
  Peeked, cq_ready, cqe_index, peek_cqes, cq_ring_needs_enter, cq_ring_needs_flush,
}
use liburing.Submit.{sigset_size, enter_flags, get_events, submit_timeout}

-- `struct get_data`; `submit`, which the loop changes, is a local of it.
pub record GetData : Type 0 where
  pub wait_nr : ℕ
  pub get_flags : ℕ
  pub sz : ℕ
  pub has_ts : Bool
  pub arg : EnterArg

-- `sizeof(struct io_uring_getevents_arg)`
abbrev pub sizeof_getevents_arg : ℕ
sizeof_getevents_arg = 24

-- What `_io_uring_get_cqe` returns and stores, and the ring that it leaves.
pub record Got : Type 0 where
  pub err : ℤ
  pub cqe : Option ℕ
  pub ring : Ring

-- The locals of the loop that one round hands to the next.
pub record Locals : Type 0 where
  pub ring : Ring
  pub submit : ℕ
  pub looped : Bool
  pub err : ℤ

pub data Round : Type 0 where
  stop : Got → Round
  again : Locals → Round

-- `if (!err) err = e;`
abbrev pub first_err : ℤ → ℤ → ℤ
first_err err e = if is_nonzero err then err else e

abbrev pub is_none : Option ℕ → Bool
is_none none = true
is_none (some _) = false

-- `arg->ts`
abbrev pub arg_ts : EnterArg → ℕ
arg_ts (EnterArg.sigset _) = 0
arg_ts (EnterArg.getevents _ _ ts) = ts

-- The error at the end of a timeout.
abbrev pub timeout_err : GetData → Option ℕ → ℤ → ℤ
timeout_err d cqe err =
    if is_none cqe && not (arg_ts d.arg == 0) && not (is_nonzero err) then neg Errno.etime else err

module _ (kernel : Kernel) (d : GetData) where
  -- The round from the system call on, in the ring `r` after the peek.
  unfoldable pub enter_round : Locals → Ring → Option ℕ → (flags : ℕ) → Round
  enter_round l r cqe flags =
      let (ret, r') =
        sys_enter2 kernel
          (record {
            fd = r.enter_ring_fd;
            to_submit = l.submit;
            min_complete = d.wait_nr;
            flags = enter_flags r flags;
            arg = d.arg;
            sz = d.sz;
          })
          r in
      if is_neg ret
      then Round.stop (record { err = first_err l.err ret; cqe = cqe; ring = r' })
      else if not (is_none cqe)
      then Round.stop (record { err = l.err; cqe = cqe; ring = r' })
      else Round.again (record {
        ring = r';
        submit = sub32 l.submit (u32 ret);
        looped = true;
        err = if l.looped then l.err else ret;
      })

  -- The round from the computation of the flags on. `idle` is the `need_enter` of the first test.
  unfoldable pub flags_round : Locals → Peeked → (idle : Bool) → Round
  unfolding enter_round
  flags_round l p idle =
      let waits = ltb p.available d.wait_nr || idle in
      let flags = if waits then bit_or Enter.getevents d.get_flags else 0 in
      let (submits, flags') = sq_ring_needs_enter p.ring l.submit flags in
      if not (waits || submits)
      then Round.stop (record { err = l.err; cqe = p.cqe; ring = p.ring })
      else (if l.looped && d.has_ts
          then Round.stop (record { err = timeout_err d p.cqe l.err; cqe = p.cqe; ring = p.ring })
          else enter_round l p.ring p.cqe flags')

  -- One round of the loop of `_io_uring_get_cqe`, after its peek.
  unfoldable pub get_cqe_round : Locals → Peeked → Round
  unfolding flags_round
  get_cqe_round l p =
      let idle = is_none p.cqe && d.wait_nr == 0 && l.submit == 0 in
      if is_nonzero p.err
      then Round.stop (record { err = first_err l.err p.err; cqe = p.cqe; ring = p.ring })
      else (if idle && (l.looped || not (cq_ring_needs_enter p.ring))
          then Round.stop
              (record { err = first_err l.err (neg Errno.eagain); cqe = p.cqe; ring = p.ring })
          else flags_round l p idle)

  -- The loop, on fuel; `none` means that the fuel ran out.
  unfoldable pub get_cqe_loop : ℕ → Locals → Option Got
  get_cqe_loop zero l = none
  get_cqe_loop (suc fuel) l = elim (peek_cqes l.ring) [
    | none ↦ none
    | some p ↦ elim (get_cqe_round l p) [
      | Round.stop g ↦ some g
      | Round.again l' ↦ get_cqe_loop fuel l'
    ]
  ]

  -- `_io_uring_get_cqe`
  unfoldable pub run_get_data : ℕ → Ring → (submit : ℕ) → Option Got
  unfolding get_cqe_loop get_cqe_round
  run_get_data fuel r submit =
      get_cqe_loop fuel (record { ring = r; submit = submit; looped = false; err = pos 0 })

module _ (kernel : Kernel) (fuel : ℕ) where
  -- `__io_uring_get_cqe`
  unfoldable pub get_cqe : Ring → (submit wait_nr sigmask : ℕ) → Option Got
  unfolding run_get_data
  get_cqe r submit wait_nr sigmask =
      run_get_data kernel
        (record {
          wait_nr = wait_nr;
          get_flags = 0;
          sz = sigset_size;
          has_ts = false;
          arg = EnterArg.sigset sigmask;
        })
        fuel r submit

  -- The `struct get_data` of the calls that pass a timeout to the kernel.
  abbrev pub timed : (wait_nr ts sigmask : ℕ) → GetData
  timed wait_nr ts sigmask = record {
    wait_nr = wait_nr;
    get_flags = Enter.ext_arg;
    sz = sizeof_getevents_arg;
    has_ts = not (ts == 0);
    arg = EnterArg.getevents sigmask sigset_size ts;
  }

  -- `io_uring_wait_cqes_new`
  unfoldable pub wait_cqes_new : Ring → (wait_nr ts sigmask : ℕ) → Option Got
  unfolding run_get_data
  wait_cqes_new r wait_nr ts sigmask = run_get_data kernel (timed wait_nr ts sigmask) fuel r 0

  -- The timeout that the library queues, and the wait that follows it.
  unfoldable pub wait_after_timeout : Ring → (wait_nr ts sigmask : ℕ) → Option Got
  unfolding get_cqe
  wait_after_timeout r wait_nr ts sigmask =
      let (to_submit, r') = submit_timeout kernel r wait_nr ts in
      if is_neg to_submit
      then some (record { err = to_submit; cqe = none; ring = r' })
      else get_cqe r' (u32 to_submit) wait_nr sigmask

  -- `io_uring_wait_cqes`; where it returns early, it leaves `*cqe_ptr` as it was, which is `none` here.
  unfoldable pub wait_cqes : Ring → (wait_nr ts sigmask : ℕ) → Option Got
  unfolding get_cqe wait_cqes_new wait_after_timeout
  wait_cqes r wait_nr ts sigmask =
      if ts == 0
      then get_cqe r 0 wait_nr sigmask
      else if has r.features Feat.ext_arg
      then wait_cqes_new r wait_nr ts sigmask
      else wait_after_timeout r wait_nr ts sigmask

  -- `io_uring_submit_and_wait_timeout`
  unfoldable pub submit_and_wait_timeout : Ring → (wait_nr ts sigmask : ℕ) → Option Got
  unfolding get_cqe wait_after_timeout run_get_data
  submit_and_wait_timeout r wait_nr ts sigmask =
      let (ready, r') = flush_sq r in
      if ts == 0
      then get_cqe r' ready wait_nr sigmask
      else if has r.features Feat.ext_arg
      then run_get_data kernel (timed wait_nr ts sigmask) fuel r' ready
      else wait_after_timeout r wait_nr ts sigmask

  -- `io_uring_wait_cqe_timeout`
  unfoldable pub wait_cqe_timeout : Ring → (ts : ℕ) → Option Got
  unfolding wait_cqes
  wait_cqe_timeout r ts = wait_cqes r 1 ts 0

  -- `io_uring_wait_cqe_nr`
  unfoldable pub wait_cqe_nr : Ring → (wait_nr : ℕ) → Option Got
  unfolding get_cqe
  wait_cqe_nr r wait_nr = get_cqe r 0 wait_nr 0

  -- `io_uring_peek_cqe` (with 0) and `io_uring_wait_cqe` (with 1): a peek, then the full wait.
  unfoldable pub peek_then_wait : Ring → (wait_nr : ℕ) → Option Got
  unfolding wait_cqe_nr
  peek_then_wait r wait_nr = elim (peek_cqes r) [
    | none ↦ none
    | some p ↦
        if not (is_nonzero p.err) && not (is_none p.cqe)
        then some (record { err = pos 0; cqe = p.cqe; ring = p.ring })
        else wait_cqe_nr p.ring wait_nr
  ]

  unfoldable pub peek_cqe : Ring → Option Got
  unfolding peek_then_wait
  peek_cqe r = peek_then_wait r 0

  unfoldable pub wait_cqe : Ring → Option Got
  unfolding peek_then_wait
  wait_cqe r = peek_then_wait r 1

-- The loop that fills the array of `io_uring_peek_batch_cqe`: `count` indices from `head` on.
unfoldable pub fill_batch : Ring → (head count : ℕ) → List ℕ
fill_batch r head zero = []
fill_batch r head (suc count) = cqe_index r head ∷ fill_batch r (add32 head 1) count

-- The batch that is ready now, as far as there is room for it.
unfoldable pub ready_batch : Ring → (count : ℕ) → List ℕ
unfolding fill_batch cq_ready
ready_batch r count =
    let ready = cq_ready r in fill_batch r r.cq.khead (if ltb ready count then ready else count)

-- `io_uring_peek_batch_cqe`: the CQEs put into the array, whose number it returns, and the ring.
unfoldable pub peek_batch_cqe : Kernel → Ring → (count : ℕ) → List ℕ × Ring
unfolding ready_batch
peek_batch_cqe kernel r count =
    if not (cq_ready r == 0)
    then (ready_batch r count, r)
    else if cq_ring_needs_flush r
    then (let (_, r') = get_events kernel r in (ready_batch r' count, r'))
    else ([], r)
