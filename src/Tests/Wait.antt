-- ===== src/Tests/Wait.antt =====
-- Runs of the waiting functions, with a kernel that fills the completion ring.
use liburing.Common.{
  ℕ, ◌≤◌, ◌+◌, ◌-◌, ◌≡◌, refl, ap, ◌∙◌, true, false, some, arith, ◌++◌, List, add32, sub32, ltb,
  slot, if◌then◌else◌, has,
}
use liburing.Common.Int.{pos, neg}
use liburing.Common.Window.{window, window-append}
use liburing.Abi.Feat
use liburing.Sqe.{Cqe}
use liburing.Ring.{Ring, Kernel, EnterArg, EnterCall, sys_enter2}
use liburing.Completion.{
  cq_ready, cqe_index, peek_cqes, peek_loop, is_internal, cq_ring_needs_enter,
}
use liburing.Submission.{sq_ring_needs_enter}
use liburing.Completion.Inv.{IsCq, ready_cqes}
use liburing.Wait.{
  GetData, Got, get_cqe_loop, get_cqe_round, flags_round, enter_round, run_get_data, wait_cqe_nr,
  peek_batch_cqe,
}
use liburing.Wait.Sound.{IsSound, IsFirst, run_get_data-IsFirst}
use liburing.Wait.Ends.{queue_length, IsPassive, IsLive, run_get_data-some}
use liburing.Wait.Answer.{IsWilling, wait_cqe_nr-answered}
use liburing.Wait.Batch.{IsBatch, peek_batch_cqe-IsBatch}
use liburing.Tests.Data.{small, small-IsCq}

-- It takes the SQEs that there are, as many as it is to submit, and has completions appended until those that it is to
-- wait for are there; a wait for more than fits is refused.
abbrev consumes : EnterCall → Ring → ℕ
consumes call r = if ltb (queue_length r) call.to_submit then queue_length r else call.to_submit

abbrev fills_to : EnterCall → Ring → ℕ
fills_to call r =
    if ltb r.cq.ring_entries call.min_complete
    then r.cq.ktail
    else if ltb (sub32 r.cq.ktail r.cq.khead) call.min_complete
    then add32 r.cq.khead call.min_complete
    else r.cq.ktail

abbrev filling : Kernel
filling call r = (
  if ltb r.cq.ring_entries call.min_complete then neg 16 else pos (consumes call r),
  record {
    sq_khead =
        if ltb r.cq.ring_entries call.min_complete
        then r.sq.khead
        else add32 r.sq.khead (consumes call r);
    sq_kflags = r.sq.kflags;
    cq_ktail = fills_to call r;
    cqes = r.cq.cqes;
  },
)

module _ (call : EnterCall) (r : Ring) (v : IsCq 3 r) where
  ready_before : ℕ
  ready_before = sub32 r.cq.ktail r.cq.khead

  ready_after : ℕ
  ready_after = sub32 (fills_to call r) r.cq.khead

  grows :
      (sub32 r.cq.ktail r.cq.khead ≤ sub32 (fills_to call r) r.cq.khead)
      × (sub32 (fills_to call r) r.cq.khead ≤ 8)
  grows = ground (arith, v.entries, v.bounded, v.khead_fits, v.ktail_fits)

  filling-keeps : IsCq 3 (sys_enter2 filling call r).1
  unfolding sys_enter2
  filling-keeps = record {
    narrow = v.narrow;
    entries = v.entries;
    mask = v.mask;
    khead_fits = v.khead_fits;
    ktail_fits = ground (arith, v.ktail_fits);
    bounded = grows.1;
  }

  filling-appends :
      (new : List Cqe) × (ready_cqes (sys_enter2 filling call r).1 ≡ ready_cqes r ++ new)
  unfolding sys_enter2 cqe_index
  filling-appends =
      let n = sub32 r.cq.ktail r.cq.khead in
      let m = sub32 (fills_to call r) r.cq.khead in
      (
        window (cqe_index r) r.cq.cqes (add32 r.cq.khead n) (m - n),
        ap (window (cqe_index r) r.cq.cqes r.cq.khead)
              (let e : m ≡ n + (m - n) = omega (arith, grows.0) in e)
            ∙ window-append (cqe_index r) r.cq.cqes r.cq.khead n (m - n) v.khead_fits,
      )

filling-IsSound : IsSound 3 filling
filling-IsSound = record { keeps = filling-keeps; appends = filling-appends }

filling-IsLive : IsLive 3 filling
unfolding sys_enter2 cq_ready
filling-IsLive = record {
  at_most = λ call r n v p e. ground (arith, e);
  consumed = λ call r n v p e. ground (arith, e);
  some_taken = λ call r n v p e. ground (arith, e);
  waited = λ call r v p g z le e. ground (arith, e, le, v.entries, v.khead_fits);
}

-- `io_uring_wait_cqe_nr` for three completions, with one SQE to submit
abbrev three : GetData
three = record { wait_nr = 3; get_flags = 0; sz = 8; has_ts = false; arg = EnterArg.sigset 0 }

kernel_waits : has small.features Feat.ext_arg ≡ true
unfolding has
kernel_waits = refl

small-IsPassive : IsPassive small
unfolding has
small-IsPassive = (refl, refl)

run_get_data-some_example : (g : Got) × (run_get_data filling three 5 small 1 ≡ some g)
run_get_data-some_example =
    run_get_data-some filling-IsSound filling-IsLive three 5 1 (omega arith) small-IsCq kernel_waits
      small-IsPassive (omega arith) (omega arith)

-- One call submits it and waits for three.
abbrev ended : Ring
unfolding sys_enter2
ended =
    (sys_enter2 filling
      (record {
        fd = pos 5;
        to_submit = 1;
        min_complete = 3;
        flags = 1;
        arg = EnterArg.sigset 0;
        sz = 8;
      })
      small).1

wait_run :
    run_get_data filling three 5 small 1 ≡ some (record { err = pos 0; cqe = some 7; ring = ended })
unfolding run_get_data get_cqe_loop get_cqe_round flags_round enter_round peek_cqes peek_loop
    cq_ready cqe_index is_internal sq_ring_needs_enter cq_ring_needs_enter sys_enter2 slot has
wait_run = refl

run_get_data-IsFirst_example : IsFirst ended (some 7)
run_get_data-IsFirst_example =
    run_get_data-IsFirst filling-IsSound three 5 1 (λ e. cc) (λ e. cc) small-IsCq wait_run refl

filling-IsWilling : IsWilling 3 filling
unfolding sys_enter2
filling-IsWilling = record {
  succeeds = λ call r v p z le. (consumes call r, ground (arith, v.entries, le));
}

wait_cqe_nr-answered_example :
    (g : Got) × (wait_cqe_nr filling 2 small 3 ≡ some g) × (g.err ≡ pos 0) × IsFirst g.ring g.cqe
wait_cqe_nr-answered_example =
    wait_cqe_nr-answered filling-IsSound filling-IsLive filling-IsWilling 2 3 (λ e. cc)
      (omega arith) small-IsCq kernel_waits small-IsPassive (omega arith)

peek_batch_cqe-IsBatch_example :
    IsBatch 1 small (peek_batch_cqe filling small 1).0 (peek_batch_cqe filling small 1).1
peek_batch_cqe-IsBatch_example = peek_batch_cqe-IsBatch filling-IsSound 1 small-IsCq
