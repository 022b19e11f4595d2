-- ===== src/Submit/Call.antt =====
-- What the functions that submit hand to the kernel.
use liburing.Common.{
  ℕ, ◌≡◌, refl, Bool, true, false, not, ◌||◌, ◌==◌, ==_iff, has, ◌∷◌, ◌⊎◌, inl, inr, arith,
  Bool-cases,
}
use liburing.Common.Int.{ℤ, s32}
use liburing.Abi.Setup
use liburing.Abi.Shared
use liburing.Ring.{Ring, Kernel, sys_enter2}
use liburing.Submission.{flush_sq, sq_ready, sq_ring_needs_enter}
use liburing.Completion.{cq_ring_needs_enter}
use liburing.Submit.{enter_flags, plain_call, submit_flushed, submit_and_wait}

-- Every SQE is flushed, and either there is one call, which passes the number of the SQEs that wait, or
-- there is none, nobody waits, and the submission needs none: it is empty, or the kernel's
-- thread is awake.
pub record HandedOver (r : Ring) (wait_nr : ℕ) (ret : ℤ) (r' : Ring) : Type 0 where
  pub told : r'.sq.ktail ≡ r.sq.sqe_tail
  pub flushed : r'.sq.sqe_head ≡ r.sq.sqe_tail
  pub entered :
      ((flags : ℕ) × (r'.calls ≡ plain_call r (sq_ready r) wait_nr (enter_flags r flags) ∷ r.calls))
      ⊎ ((r'.calls ≡ r.calls)
          × (ret ≡ s32 (sq_ready r))
          × (wait_nr ≡ 0)
          × ((sq_ready r ≡ 0)
              ⊎ ((has r.flags Setup.sqpoll ≡ true)
                  × (has r.sq.kflags Shared.sq_need_wakeup ≡ false))))

-- The ring after `__io_uring_flush_sq`.
abbrev told_all : Ring → Ring
told_all r = record r { sq = record r.sq { sqe_head = r.sq.sqe_tail; ktail = r.sq.sqe_tail } }

flush_sq-eq : (r : Ring) → r.sq.ktail ≡ r.sq.sqe_head → flush_sq r ≡ (sq_ready r, told_all r)
unfolding flush_sq sq_ready
flush_sq-eq r told = ground (arith, told)

needless :
    (r : Ring) (submitted flags : ℕ)
    → (sq_ring_needs_enter r submitted flags).0 ≡ false
    → (submitted ≡ 0)
      ⊎ ((has r.flags Setup.sqpoll ≡ true) × (has r.sq.kflags Shared.sq_need_wakeup ≡ false))
unfolding sq_ring_needs_enter
needless r submitted flags e = elim (Bool-cases (submitted == 0)) [
  | inl z ↦ inl ((==_iff submitted 0).0 z)
  | inr n ↦ inr (ground (arith, rw n at e))
]

nobody : (sq none cq : Bool) → sq || (not none || cq) ≡ false → none ≡ true
nobody sq true cq e = refl
nobody true false cq e = cc
nobody false false cq e = cc

-- Where the kernel has been told of what was flushed before, `io_uring_submit_and_wait` (with 0,
-- `io_uring_submit`) tells it of every SQE handed out, and calls io_uring_enter(2) once with
-- their number, or not at all, and then nobody waits and either there are none or the kernel's
-- polling thread is awake.
pub submit_and_wait-HandedOver :
    (kernel : Kernel) (r : Ring) (wait_nr : ℕ)
    → r.sq.ktail ≡ r.sq.sqe_head
    → HandedOver r wait_nr (submit_and_wait kernel r wait_nr).0 (submit_and_wait kernel r wait_nr).1
unfolding submit_and_wait submit_flushed sys_enter2
submit_and_wait-HandedOver kernel r wait_nr told =
    let s = told_all r in
    let cq = not (wait_nr == 0) || cq_ring_needs_enter s in
    let sq = (sq_ring_needs_enter s (sq_ready r) 0).0 in
    elim (Bool-cases (sq || cq)) [
      | inl e ↦
          rw (flush_sq-eq r told, e)
            (record { told = refl; flushed = refl; entered = inl (_, refl) })
      | inr e ↦
          rw (flush_sq-eq r told, e)
            (record {
              told = refl;
              flushed = refl;
              entered = inr (
                refl,
                refl,
                (==_iff wait_nr 0).0 (nobody sq (wait_nr == 0) (cq_ring_needs_enter s) e),
                needless s (sq_ready r) 0 (ground arith),
              );
            })
    ]
