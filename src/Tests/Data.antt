-- ===== src/Tests/Data.antt =====
-- A ring of four SQEs and eight CQEs, shortly before its completion counters wrap: the kernel has not taken
-- SQE 2, SQE 3 is not flushed, and two CQEs wait.
use liburing.Common.{ℕ, ◌-◌, ◌^◌, some, arith, [], sub32}
use liburing.Common.Int.{pos}
use liburing.Abi.Feat
use liburing.Sqe.{Sqe, Cqe}
use liburing.Sqe.Dispatch.{blank}
use liburing.Ring.{Ring, Sq, Cq, Kernel}
use liburing.Submit.Hands.{IsTaker}
use liburing.Submission.Inv.{IsSq}
use liburing.Completion.Inv.{IsCq}

abbrev pub numbered : ℕ → Sqe
numbered i = record blank { user_data = i }

abbrev pub answers : ℕ → Cqe
answers i = record { user_data = i; res = pos 0; flags = 0 }

abbrev pub small_sq : Sq
small_sq = record {
  khead = 2;
  ktail = 3;
  kflags = 0;
  array = λ j. j;
  sqes = numbered;
  sqe_head = 3;
  sqe_tail = 4;
  ring_mask = 3;
  ring_entries = 4;
}

abbrev pub small_cq : Cq
small_cq = record {
  khead = 2 ^ 32 - 1;
  ktail = 1;
  kflags = some 1;
  cqes = answers;
  ring_mask = 7;
  ring_entries = 8;
}

abbrev pub small : Ring
small = record {
  sq = small_sq;
  cq = small_cq;
  flags = 0;
  features = Feat.ext_arg;
  ring_fd = pos 5;
  enter_ring_fd = pos 5;
  int_flags = 0;
  calls = [];
}

pub small-IsSq : IsSq 2 small
small-IsSq = omega arith

pub small-IsCq : IsCq 3 small
small-IsCq = omega arith

-- Each call takes all that the kernel has been told of.
abbrev pub takes_all : Kernel
takes_all call r = (
  pos call.to_submit,
  record {
    sq_khead = r.sq.ktail;
    sq_kflags = r.sq.kflags;
    cq_ktail = r.cq.ktail;
    cqes = r.cq.cqes;
  },
)

pub takes_all-IsTaker : IsTaker 2 takes_all
takes_all-IsTaker = record {
  takes = λ call r v. (
    sub32 r.sq.ktail r.sq.khead,
    (omega arith, omega (arith, v.told, v.head_fits, v.khead_fits)),
  );
}
