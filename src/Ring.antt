-- ===== src/Ring.antt =====
-- `struct io_uring` of src/include/liburing.h, as the submission and completion code of
-- src/queue.c and src/include/liburing.h sees it: where the struct holds a pointer to a word that it shares
-- with the kernel, the record holds the word. A pointer to an SQE or a CQE is its index in the array.
use liburing.Common.{ℕ, Option, List, ◌∷◌, if◌then◌else◌, has}
use liburing.Common.Int.{ℤ}
use liburing.Abi.Setup
use liburing.Sqe.{Sqe, Cqe}

-- `struct io_uring_sq`
pub record Sq : Type 0 where
  pub khead : ℕ
  pub ktail : ℕ
  pub kflags : ℕ
  pub array : ℕ → ℕ
  pub sqes : ℕ → Sqe
  pub sqe_head : ℕ
  pub sqe_tail : ℕ
  pub ring_mask : ℕ
  pub ring_entries : ℕ

-- `struct io_uring_cq`; `kflags` is `none` where the pointer is NULL.
pub record Cq : Type 0 where
  pub khead : ℕ
  pub ktail : ℕ
  pub kflags : Option ℕ
  pub cqes : ℕ → Cqe
  pub ring_mask : ℕ
  pub ring_entries : ℕ

-- The `void *arg` of io_uring_enter(2): a signal mask (0 is NULL), or the extended argument.
pub data EnterArg : Type 0 where
  sigset : ℕ → EnterArg
  getevents : (sigmask sigmask_sz ts : ℕ) → EnterArg

pub record EnterCall : Type 0 where
  pub fd : ℤ
  pub to_submit : ℕ
  pub min_complete : ℕ
  pub flags : ℕ
  pub arg : EnterArg
  pub sz : ℕ

-- `calls` is no field of the struct: the io_uring_enter(2) calls made so far, the last first.
pub record Ring : Type 0 where
  pub sq : Sq
  pub cq : Cq
  pub flags : ℕ
  pub features : ℕ
  pub ring_fd : ℤ
  pub enter_ring_fd : ℤ
  pub int_flags : ℕ
  pub calls : List EnterCall

-- The words that the kernel may have changed when io_uring_enter(2) returns.
pub record Post : Type 0 where
  pub sq_khead : ℕ
  pub sq_kflags : ℕ
  pub cq_ktail : ℕ
  pub cqes : ℕ → Cqe

-- What io_uring_enter(2) does: an arbitrary function, which may depend on all calls before.
abbrev pub Kernel : Type 0
Kernel = EnterCall → Ring → ℤ × Post

abbrev pub apply_post : Post → Ring → Ring
apply_post p r = record r {
  sq = record r.sq { khead = p.sq_khead; kflags = p.sq_kflags };
  cq = record r.cq { ktail = p.cq_ktail; cqes = p.cqes };
}

-- `__sys_io_uring_enter2`
unfoldable pub sys_enter2 : Kernel → EnterCall → Ring → ℤ × Ring
sys_enter2 kernel call r =
    let (ret, post) = kernel call r in (ret, record (apply_post post r) { calls = call ∷ r.calls })

-- 1 where an entry takes two places of its array.
abbrev pub sqe_shift : Ring → ℕ
sqe_shift r = if has r.flags Setup.sqe128 then 1 else 0

abbrev pub cqe_shift : Ring → ℕ
cqe_shift r = if has r.flags Setup.cqe32 then 1 else 0
