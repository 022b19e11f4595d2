-- ===== src/Submit/Timeout.antt =====
-- The timeout that the library queues for a wait where the kernel takes none with the call.
use liburing.Common.{ℕ, ◌≡◌, true, [], ◌∷◌}
use liburing.Common.Int.{ℤ, s32, is_neg}
use liburing.Abi.Errno
use liburing.Abi.Op
use liburing.Sqe.{Sqe}
use liburing.Ring.{Ring}
use liburing.Submission.{sq_ready, sq_space_left}
use liburing.Submission.Pending.{Hands}
use liburing.Completion.{udata_timeout}

-- A timeout comes last, all SQEs have been flushed, and the result is how many wait.
pub record IsTimed (k : ℕ) (r : Ring) (wait_nr ts : ℕ) (ret : ℤ) (r' : Ring) : Type 0 where
  pub sqe : Sqe
  pub hands : Hands k r (sqe ∷ []) r'
  pub times : sqe.opcode ≡ Op.timeout
  pub for : (sqe.addr ≡ ts) × (sqe.off ≡ wait_nr)
  pub marked : sqe.user_data ≡ udata_timeout
  pub flushed : (r'.sq.sqe_head ≡ r'.sq.sqe_tail) × (r'.sq.ktail ≡ r'.sq.sqe_tail)
  pub waiting : ret ≡ s32 (sq_ready r')

-- A ring that was full, and an error with which nothing has been queued
pub record IsUntimed (k : ℕ) (r : Ring) (ret : ℤ) (r' : Ring) : Type 0 where
  pub full : sq_space_left r ≡ 0
  pub error : is_neg ret ≡ true
  pub hands : Hands k r [] r'
