-- ===== src/Sqe/Prep/File.antt =====
-- The helpers of src/include/liburing.h that prepare an SQE: operations on an open file.
use liburing.Common.{ℕ}
use liburing.Common.Int.{ℤ, neg, u32, u64}
use liburing.Abi.Op
use liburing.Sqe.{Sqe}
use liburing.Sqe.Base.{prep_rw}

unfoldable pub prep_splice :
    (sqe : Sqe) (fd_in off_in fd_out off_out : ℤ) (nbytes splice_flags : ℕ) → Sqe
prep_splice sqe fd_in off_in fd_out off_out nbytes splice_flags =
    let r = prep_rw Op.splice sqe fd_out 0 nbytes (u64 off_out) in
    record r { addr = u64 off_in; file_index = u32 fd_in; rw_flags = splice_flags }

unfoldable pub prep_tee : (sqe : Sqe) (fd_in fd_out : ℤ) (nbytes splice_flags : ℕ) → Sqe
prep_tee sqe fd_in fd_out nbytes splice_flags =
    let r = prep_rw Op.tee sqe fd_out 0 nbytes 0 in
    record r { addr = 0; file_index = u32 fd_in; rw_flags = splice_flags }

unfoldable pub prep_fsync : (sqe : Sqe) (fd : ℤ) (fsync_flags : ℕ) → Sqe
prep_fsync sqe fd fsync_flags = record (prep_rw Op.fsync sqe fd 0 0 0) { rw_flags = fsync_flags }

unfoldable pub prep_fallocate : (sqe : Sqe) (fd mode : ℤ) (offset len : ℕ) → Sqe
prep_fallocate sqe fd mode offset len = record (prep_rw Op.fallocate sqe fd 0 (u32 mode) offset) {
  addr = len;
}

unfoldable pub prep_statx : (sqe : Sqe) (dfd : ℤ) (path : ℕ) (flags : ℤ) (mask statxbuf : ℕ) → Sqe
prep_statx sqe dfd path flags mask statxbuf = record (prep_rw Op.statx sqe dfd path mask statxbuf) {
  rw_flags = u32 flags;
}

unfoldable pub prep_fadvise : (sqe : Sqe) (fd : ℤ) (offset : ℕ) (len advice : ℤ) → Sqe
prep_fadvise sqe fd offset len advice = record (prep_rw Op.fadvise sqe fd 0 (u32 len) offset) {
  rw_flags = u32 advice;
}

unfoldable pub prep_madvise : (sqe : Sqe) (addr : ℕ) (length advice : ℤ) → Sqe
prep_madvise sqe addr length advice = record (prep_rw Op.madvise sqe (neg 1) addr (u32 length) 0) {
  rw_flags = u32 advice;
}

unfoldable pub prep_sync_file_range : (sqe : Sqe) (fd : ℤ) (len offset : ℕ) (flags : ℤ) → Sqe
prep_sync_file_range sqe fd len offset flags =
    record (prep_rw Op.sync_file_range sqe fd 0 len offset) { rw_flags = u32 flags }

unfoldable pub prep_ftruncate : (sqe : Sqe) (fd len : ℤ) → Sqe
prep_ftruncate sqe fd len = prep_rw Op.ftruncate sqe fd 0 0 (u64 len)
