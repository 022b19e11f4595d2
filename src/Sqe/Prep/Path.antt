-- ===== src/Sqe/Prep/Path.antt =====
-- The helpers of src/include/liburing.h that prepare an SQE: operations on paths.
use liburing.Common.{ℕ}
use liburing.Common.Int.{ℤ, neg, u32}
use liburing.Abi.Op
use liburing.Sqe.{Sqe}
use liburing.Sqe.Base.{prep_rw}

-- AT_FDCWD of <fcntl.h>
abbrev at_fdcwd : ℤ
at_fdcwd = neg 100

unfoldable pub prep_unlinkat : (sqe : Sqe) (dfd : ℤ) (path : ℕ) (flags : ℤ) → Sqe
prep_unlinkat sqe dfd path flags = record (prep_rw Op.unlinkat sqe dfd path 0 0) {
  rw_flags = u32 flags;
}

unfoldable pub prep_unlink : (sqe : Sqe) (path : ℕ) (flags : ℤ) → Sqe
prep_unlink sqe path flags = prep_unlinkat sqe at_fdcwd path flags

unfoldable pub prep_renameat :
    (sqe : Sqe) (olddfd : ℤ) (oldpath : ℕ) (newdfd : ℤ) (newpath flags : ℕ) → Sqe
prep_renameat sqe olddfd oldpath newdfd newpath flags =
    record (prep_rw Op.renameat sqe olddfd oldpath (u32 newdfd) newpath) { rw_flags = flags }

unfoldable pub prep_rename : (sqe : Sqe) (oldpath newpath : ℕ) → Sqe
prep_rename sqe oldpath newpath = prep_renameat sqe at_fdcwd oldpath at_fdcwd newpath 0

unfoldable pub prep_mkdirat : (sqe : Sqe) (dfd : ℤ) (path mode : ℕ) → Sqe
prep_mkdirat sqe dfd path mode = prep_rw Op.mkdirat sqe dfd path mode 0

unfoldable pub prep_mkdir : (sqe : Sqe) (path mode : ℕ) → Sqe
prep_mkdir sqe path mode = prep_mkdirat sqe at_fdcwd path mode

unfoldable pub prep_symlinkat : (sqe : Sqe) (target : ℕ) (newdirfd : ℤ) (linkpath : ℕ) → Sqe
prep_symlinkat sqe target newdirfd linkpath = prep_rw Op.symlinkat sqe newdirfd target 0 linkpath

unfoldable pub prep_symlink : (sqe : Sqe) (target linkpath : ℕ) → Sqe
prep_symlink sqe target linkpath = prep_symlinkat sqe target at_fdcwd linkpath

unfoldable pub prep_linkat :
    (sqe : Sqe) (olddfd : ℤ) (oldpath : ℕ) (newdfd : ℤ) (newpath : ℕ) (flags : ℤ) → Sqe
prep_linkat sqe olddfd oldpath newdfd newpath flags =
    record (prep_rw Op.linkat sqe olddfd oldpath (u32 newdfd) newpath) { rw_flags = u32 flags }

unfoldable pub prep_link : (sqe : Sqe) (oldpath newpath : ℕ) (flags : ℤ) → Sqe
prep_link sqe oldpath newpath flags = prep_linkat sqe at_fdcwd oldpath at_fdcwd newpath flags
