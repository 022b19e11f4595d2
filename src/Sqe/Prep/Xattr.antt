-- ===== src/Sqe/Prep/Xattr.antt =====
-- The helpers of src/include/liburing.h that prepare an SQE: extended attributes.
use liburing.Common.{ℕ}
use liburing.Common.Int.{ℤ, pos, u32}
use liburing.Abi.Op
use liburing.Sqe.{Sqe}
use liburing.Sqe.Base.{prep_rw}

unfoldable pub prep_getxattr : (sqe : Sqe) (name value path len : ℕ) → Sqe
prep_getxattr sqe name value path len = record (prep_rw Op.getxattr sqe (pos 0) name len value) {
  addr3 = path;
  rw_flags = 0;
}

unfoldable pub prep_setxattr : (sqe : Sqe) (name value path : ℕ) (flags : ℤ) (len : ℕ) → Sqe
prep_setxattr sqe name value path flags len =
    record (prep_rw Op.setxattr sqe (pos 0) name len value) { addr3 = path; rw_flags = u32 flags }

unfoldable pub prep_fgetxattr : (sqe : Sqe) (fd : ℤ) (name value len : ℕ) → Sqe
prep_fgetxattr sqe fd name value len = record (prep_rw Op.fgetxattr sqe fd name len value) {
  rw_flags = 0;
}

unfoldable pub prep_fsetxattr : (sqe : Sqe) (fd : ℤ) (name value : ℕ) (flags : ℤ) (len : ℕ) → Sqe
prep_fsetxattr sqe fd name value flags len = record (prep_rw Op.fsetxattr sqe fd name len value) {
  rw_flags = u32 flags;
}
