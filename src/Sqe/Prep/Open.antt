-- ===== src/Sqe/Prep/Open.antt =====
-- The helpers of src/include/liburing.h that prepare an SQE: opening and closing.
use liburing.Common.{ℕ}
use liburing.Common.Int.{ℤ, pos, u32}
use liburing.Abi.Op
use liburing.Sqe.{Sqe}
use liburing.Sqe.Base.{prep_rw, set_target_fixed_file, offset_index}

-- `sizeof(struct open_how)`: three 64-bit words.
abbrev sizeof_open_how : ℕ
sizeof_open_how = 24

unfoldable pub prep_openat : (sqe : Sqe) (dfd : ℤ) (path : ℕ) (flags : ℤ) (mode : ℕ) → Sqe
prep_openat sqe dfd path flags mode = record (prep_rw Op.openat sqe dfd path mode 0) {
  rw_flags = u32 flags;
}

unfoldable pub prep_openat_direct :
    (sqe : Sqe) (dfd : ℤ) (path : ℕ) (flags : ℤ) (mode file_index : ℕ) → Sqe
prep_openat_direct sqe dfd path flags mode file_index =
    let r = prep_openat sqe dfd path flags mode in set_target_fixed_file r (offset_index file_index)

unfoldable pub prep_close : (sqe : Sqe) (fd : ℤ) → Sqe
prep_close sqe fd = prep_rw Op.close sqe fd 0 0 0

unfoldable pub prep_close_direct : (sqe : Sqe) (file_index : ℕ) → Sqe
prep_close_direct sqe file_index = set_target_fixed_file (prep_close sqe (pos 0)) file_index

unfoldable pub prep_openat2 : (sqe : Sqe) (dfd : ℤ) (path how : ℕ) → Sqe
prep_openat2 sqe dfd path how = prep_rw Op.openat2 sqe dfd path sizeof_open_how how

unfoldable pub prep_openat2_direct : (sqe : Sqe) (dfd : ℤ) (path how file_index : ℕ) → Sqe
prep_openat2_direct sqe dfd path how file_index =
    set_target_fixed_file (prep_openat2 sqe dfd path how) (offset_index file_index)
