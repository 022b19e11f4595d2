-- ===== src/Sqe/Prep/Event.antt =====
-- The helpers of src/include/liburing.h that prepare an SQE: poll, timeouts, cancellation and waiting.
use liburing.Common.{ℕ, bit_or}
use liburing.Common.Int.{ℤ, pos, neg, u32, s32}
use liburing.Abi.Op
use liburing.Abi.Sqe as Flag
use liburing.Sqe.{Sqe}
use liburing.Sqe.Base.{prep_rw}

-- `__io_uring_prep_poll_mask` where the byte order is little-endian.
abbrev pub poll_mask_word : ℕ → ℕ
poll_mask_word poll_mask = poll_mask

unfoldable pub prep_poll_add : (sqe : Sqe) (fd : ℤ) (poll_mask : ℕ) → Sqe
prep_poll_add sqe fd poll_mask = record (prep_rw Op.poll_add sqe fd 0 0 0) {
  rw_flags = poll_mask_word poll_mask;
}

unfoldable pub prep_poll_multishot : (sqe : Sqe) (fd : ℤ) (poll_mask : ℕ) → Sqe
prep_poll_multishot sqe fd poll_mask = record (prep_poll_add sqe fd poll_mask) {
  len = Flag.poll_add_multi;
}

unfoldable pub prep_poll_remove : (sqe : Sqe) (user_data : ℕ) → Sqe
prep_poll_remove sqe user_data = record (prep_rw Op.poll_remove sqe (neg 1) 0 0 0) {
  addr = user_data;
}

unfoldable pub prep_poll_update :
    (sqe : Sqe) (old_user_data new_user_data poll_mask flags : ℕ) → Sqe
prep_poll_update sqe old_user_data new_user_data poll_mask flags =
    let r = prep_rw Op.poll_remove sqe (neg 1) 0 flags new_user_data in
    record r { addr = old_user_data; rw_flags = poll_mask_word poll_mask }

unfoldable pub prep_nop : (sqe : Sqe) → Sqe
prep_nop sqe = prep_rw Op.nop sqe (neg 1) 0 0 0

unfoldable pub prep_timeout : (sqe : Sqe) (ts count flags : ℕ) → Sqe
prep_timeout sqe ts count flags = record (prep_rw Op.timeout sqe (neg 1) ts 1 count) {
  rw_flags = flags;
}

unfoldable pub prep_timeout_remove : (sqe : Sqe) (user_data flags : ℕ) → Sqe
prep_timeout_remove sqe user_data flags = record (prep_rw Op.timeout_remove sqe (neg 1) 0 0 0) {
  addr = user_data;
  rw_flags = flags;
}

unfoldable pub prep_timeout_update : (sqe : Sqe) (ts user_data flags : ℕ) → Sqe
prep_timeout_update sqe ts user_data flags =
    let r = prep_rw Op.timeout_remove sqe (neg 1) 0 0 ts in
    record r { addr = user_data; rw_flags = bit_or flags Flag.timeout_update }

unfoldable pub prep_cancel64 : (sqe : Sqe) (user_data : ℕ) (flags : ℤ) → Sqe
prep_cancel64 sqe user_data flags = record (prep_rw Op.async_cancel sqe (neg 1) 0 0 0) {
  addr = user_data;
  rw_flags = u32 flags;
}

unfoldable pub prep_cancel : (sqe : Sqe) (user_data : ℕ) (flags : ℤ) → Sqe
prep_cancel sqe user_data flags = prep_cancel64 sqe user_data flags

unfoldable pub prep_cancel_fd : (sqe : Sqe) (fd : ℤ) (flags : ℕ) → Sqe
prep_cancel_fd sqe fd flags = record (prep_rw Op.async_cancel sqe fd 0 0 0) {
  rw_flags = bit_or flags Flag.async_cancel_fd;
}

unfoldable pub prep_link_timeout : (sqe : Sqe) (ts flags : ℕ) → Sqe
prep_link_timeout sqe ts flags = record (prep_rw Op.link_timeout sqe (neg 1) ts 1 0) {
  rw_flags = flags;
}

unfoldable pub prep_epoll_ctl : (sqe : Sqe) (epfd fd op : ℤ) (ev : ℕ) → Sqe
prep_epoll_ctl sqe epfd fd op ev = prep_rw Op.epoll_ctl sqe epfd ev (u32 op) (u32 fd)

unfoldable pub prep_waitid : (sqe : Sqe) (idtype id infop : ℕ) (options : ℤ) (flags : ℕ) → Sqe
prep_waitid sqe idtype id infop options flags = record (prep_rw Op.waitid sqe (s32 id) 0 idtype 0) {
  rw_flags = flags;
  file_index = u32 options;
  off = infop;
}

unfoldable pub prep_futex_wake : (sqe : Sqe) (futex val mask futex_flags flags : ℕ) → Sqe
prep_futex_wake sqe futex val mask futex_flags flags =
    record (prep_rw Op.futex_wake sqe (s32 futex_flags) futex 0 val) {
      rw_flags = flags;
      addr3 = mask;
    }

unfoldable pub prep_futex_wait : (sqe : Sqe) (futex val mask futex_flags flags : ℕ) → Sqe
prep_futex_wait sqe futex val mask futex_flags flags =
    record (prep_rw Op.futex_wait sqe (s32 futex_flags) futex 0 val) {
      rw_flags = flags;
      addr3 = mask;
    }

unfoldable pub prep_futex_waitv : (sqe : Sqe) (futex nr_futex flags : ℕ) → Sqe
prep_futex_waitv sqe futex nr_futex flags =
    record (prep_rw Op.futex_waitv sqe (pos 0) futex nr_futex 0) { rw_flags = flags }
