-- ===== src/Sqe/Prep/Msg.antt =====
-- The helpers of src/include/liburing.h that prepare an SQE: messages between rings and commands.
use liburing.Common.{ℕ, ◌+◌, ◌*◌, ◌/◌, ◌%◌, ◌^◌, bit_or}
use liburing.Common.Int.{ℤ, u32, u64, s32}
use liburing.Abi.Op
use liburing.Abi.Sqe as Flag
use liburing.Sqe.{Sqe}
use liburing.Sqe.Base.{prep_rw, set_target_fixed_file, offset_index}

-- The 32-bit members of a union with a 64-bit one.
abbrev set_low : ℕ → ℕ → ℕ
set_low w v = w / 2 ^ 32 * 2 ^ 32 + v

abbrev set_high : ℕ → ℕ → ℕ
set_high w v = v * 2 ^ 32 + w % 2 ^ 32

unfoldable pub prep_msg_ring_cqe_flags : (sqe : Sqe) (fd : ℤ) (len msg flags cqe_flags : ℕ) → Sqe
prep_msg_ring_cqe_flags sqe fd len msg flags cqe_flags =
    record (prep_rw Op.msg_ring sqe fd 0 len msg) {
      rw_flags = bit_or Flag.msg_ring_flags_pass flags;
      file_index = cqe_flags;
    }

unfoldable pub prep_msg_ring : (sqe : Sqe) (fd : ℤ) (len msg flags : ℕ) → Sqe
prep_msg_ring sqe fd len msg flags = record (prep_rw Op.msg_ring sqe fd 0 len msg) {
  rw_flags = flags;
}

unfoldable pub prep_msg_ring_fd : (sqe : Sqe) (fd source_fd target_fd : ℤ) (msg flags : ℕ) → Sqe
prep_msg_ring_fd sqe fd source_fd target_fd msg flags =
    let r = record (prep_rw Op.msg_ring sqe fd Flag.msg_send_fd 0 msg) { addr3 = u64 source_fd } in
    record (set_target_fixed_file r (offset_index (u32 target_fd))) { rw_flags = flags }

unfoldable pub prep_msg_ring_fd_alloc : (sqe : Sqe) (fd source_fd : ℤ) (msg flags : ℕ) → Sqe
prep_msg_ring_fd_alloc sqe fd source_fd msg flags =
    prep_msg_ring_fd sqe fd source_fd (s32 Flag.file_index_alloc) msg flags

unfoldable pub prep_cmd_sock :
    (sqe : Sqe) (cmd_op fd level optname : ℤ) (optval : ℕ) (optlen : ℤ) → Sqe
prep_cmd_sock sqe cmd_op fd level optname optval optlen =
    let r = prep_rw Op.uring_cmd sqe fd 0 0 0 in
    record r {
      addr3 = optval;
      addr = set_low (set_high r.addr (u32 optname)) (u32 level);
      file_index = u32 optlen;
      off = set_low r.off (u32 cmd_op);
    }

unfoldable pub prep_fixed_fd_install : (sqe : Sqe) (fd : ℤ) (flags : ℕ) → Sqe
prep_fixed_fd_install sqe fd flags = record (prep_rw Op.fixed_fd_install sqe fd 0 0 0) {
  flags = Flag.fixed_file;
  rw_flags = flags;
}
