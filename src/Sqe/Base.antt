-- ===== src/Sqe/Base.antt =====
-- What the `io_uring_prep_*` helpers of src/include/liburing.h share, and the accessors of an SQE and a CQE.
use liburing.Common.{ℕ, ◌%◌, ◌^◌, ◌==◌, if◌then◌else◌, add32, sub32}
use liburing.Common.Int.{ℤ}
use liburing.Abi.Sqe as Flag
use liburing.Sqe.{Sqe, Cqe}

unfoldable pub sqe_set_data : Sqe → ℕ → Sqe
sqe_set_data sqe p = record sqe { user_data = p }

unfoldable pub cqe_get_data : Cqe → ℕ
cqe_get_data cqe = cqe.user_data

unfoldable pub sqe_set_data64 : Sqe → ℕ → Sqe
sqe_set_data64 sqe v = record sqe { user_data = v }

unfoldable pub cqe_get_data64 : Cqe → ℕ
cqe_get_data64 cqe = cqe.user_data

unfoldable pub sqe_set_flags : Sqe → ℕ → Sqe
sqe_set_flags sqe flags = record sqe { flags = flags % 2 ^ 8 }

-- `__io_uring_set_target_fixed_file`
unfoldable pub set_target_fixed_file : Sqe → ℕ → Sqe
set_target_fixed_file sqe file_index = record sqe { file_index = add32 file_index 1 }

-- `if (file_index == IORING_FILE_INDEX_ALLOC) file_index--;`
unfoldable pub offset_index : ℕ → ℕ
offset_index file_index =
    if file_index == Flag.file_index_alloc then sub32 file_index 1 else file_index

unfoldable pub prep_rw : (op : ℕ) (sqe : Sqe) (fd : ℤ) (addr len offset : ℕ) → Sqe
prep_rw op sqe fd addr len offset = record {
  opcode = op % 2 ^ 8;
  flags = 0;
  ioprio = 0;
  fd = fd;
  off = offset;
  addr = addr;
  len = len;
  rw_flags = 0;
  user_data = sqe.user_data;
  buf_index = 0;
  personality = 0;
  file_index = 0;
  addr3 = 0;
  pad2 = 0;
}
