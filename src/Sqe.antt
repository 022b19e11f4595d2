-- ===== src/Sqe.antt =====
-- `struct io_uring_sqe` and `struct io_uring_cqe` of src/include/liburing/io_uring.h. A union is one
-- field, the widest of its members, read as the little-endian storage that the members share:
--   off         off, addr2; cmd_op is its low half
--   addr        addr, splice_off_in; level is its low half, optname its high half
--   rw_flags    all the 32-bit flag words
--   buf_index   buf_index, buf_group
--   file_index  file_index, splice_fd_in, optlen; addr_len is its low half
--   addr3       addr3, optval
pub mod Base
pub mod Prep
pub mod Request
pub mod Dispatch
pub mod FileIndex
use liburing.Common.{ℕ}
use liburing.Common.Int.{ℤ}

-- Each field is a number below its width's bound; `fd` is signed.
pub record Sqe : Type 0 where
  pub opcode : ℕ
  pub flags : ℕ
  pub ioprio : ℕ
  pub fd : ℤ
  pub off : ℕ
  pub addr : ℕ
  pub len : ℕ
  pub rw_flags : ℕ
  pub user_data : ℕ
  pub buf_index : ℕ
  pub personality : ℕ
  pub file_index : ℕ
  pub addr3 : ℕ
  pub pad2 : ℕ

pub record Cqe : Type 0 where
  pub user_data : ℕ
  pub res : ℤ
  pub flags : ℕ
