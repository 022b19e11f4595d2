-- ===== src/Sqe/Prep/Rw.antt =====
-- The helpers of src/include/liburing.h that prepare an SQE: reads and writes, and the buffers and files registered for them.
use liburing.Common.{ℕ, bit_or}
use liburing.Common.Int.{ℤ, neg, wrap, u32, u64}
use liburing.Abi.Op
use liburing.Abi.Sqe as Flag
use liburing.Sqe.{Sqe}
use liburing.Sqe.Base.{prep_rw}

unfoldable pub prep_readv : (sqe : Sqe) (fd : ℤ) (iovecs nr_vecs offset : ℕ) → Sqe
prep_readv sqe fd iovecs nr_vecs offset = prep_rw Op.readv sqe fd iovecs nr_vecs offset

unfoldable pub prep_readv2 : (sqe : Sqe) (fd : ℤ) (iovecs nr_vecs offset : ℕ) (flags : ℤ) → Sqe
prep_readv2 sqe fd iovecs nr_vecs offset flags = record (prep_readv sqe fd iovecs nr_vecs offset) {
  rw_flags = u32 flags;
}

unfoldable pub prep_read_fixed : (sqe : Sqe) (fd : ℤ) (buf nbytes offset : ℕ) (buf_index : ℤ) → Sqe
prep_read_fixed sqe fd buf nbytes offset buf_index =
    record (prep_rw Op.read_fixed sqe fd buf nbytes offset) { buf_index = wrap 16 buf_index }

unfoldable pub prep_writev : (sqe : Sqe) (fd : ℤ) (iovecs nr_vecs offset : ℕ) → Sqe
prep_writev sqe fd iovecs nr_vecs offset = prep_rw Op.writev sqe fd iovecs nr_vecs offset

unfoldable pub prep_writev2 : (sqe : Sqe) (fd : ℤ) (iovecs nr_vecs offset : ℕ) (flags : ℤ) → Sqe
prep_writev2 sqe fd iovecs nr_vecs offset flags =
    record (prep_writev sqe fd iovecs nr_vecs offset) { rw_flags = u32 flags }

unfoldable pub prep_write_fixed : (sqe : Sqe) (fd : ℤ) (buf nbytes offset : ℕ) (buf_index : ℤ) → Sqe
prep_write_fixed sqe fd buf nbytes offset buf_index =
    record (prep_rw Op.write_fixed sqe fd buf nbytes offset) { buf_index = wrap 16 buf_index }

unfoldable pub prep_files_update : (sqe : Sqe) (fds nr_fds : ℕ) (offset : ℤ) → Sqe
prep_files_update sqe fds nr_fds offset =
    prep_rw Op.files_update sqe (neg 1) fds nr_fds (u64 offset)

unfoldable pub prep_read : (sqe : Sqe) (fd : ℤ) (buf nbytes offset : ℕ) → Sqe
prep_read sqe fd buf nbytes offset = prep_rw Op.read sqe fd buf nbytes offset

unfoldable pub prep_read_multishot : (sqe : Sqe) (fd : ℤ) (nbytes offset : ℕ) (buf_group : ℤ) → Sqe
prep_read_multishot sqe fd nbytes offset buf_group =
    let r = prep_rw Op.read_multishot sqe fd 0 nbytes offset in
    record r { buf_index = wrap 16 buf_group; flags = bit_or r.flags Flag.buffer_select }

unfoldable pub prep_write : (sqe : Sqe) (fd : ℤ) (buf nbytes offset : ℕ) → Sqe
prep_write sqe fd buf nbytes offset = prep_rw Op.write sqe fd buf nbytes offset

unfoldable pub prep_provide_buffers : (sqe : Sqe) (addr : ℕ) (len nr bgid bid : ℤ) → Sqe
prep_provide_buffers sqe addr len nr bgid bid =
    record (prep_rw Op.provide_buffers sqe nr addr (u32 len) (u64 bid)) { buf_index = wrap 16 bgid }

unfoldable pub prep_remove_buffers : (sqe : Sqe) (nr bgid : ℤ) → Sqe
prep_remove_buffers sqe nr bgid = record (prep_rw Op.remove_buffers sqe nr 0 0 0) {
  buf_index = wrap 16 bgid;
}
