-- ===== src/Sqe/Prep/Net.antt =====
-- The helpers of src/include/liburing.h that prepare an SQE: sockets.
use liburing.Common.{ℕ, ◌+◌, ◌*◌, ◌/◌, ◌%◌, ◌^◌, bit_or, sub32}
use liburing.Common.Int.{ℤ, u32, u64}
use liburing.Abi.Op
use liburing.Abi.Sqe as Flag
use liburing.Sqe.{Sqe}
use liburing.Sqe.Base.{prep_rw, set_target_fixed_file, offset_index}

unfoldable pub prep_send_set_addr : (sqe : Sqe) (dest_addr addr_len : ℕ) → Sqe
prep_send_set_addr sqe dest_addr addr_len = record sqe {
  off = dest_addr;
  file_index = sqe.file_index / 2 ^ 16 * 2 ^ 16 + addr_len;
}

unfoldable pub prep_recvmsg : (sqe : Sqe) (fd : ℤ) (msg flags : ℕ) → Sqe
prep_recvmsg sqe fd msg flags = record (prep_rw Op.recvmsg sqe fd msg 1 0) { rw_flags = flags }

unfoldable pub prep_recvmsg_multishot : (sqe : Sqe) (fd : ℤ) (msg flags : ℕ) → Sqe
prep_recvmsg_multishot sqe fd msg flags =
    let r = prep_recvmsg sqe fd msg flags in
    record r { ioprio = bit_or r.ioprio Flag.recv_multishot }

unfoldable pub prep_sendmsg : (sqe : Sqe) (fd : ℤ) (msg flags : ℕ) → Sqe
prep_sendmsg sqe fd msg flags = record (prep_rw Op.sendmsg sqe fd msg 1 0) { rw_flags = flags }

unfoldable pub prep_accept : (sqe : Sqe) (fd : ℤ) (addr addrlen : ℕ) (flags : ℤ) → Sqe
prep_accept sqe fd addr addrlen flags = record (prep_rw Op.accept sqe fd addr 0 addrlen) {
  rw_flags = u32 flags;
}

unfoldable pub prep_accept_direct :
    (sqe : Sqe) (fd : ℤ) (addr addrlen : ℕ) (flags : ℤ) (file_index : ℕ) → Sqe
prep_accept_direct sqe fd addr addrlen flags file_index =
    let r = prep_accept sqe fd addr addrlen flags in
    set_target_fixed_file r (offset_index file_index)

unfoldable pub prep_multishot_accept : (sqe : Sqe) (fd : ℤ) (addr addrlen : ℕ) (flags : ℤ) → Sqe
prep_multishot_accept sqe fd addr addrlen flags =
    let r = prep_accept sqe fd addr addrlen flags in
    record r { ioprio = bit_or r.ioprio Flag.accept_multishot }

unfoldable pub prep_multishot_accept_direct :
    (sqe : Sqe) (fd : ℤ) (addr addrlen : ℕ) (flags : ℤ) → Sqe
prep_multishot_accept_direct sqe fd addr addrlen flags =
    let r = prep_multishot_accept sqe fd addr addrlen flags in
    set_target_fixed_file r (sub32 Flag.file_index_alloc 1)

unfoldable pub prep_connect : (sqe : Sqe) (fd : ℤ) (addr addrlen : ℕ) → Sqe
prep_connect sqe fd addr addrlen = prep_rw Op.connect sqe fd addr 0 addrlen

unfoldable pub prep_send : (sqe : Sqe) (sockfd : ℤ) (buf len : ℕ) (flags : ℤ) → Sqe
prep_send sqe sockfd buf len flags = record (prep_rw Op.send sqe sockfd buf (len % 2 ^ 32) 0) {
  rw_flags = u32 flags;
}

unfoldable pub prep_sendto :
    (sqe : Sqe) (sockfd : ℤ) (buf len : ℕ) (flags : ℤ) (addr addrlen : ℕ) → Sqe
prep_sendto sqe sockfd buf len flags addr addrlen =
    prep_send_set_addr (prep_send sqe sockfd buf len flags) addr (addrlen % 2 ^ 16)

unfoldable pub prep_send_zc :
    (sqe : Sqe) (sockfd : ℤ) (buf len : ℕ) (flags : ℤ) (zc_flags : ℕ) → Sqe
prep_send_zc sqe sockfd buf len flags zc_flags =
    record (prep_rw Op.send_zc sqe sockfd buf (len % 2 ^ 32) 0) {
      rw_flags = u32 flags;
      ioprio = zc_flags % 2 ^ 16;
    }

unfoldable pub prep_send_zc_fixed :
    (sqe : Sqe) (sockfd : ℤ) (buf len : ℕ) (flags : ℤ) (zc_flags buf_index : ℕ) → Sqe
prep_send_zc_fixed sqe sockfd buf len flags zc_flags buf_index =
    let r = prep_send_zc sqe sockfd buf len flags zc_flags in
    record r { ioprio = bit_or r.ioprio Flag.recvsend_fixed_buf; buf_index = buf_index % 2 ^ 16 }

unfoldable pub prep_sendmsg_zc : (sqe : Sqe) (fd : ℤ) (msg flags : ℕ) → Sqe
prep_sendmsg_zc sqe fd msg flags = record (prep_sendmsg sqe fd msg flags) { opcode = Op.sendmsg_zc }

unfoldable pub prep_recv : (sqe : Sqe) (sockfd : ℤ) (buf len : ℕ) (flags : ℤ) → Sqe
prep_recv sqe sockfd buf len flags = record (prep_rw Op.recv sqe sockfd buf (len % 2 ^ 32) 0) {
  rw_flags = u32 flags;
}

unfoldable pub prep_recv_multishot : (sqe : Sqe) (sockfd : ℤ) (buf len : ℕ) (flags : ℤ) → Sqe
prep_recv_multishot sqe sockfd buf len flags =
    let r = prep_recv sqe sockfd buf len flags in
    record r { ioprio = bit_or r.ioprio Flag.recv_multishot }

unfoldable pub prep_shutdown : (sqe : Sqe) (fd how : ℤ) → Sqe
prep_shutdown sqe fd how = prep_rw Op.shutdown sqe fd 0 (u32 how) 0

unfoldable pub prep_socket : (sqe : Sqe) (domain type protocol : ℤ) (flags : ℕ) → Sqe
prep_socket sqe domain type protocol flags =
    record (prep_rw Op.socket sqe domain 0 (u32 protocol) (u64 type)) { rw_flags = flags }

unfoldable pub prep_socket_direct :
    (sqe : Sqe) (domain type protocol : ℤ) (file_index flags : ℕ) → Sqe
prep_socket_direct sqe domain type protocol file_index flags =
    let r = record (prep_rw Op.socket sqe domain 0 (u32 protocol) (u64 type)) {
      rw_flags = flags;
    } in
    set_target_fixed_file r (offset_index file_index)

unfoldable pub prep_socket_direct_alloc : (sqe : Sqe) (domain type protocol : ℤ) (flags : ℕ) → Sqe
prep_socket_direct_alloc sqe domain type protocol flags =
    let r = record (prep_rw Op.socket sqe domain 0 (u32 protocol) (u64 type)) {
      rw_flags = flags;
    } in
    set_target_fixed_file r (sub32 Flag.file_index_alloc 1)
