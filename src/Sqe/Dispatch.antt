-- ===== src/Sqe/Dispatch.antt =====
-- Every `io_uring_prep_*` helper that prepares a request as one function of the request, and what the helpers have in common.
use liburing.Common.{◌≡◌, refl}
use liburing.Common.Int.{pos}
use liburing.Sqe.{Sqe}
use liburing.Sqe.Base.{prep_rw, set_target_fixed_file, offset_index}
use liburing.Sqe.Request.{Request}
use liburing.Sqe.Prep.File.{
  prep_splice, prep_tee, prep_fsync, prep_fallocate, prep_statx, prep_fadvise, prep_madvise,
  prep_sync_file_range, prep_ftruncate,
}
use liburing.Sqe.Prep.Rw.{
  prep_readv, prep_readv2, prep_read_fixed, prep_writev, prep_writev2, prep_write_fixed,
  prep_files_update, prep_read, prep_read_multishot, prep_write, prep_provide_buffers,
  prep_remove_buffers,
}
use liburing.Sqe.Prep.Net.{
  prep_send_set_addr, prep_recvmsg, prep_recvmsg_multishot, prep_sendmsg, prep_accept,
  prep_accept_direct, prep_multishot_accept, prep_multishot_accept_direct, prep_connect, prep_send,
  prep_sendto, prep_send_zc, prep_send_zc_fixed, prep_sendmsg_zc, prep_recv, prep_recv_multishot,
  prep_shutdown, prep_socket, prep_socket_direct, prep_socket_direct_alloc,
}
use liburing.Sqe.Prep.Event.{
  prep_poll_add, prep_poll_multishot, prep_poll_remove, prep_poll_update, prep_nop, prep_timeout,
  prep_timeout_remove, prep_timeout_update, prep_cancel64, prep_cancel, prep_cancel_fd,
  prep_link_timeout, prep_epoll_ctl, prep_waitid, prep_futex_wake, prep_futex_wait,
  prep_futex_waitv,
}
use liburing.Sqe.Prep.Open.{
  prep_openat, prep_openat_direct, prep_close, prep_close_direct, prep_openat2, prep_openat2_direct,
}
use liburing.Sqe.Prep.Path.{
  prep_unlinkat, prep_unlink, prep_renameat, prep_rename, prep_mkdirat, prep_mkdir, prep_symlinkat,
  prep_symlink, prep_linkat, prep_link,
}
use liburing.Sqe.Prep.Msg.{
  prep_msg_ring_cqe_flags, prep_msg_ring, prep_msg_ring_fd, prep_msg_ring_fd_alloc, prep_cmd_sock,
  prep_fixed_fd_install,
}
use liburing.Sqe.Prep.Xattr.{prep_getxattr, prep_setxattr, prep_fgetxattr, prep_fsetxattr}

unfoldable pub prep : Request → Sqe → Sqe
unfolding prep_rw set_target_fixed_file offset_index prep_send_set_addr prep_splice prep_tee
    prep_fsync prep_fallocate prep_statx prep_fadvise prep_madvise prep_sync_file_range
    prep_ftruncate prep_readv prep_readv2 prep_read_fixed prep_writev prep_writev2 prep_write_fixed
    prep_files_update prep_read prep_read_multishot prep_write prep_provide_buffers
    prep_remove_buffers prep_recvmsg prep_recvmsg_multishot prep_sendmsg prep_accept
    prep_accept_direct prep_multishot_accept prep_multishot_accept_direct prep_connect prep_send
    prep_sendto prep_send_zc prep_send_zc_fixed prep_sendmsg_zc prep_recv prep_recv_multishot
    prep_shutdown prep_socket prep_socket_direct prep_socket_direct_alloc prep_poll_add
    prep_poll_multishot prep_poll_remove prep_poll_update prep_nop prep_timeout prep_timeout_remove
    prep_timeout_update prep_cancel64 prep_cancel prep_cancel_fd prep_link_timeout prep_epoll_ctl
    prep_waitid prep_futex_wake prep_futex_wait prep_futex_waitv prep_openat prep_openat_direct
    prep_close prep_close_direct prep_openat2 prep_openat2_direct prep_unlinkat prep_unlink
    prep_renameat prep_rename prep_mkdirat prep_mkdir prep_symlinkat prep_symlink prep_linkat
    prep_link prep_msg_ring_cqe_flags prep_msg_ring prep_msg_ring_fd prep_msg_ring_fd_alloc
    prep_cmd_sock prep_fixed_fd_install prep_getxattr prep_setxattr prep_fgetxattr prep_fsetxattr
prep (Request.splice fd_in off_in fd_out off_out nbytes splice_flags) sqe =
    prep_splice sqe fd_in off_in fd_out off_out nbytes splice_flags
prep (Request.tee fd_in fd_out nbytes splice_flags) sqe =
    prep_tee sqe fd_in fd_out nbytes splice_flags
prep (Request.fsync fd fsync_flags) sqe = prep_fsync sqe fd fsync_flags
prep (Request.fallocate fd mode offset len) sqe = prep_fallocate sqe fd mode offset len
prep (Request.statx dfd path flags mask statxbuf) sqe = prep_statx sqe dfd path flags mask statxbuf
prep (Request.fadvise fd offset len advice) sqe = prep_fadvise sqe fd offset len advice
prep (Request.madvise addr length advice) sqe = prep_madvise sqe addr length advice
prep (Request.sync_file_range fd len offset flags) sqe =
    prep_sync_file_range sqe fd len offset flags
prep (Request.ftruncate fd len) sqe = prep_ftruncate sqe fd len
prep (Request.readv fd iovecs nr_vecs offset) sqe = prep_readv sqe fd iovecs nr_vecs offset
prep (Request.readv2 fd iovecs nr_vecs offset flags) sqe =
    prep_readv2 sqe fd iovecs nr_vecs offset flags
prep (Request.read_fixed fd buf nbytes offset buf_index) sqe =
    prep_read_fixed sqe fd buf nbytes offset buf_index
prep (Request.writev fd iovecs nr_vecs offset) sqe = prep_writev sqe fd iovecs nr_vecs offset
prep (Request.writev2 fd iovecs nr_vecs offset flags) sqe =
    prep_writev2 sqe fd iovecs nr_vecs offset flags
prep (Request.write_fixed fd buf nbytes offset buf_index) sqe =
    prep_write_fixed sqe fd buf nbytes offset buf_index
prep (Request.files_update fds nr_fds offset) sqe = prep_files_update sqe fds nr_fds offset
prep (Request.read fd buf nbytes offset) sqe = prep_read sqe fd buf nbytes offset
prep (Request.read_multishot fd nbytes offset buf_group) sqe =
    prep_read_multishot sqe fd nbytes offset buf_group
prep (Request.write fd buf nbytes offset) sqe = prep_write sqe fd buf nbytes offset
prep (Request.provide_buffers addr len nr bgid bid) sqe =
    prep_provide_buffers sqe addr len nr bgid bid
prep (Request.remove_buffers nr bgid) sqe = prep_remove_buffers sqe nr bgid
prep (Request.recvmsg fd msg flags) sqe = prep_recvmsg sqe fd msg flags
prep (Request.recvmsg_multishot fd msg flags) sqe = prep_recvmsg_multishot sqe fd msg flags
prep (Request.sendmsg fd msg flags) sqe = prep_sendmsg sqe fd msg flags
prep (Request.accept fd addr addrlen flags) sqe = prep_accept sqe fd addr addrlen flags
prep (Request.accept_direct fd addr addrlen flags file_index) sqe =
    prep_accept_direct sqe fd addr addrlen flags file_index
prep (Request.multishot_accept fd addr addrlen flags) sqe =
    prep_multishot_accept sqe fd addr addrlen flags
prep (Request.multishot_accept_direct fd addr addrlen flags) sqe =
    prep_multishot_accept_direct sqe fd addr addrlen flags
prep (Request.connect fd addr addrlen) sqe = prep_connect sqe fd addr addrlen
prep (Request.send sockfd buf len flags) sqe = prep_send sqe sockfd buf len flags
prep (Request.sendto sockfd buf len flags addr addrlen) sqe =
    prep_sendto sqe sockfd buf len flags addr addrlen
prep (Request.send_zc sockfd buf len flags zc_flags) sqe =
    prep_send_zc sqe sockfd buf len flags zc_flags
prep (Request.send_zc_fixed sockfd buf len flags zc_flags buf_index) sqe =
    prep_send_zc_fixed sqe sockfd buf len flags zc_flags buf_index
prep (Request.sendmsg_zc fd msg flags) sqe = prep_sendmsg_zc sqe fd msg flags
prep (Request.recv sockfd buf len flags) sqe = prep_recv sqe sockfd buf len flags
prep (Request.recv_multishot sockfd buf len flags) sqe =
    prep_recv_multishot sqe sockfd buf len flags
prep (Request.shutdown fd how) sqe = prep_shutdown sqe fd how
prep (Request.socket domain type protocol flags) sqe = prep_socket sqe domain type protocol flags
prep (Request.socket_direct domain type protocol file_index flags) sqe =
    prep_socket_direct sqe domain type protocol file_index flags
prep (Request.socket_direct_alloc domain type protocol flags) sqe =
    prep_socket_direct_alloc sqe domain type protocol flags
prep (Request.poll_add fd poll_mask) sqe = prep_poll_add sqe fd poll_mask
prep (Request.poll_multishot fd poll_mask) sqe = prep_poll_multishot sqe fd poll_mask
prep (Request.poll_remove user_data) sqe = prep_poll_remove sqe user_data
prep (Request.poll_update old_user_data new_user_data poll_mask flags) sqe =
    prep_poll_update sqe old_user_data new_user_data poll_mask flags
prep Request.nop sqe = prep_nop sqe
prep (Request.timeout ts count flags) sqe = prep_timeout sqe ts count flags
prep (Request.timeout_remove user_data flags) sqe = prep_timeout_remove sqe user_data flags
prep (Request.timeout_update ts user_data flags) sqe = prep_timeout_update sqe ts user_data flags
prep (Request.cancel64 user_data flags) sqe = prep_cancel64 sqe user_data flags
prep (Request.cancel user_data flags) sqe = prep_cancel sqe user_data flags
prep (Request.cancel_fd fd flags) sqe = prep_cancel_fd sqe fd flags
prep (Request.link_timeout ts flags) sqe = prep_link_timeout sqe ts flags
prep (Request.epoll_ctl epfd fd op ev) sqe = prep_epoll_ctl sqe epfd fd op ev
prep (Request.waitid idtype id infop options flags) sqe =
    prep_waitid sqe idtype id infop options flags
prep (Request.futex_wake futex val mask futex_flags flags) sqe =
    prep_futex_wake sqe futex val mask futex_flags flags
prep (Request.futex_wait futex val mask futex_flags flags) sqe =
    prep_futex_wait sqe futex val mask futex_flags flags
prep (Request.futex_waitv futex nr_futex flags) sqe = prep_futex_waitv sqe futex nr_futex flags
prep (Request.openat dfd path flags mode) sqe = prep_openat sqe dfd path flags mode
prep (Request.openat_direct dfd path flags mode file_index) sqe =
    prep_openat_direct sqe dfd path flags mode file_index
prep (Request.close fd) sqe = prep_close sqe fd
prep (Request.close_direct file_index) sqe = prep_close_direct sqe file_index
prep (Request.openat2 dfd path how) sqe = prep_openat2 sqe dfd path how
prep (Request.openat2_direct dfd path how file_index) sqe =
    prep_openat2_direct sqe dfd path how file_index
prep (Request.unlinkat dfd path flags) sqe = prep_unlinkat sqe dfd path flags
prep (Request.unlink path flags) sqe = prep_unlink sqe path flags
prep (Request.renameat olddfd oldpath newdfd newpath flags) sqe =
    prep_renameat sqe olddfd oldpath newdfd newpath flags
prep (Request.rename oldpath newpath) sqe = prep_rename sqe oldpath newpath
prep (Request.mkdirat dfd path mode) sqe = prep_mkdirat sqe dfd path mode
prep (Request.mkdir path mode) sqe = prep_mkdir sqe path mode
prep (Request.symlinkat target newdirfd linkpath) sqe = prep_symlinkat sqe target newdirfd linkpath
prep (Request.symlink target linkpath) sqe = prep_symlink sqe target linkpath
prep (Request.linkat olddfd oldpath newdfd newpath flags) sqe =
    prep_linkat sqe olddfd oldpath newdfd newpath flags
prep (Request.link oldpath newpath flags) sqe = prep_link sqe oldpath newpath flags
prep (Request.msg_ring_cqe_flags fd len msg flags cqe_flags) sqe =
    prep_msg_ring_cqe_flags sqe fd len msg flags cqe_flags
prep (Request.msg_ring fd len msg flags) sqe = prep_msg_ring sqe fd len msg flags
prep (Request.msg_ring_fd fd source_fd target_fd msg flags) sqe =
    prep_msg_ring_fd sqe fd source_fd target_fd msg flags
prep (Request.msg_ring_fd_alloc fd source_fd msg flags) sqe =
    prep_msg_ring_fd_alloc sqe fd source_fd msg flags
prep (Request.cmd_sock cmd_op fd level optname optval optlen) sqe =
    prep_cmd_sock sqe cmd_op fd level optname optval optlen
prep (Request.fixed_fd_install fd flags) sqe = prep_fixed_fd_install sqe fd flags
prep (Request.getxattr name value path len) sqe = prep_getxattr sqe name value path len
prep (Request.setxattr name value path flags len) sqe = prep_setxattr sqe name value path flags len
prep (Request.fgetxattr fd name value len) sqe = prep_fgetxattr sqe fd name value len
prep (Request.fsetxattr fd name value flags len) sqe = prep_fsetxattr sqe fd name value flags len

-- An SQE that has never been used.
abbrev pub blank : Sqe
blank = record {
  opcode = 0;
  flags = 0;
  ioprio = 0;
  fd = pos 0;
  off = 0;
  addr = 0;
  len = 0;
  rw_flags = 0;
  user_data = 0;
  buf_index = 0;
  personality = 0;
  file_index = 0;
  addr3 = 0;
  pad2 = 0;
}

-- Whatever an SQE held before, each `io_uring_prep_*` helper that prepares a request (all but
-- io_uring_prep_send_set_addr, which adds an address to a prepared one) leaves in it what it
-- leaves in a blank one, except for the user data, which stays: no stale field reaches the
-- kernel.
pub prep-blank :
    (q : Request) (sqe : Sqe) → prep q sqe ≡ record (prep q blank) { user_data = sqe.user_data }
unfolding prep
prep-blank Request.nop sqe = refl
prep-blank _ sqe = refl
