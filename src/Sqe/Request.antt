-- ===== src/Sqe/Request.antt =====
-- A call of one of the `io_uring_prep_*` helpers that prepare a request, with its arguments: a constructor for each
-- of them, under the helper's name. io_uring_prep_send_set_addr has none: it adds an address to a prepared request.
use liburing.Common.{ℕ}
use liburing.Common.Int.{ℤ}

pub data Request : Type 0 where
  splice : (fd_in off_in fd_out off_out : ℤ) (nbytes splice_flags : ℕ) → Request
  tee : (fd_in fd_out : ℤ) (nbytes splice_flags : ℕ) → Request
  fsync : (fd : ℤ) (fsync_flags : ℕ) → Request
  fallocate : (fd mode : ℤ) (offset len : ℕ) → Request
  statx : (dfd : ℤ) (path : ℕ) (flags : ℤ) (mask statxbuf : ℕ) → Request
  fadvise : (fd : ℤ) (offset : ℕ) (len advice : ℤ) → Request
  madvise : (addr : ℕ) (length advice : ℤ) → Request
  sync_file_range : (fd : ℤ) (len offset : ℕ) (flags : ℤ) → Request
  ftruncate : (fd len : ℤ) → Request
  readv : (fd : ℤ) (iovecs nr_vecs offset : ℕ) → Request
  readv2 : (fd : ℤ) (iovecs nr_vecs offset : ℕ) (flags : ℤ) → Request
  read_fixed : (fd : ℤ) (buf nbytes offset : ℕ) (buf_index : ℤ) → Request
  writev : (fd : ℤ) (iovecs nr_vecs offset : ℕ) → Request
  writev2 : (fd : ℤ) (iovecs nr_vecs offset : ℕ) (flags : ℤ) → Request
  write_fixed : (fd : ℤ) (buf nbytes offset : ℕ) (buf_index : ℤ) → Request
  files_update : (fds nr_fds : ℕ) (offset : ℤ) → Request
  read : (fd : ℤ) (buf nbytes offset : ℕ) → Request
  read_multishot : (fd : ℤ) (nbytes offset : ℕ) (buf_group : ℤ) → Request
  write : (fd : ℤ) (buf nbytes offset : ℕ) → Request
  provide_buffers : (addr : ℕ) (len nr bgid bid : ℤ) → Request
  remove_buffers : (nr bgid : ℤ) → Request
  recvmsg : (fd : ℤ) (msg flags : ℕ) → Request
  recvmsg_multishot : (fd : ℤ) (msg flags : ℕ) → Request
  sendmsg : (fd : ℤ) (msg flags : ℕ) → Request
  accept : (fd : ℤ) (addr addrlen : ℕ) (flags : ℤ) → Request
  accept_direct : (fd : ℤ) (addr addrlen : ℕ) (flags : ℤ) (file_index : ℕ) → Request
  multishot_accept : (fd : ℤ) (addr addrlen : ℕ) (flags : ℤ) → Request
  multishot_accept_direct : (fd : ℤ) (addr addrlen : ℕ) (flags : ℤ) → Request
  connect : (fd : ℤ) (addr addrlen : ℕ) → Request
  send : (sockfd : ℤ) (buf len : ℕ) (flags : ℤ) → Request
  sendto : (sockfd : ℤ) (buf len : ℕ) (flags : ℤ) (addr addrlen : ℕ) → Request
  send_zc : (sockfd : ℤ) (buf len : ℕ) (flags : ℤ) (zc_flags : ℕ) → Request
  send_zc_fixed : (sockfd : ℤ) (buf len : ℕ) (flags : ℤ) (zc_flags buf_index : ℕ) → Request
  sendmsg_zc : (fd : ℤ) (msg flags : ℕ) → Request
  recv : (sockfd : ℤ) (buf len : ℕ) (flags : ℤ) → Request
  recv_multishot : (sockfd : ℤ) (buf len : ℕ) (flags : ℤ) → Request
  shutdown : (fd how : ℤ) → Request
  socket : (domain type protocol : ℤ) (flags : ℕ) → Request
  socket_direct : (domain type protocol : ℤ) (file_index flags : ℕ) → Request
  socket_direct_alloc : (domain type protocol : ℤ) (flags : ℕ) → Request
  poll_add : (fd : ℤ) (poll_mask : ℕ) → Request
  poll_multishot : (fd : ℤ) (poll_mask : ℕ) → Request
  poll_remove : (user_data : ℕ) → Request
  poll_update : (old_user_data new_user_data poll_mask flags : ℕ) → Request
  nop : Request
  timeout : (ts count flags : ℕ) → Request
  timeout_remove : (user_data flags : ℕ) → Request
  timeout_update : (ts user_data flags : ℕ) → Request
  cancel64 : (user_data : ℕ) (flags : ℤ) → Request
  cancel : (user_data : ℕ) (flags : ℤ) → Request
  cancel_fd : (fd : ℤ) (flags : ℕ) → Request
  link_timeout : (ts flags : ℕ) → Request
  epoll_ctl : (epfd fd op : ℤ) (ev : ℕ) → Request
  waitid : (idtype id infop : ℕ) (options : ℤ) (flags : ℕ) → Request
  futex_wake : (futex val mask futex_flags flags : ℕ) → Request
  futex_wait : (futex val mask futex_flags flags : ℕ) → Request
  futex_waitv : (futex nr_futex flags : ℕ) → Request
  openat : (dfd : ℤ) (path : ℕ) (flags : ℤ) (mode : ℕ) → Request
  openat_direct : (dfd : ℤ) (path : ℕ) (flags : ℤ) (mode file_index : ℕ) → Request
  close : (fd : ℤ) → Request
  close_direct : (file_index : ℕ) → Request
  openat2 : (dfd : ℤ) (path how : ℕ) → Request
  openat2_direct : (dfd : ℤ) (path how file_index : ℕ) → Request
  unlinkat : (dfd : ℤ) (path : ℕ) (flags : ℤ) → Request
  unlink : (path : ℕ) (flags : ℤ) → Request
  renameat : (olddfd : ℤ) (oldpath : ℕ) (newdfd : ℤ) (newpath flags : ℕ) → Request
  rename : (oldpath newpath : ℕ) → Request
  mkdirat : (dfd : ℤ) (path mode : ℕ) → Request
  mkdir : (path mode : ℕ) → Request
  symlinkat : (target : ℕ) (newdirfd : ℤ) (linkpath : ℕ) → Request
  symlink : (target linkpath : ℕ) → Request
  linkat : (olddfd : ℤ) (oldpath : ℕ) (newdfd : ℤ) (newpath : ℕ) (flags : ℤ) → Request
  link : (oldpath newpath : ℕ) (flags : ℤ) → Request
  msg_ring_cqe_flags : (fd : ℤ) (len msg flags cqe_flags : ℕ) → Request
  msg_ring : (fd : ℤ) (len msg flags : ℕ) → Request
  msg_ring_fd : (fd source_fd target_fd : ℤ) (msg flags : ℕ) → Request
  msg_ring_fd_alloc : (fd source_fd : ℤ) (msg flags : ℕ) → Request
  cmd_sock : (cmd_op fd level optname : ℤ) (optval : ℕ) (optlen : ℤ) → Request
  fixed_fd_install : (fd : ℤ) (flags : ℕ) → Request
  getxattr : (name value path len : ℕ) → Request
  setxattr : (name value path : ℕ) (flags : ℤ) (len : ℕ) → Request
  fgetxattr : (fd : ℤ) (name value len : ℕ) → Request
  fsetxattr : (fd : ℤ) (name value : ℕ) (flags : ℤ) (len : ℕ) → Request
