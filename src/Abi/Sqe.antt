-- ===== src/Abi/Sqe.antt =====
-- The flags that a prepared request carries (src/include/liburing/io_uring.h).
use liburing.Common.{ℕ, ◌^◌}

abbrev pub fixed_file : ℕ
fixed_file = 2 ^ 0

abbrev pub buffer_select : ℕ
buffer_select = 2 ^ 5

abbrev pub file_index_alloc : ℕ
file_index_alloc = 0xffff_ffff

abbrev pub timeout_update : ℕ
timeout_update = 2 ^ 1

abbrev pub poll_add_multi : ℕ
poll_add_multi = 2 ^ 0

abbrev pub async_cancel_fd : ℕ
async_cancel_fd = 2 ^ 1

abbrev pub recv_multishot : ℕ
recv_multishot = 2 ^ 1

abbrev pub recvsend_fixed_buf : ℕ
recvsend_fixed_buf = 2 ^ 2

abbrev pub accept_multishot : ℕ
accept_multishot = 2 ^ 0

abbrev pub msg_send_fd : ℕ
msg_send_fd = 1

abbrev pub msg_ring_flags_pass : ℕ
msg_ring_flags_pass = 2 ^ 1
