-- ===== src/Abi/Register.antt =====
-- The opcodes of io_uring_register(2) (src/include/liburing/io_uring.h).
use liburing.Common.{ℕ, ◌^◌}

abbrev pub register_buffers : ℕ
register_buffers = 0

abbrev pub unregister_buffers : ℕ
unregister_buffers = 1

abbrev pub register_files : ℕ
register_files = 2

abbrev pub unregister_files : ℕ
unregister_files = 3

abbrev pub register_eventfd : ℕ
register_eventfd = 4

abbrev pub unregister_eventfd : ℕ
unregister_eventfd = 5

abbrev pub register_files_update : ℕ
register_files_update = 6

abbrev pub register_eventfd_async : ℕ
register_eventfd_async = 7

abbrev pub register_probe : ℕ
register_probe = 8

abbrev pub register_personality : ℕ
register_personality = 9

abbrev pub unregister_personality : ℕ
unregister_personality = 10

abbrev pub register_restrictions : ℕ
register_restrictions = 11

abbrev pub register_enable_rings : ℕ
register_enable_rings = 12

abbrev pub register_files2 : ℕ
register_files2 = 13

abbrev pub register_files_update2 : ℕ
register_files_update2 = 14

abbrev pub register_buffers2 : ℕ
register_buffers2 = 15

abbrev pub register_buffers_update : ℕ
register_buffers_update = 16

abbrev pub register_iowq_aff : ℕ
register_iowq_aff = 17

abbrev pub unregister_iowq_aff : ℕ
unregister_iowq_aff = 18

abbrev pub register_iowq_max_workers : ℕ
register_iowq_max_workers = 19

abbrev pub register_ring_fds : ℕ
register_ring_fds = 20

abbrev pub unregister_ring_fds : ℕ
unregister_ring_fds = 21

abbrev pub register_pbuf_ring : ℕ
register_pbuf_ring = 22

abbrev pub unregister_pbuf_ring : ℕ
unregister_pbuf_ring = 23

abbrev pub register_sync_cancel : ℕ
register_sync_cancel = 24

abbrev pub register_file_alloc_range : ℕ
register_file_alloc_range = 25

abbrev pub register_pbuf_status : ℕ
register_pbuf_status = 26

abbrev pub register_napi : ℕ
register_napi = 27

abbrev pub unregister_napi : ℕ
unregister_napi = 28

abbrev pub use_registered_ring : ℕ
use_registered_ring = 2 ^ 31
