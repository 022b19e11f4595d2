-- ===== src/Abi/Enter.antt =====
-- `IORING_ENTER_*`, the flags of io_uring_enter(2) (src/include/liburing/io_uring.h).
use liburing.Common.{ℕ, ◌^◌}

abbrev pub getevents : ℕ
getevents = 2 ^ 0

abbrev pub sq_wakeup : ℕ
sq_wakeup = 2 ^ 1

abbrev pub sq_wait : ℕ
sq_wait = 2 ^ 2

abbrev pub ext_arg : ℕ
ext_arg = 2 ^ 3

abbrev pub registered_ring : ℕ
registered_ring = 2 ^ 4
