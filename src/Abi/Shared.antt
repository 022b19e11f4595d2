-- ===== src/Abi/Shared.antt =====
-- The flags that kernel and application exchange in the rings (src/include/liburing/io_uring.h).
use liburing.Common.{ℕ, ◌^◌}

abbrev pub sq_need_wakeup : ℕ
sq_need_wakeup = 2 ^ 0

abbrev pub sq_cq_overflow : ℕ
sq_cq_overflow = 2 ^ 1

abbrev pub sq_taskrun : ℕ
sq_taskrun = 2 ^ 2

abbrev pub cq_eventfd_disabled : ℕ
cq_eventfd_disabled = 2 ^ 0
