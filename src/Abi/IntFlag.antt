-- ===== src/Abi/IntFlag.antt =====
-- The library's own `int_flags` of a ring (src/int_flags.h).
use liburing.Common.{ℕ, ◌^◌}

abbrev pub reg_ring : ℕ
reg_ring = 2 ^ 0

abbrev pub reg_reg_ring : ℕ
reg_reg_ring = 2 ^ 1

abbrev pub app_mem : ℕ
app_mem = 2 ^ 2
