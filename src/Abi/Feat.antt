-- ===== src/Abi/Feat.antt =====
-- `IORING_FEAT_*`, what the kernel supports (src/include/liburing/io_uring.h).
use liburing.Common.{ℕ, ◌^◌}

abbrev pub single_mmap : ℕ
single_mmap = 2 ^ 0

abbrev pub nodrop : ℕ
nodrop = 2 ^ 1

abbrev pub submit_stable : ℕ
submit_stable = 2 ^ 2

abbrev pub rw_cur_pos : ℕ
rw_cur_pos = 2 ^ 3

abbrev pub cur_personality : ℕ
cur_personality = 2 ^ 4

abbrev pub fast_poll : ℕ
fast_poll = 2 ^ 5

abbrev pub poll_32bits : ℕ
poll_32bits = 2 ^ 6

abbrev pub sqpoll_nonfixed : ℕ
sqpoll_nonfixed = 2 ^ 7

abbrev pub ext_arg : ℕ
ext_arg = 2 ^ 8

abbrev pub native_workers : ℕ
native_workers = 2 ^ 9

abbrev pub rsrc_tags : ℕ
rsrc_tags = 2 ^ 10

abbrev pub cqe_skip : ℕ
cqe_skip = 2 ^ 11

abbrev pub linked_file : ℕ
linked_file = 2 ^ 12

abbrev pub reg_reg_ring : ℕ
reg_reg_ring = 2 ^ 13
