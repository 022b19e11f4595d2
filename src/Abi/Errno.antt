-- ===== src/Abi/Errno.antt =====
-- The error numbers that the library returns or looks for.
use liburing.Common.{ℕ}

abbrev pub ebadf : ℕ
ebadf = 9

abbrev pub eagain : ℕ
eagain = 11

abbrev pub enomem : ℕ
enomem = 12

abbrev pub eexist : ℕ
eexist = 17

abbrev pub einval : ℕ
einval = 22

abbrev pub emfile : ℕ
emfile = 24

abbrev pub etime : ℕ
etime = 62

abbrev pub eopnotsupp : ℕ
eopnotsupp = 95

abbrev pub eintr : ℕ
eintr = 4

abbrev pub enobufs : ℕ
enobufs = 105

abbrev pub ecanceled : ℕ
ecanceled = 125
