-- ===== src/Sqe/FileIndex.antt =====
-- The index of a fixed file, as the `io_uring_prep_*_direct` helpers of src/include/liburing.h store it.
use liburing.Common.{ℕ, ◌+◌, ◌^◌, ◌<◌, ◌≡◌, ◌≢◌, arith, if◌then◌else◌, ltb}
use liburing.Common.Int.{ℤ}
use liburing.Abi.Sqe as Flag
use liburing.Sqe.{Sqe}
use liburing.Sqe.Base.{offset_index, set_target_fixed_file}
use liburing.Sqe.Prep.Net.{prep_accept_direct}
use liburing.Sqe.Prep.Open.{prep_openat_direct}

-- What the kernel reads: index `i` as `i + 1`, and a request for any free slot as the largest word.
abbrev pub stored : ℕ → ℕ
stored i = if ltb (i + 1) Flag.file_index_alloc then i + 1 else Flag.file_index_alloc

stored_lem :
    (sqe : Sqe) (i : ℕ)
    → i < 2 ^ 32
    → (set_target_fixed_file sqe (offset_index i)).file_index ≡ stored i
unfolding set_target_fixed_file offset_index
stored_lem sqe i h = ground arith

stored-ne_zero : (i : ℕ) → stored i ≢ 0
stored-ne_zero i = ground arith

-- For every 32-bit file index, io_uring_prep_accept_direct and io_uring_prep_openat_direct store
-- the same field: the index plus 1, or the largest word for a request of any free slot and for
-- the index just below it; never 0, which would name no fixed file.
pub prep_accept_direct-stored :
    (sqe : Sqe) (fd : ℤ) (addr len mode i : ℕ) (flags : ℤ)
    → i < 2 ^ 32
    → ((prep_accept_direct sqe fd addr len flags i).file_index ≡ stored i)
      × ((prep_openat_direct sqe fd addr flags mode i).file_index ≡ stored i)
      × (stored i ≢ 0)
unfolding prep_accept_direct prep_openat_direct
prep_accept_direct-stored sqe fd addr len mode i flags h =
    (stored_lem _ i h, stored_lem _ i h, stored-ne_zero i)
