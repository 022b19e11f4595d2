-- ===== src/Setup/Exit.antt =====
-- src/setup.c: `io_uring_queue_exit`.
pub mod AppMem
pub mod Restore
use liburing.Common.{ℕ, ◌*◌, Bool, true, false, not, ◌∷◌, ◌==◌, if◌then◌else◌, has}
use liburing.Common.Int.{ℤ, neg, eqb}
use liburing.Abi.IntFlag
use liburing.Ring.{Ring}
use liburing.Sys.{Call, Calls, Os}
use liburing.Register.RingFd.{unregister_ring_fd}
use liburing.Setup.Map.{Mapping, unmap_rings, sqe_size}

-- The part of `io_uring_queue_exit` that gives back the memory. `*sq->kring_entries` is the word
-- that `ring_entries` was read from, which does not change.
unfoldable pub exit_memory : Ring → Mapping → Calls → Calls
exit_memory r m t =
    if m.sq_ring_sz == 0
    then unmap_rings m (Call.munmap m.sqes (sqe_size r.flags * r.sq.ring_entries) ∷ t)
    else if has r.int_flags IntFlag.app_mem
    then t
    else unmap_rings m (Call.munmap m.sqes (r.sq.ring_entries * 64) ∷ t)

-- `io_uring_queue_exit`
unfoldable pub queue_exit : Os → Ring → Mapping → Calls → Calls
queue_exit os r m t =
    let t' = exit_memory r m t in
    let registered = has r.int_flags IntFlag.reg_ring in
    let t'' = if registered then (unregister_ring_fd os t' r).2 else t' in
    let fd = if registered then (unregister_ring_fd os t' r).1.ring_fd else r.ring_fd in
    if eqb fd (neg 1) then t'' else Call.close fd ∷ t''
