-- ===== src/Completion.antt =====
-- The completion side of the ring that makes no system call: the `io_uring_cq_*` helpers and
-- `__io_uring_peek_cqe` of src/include/liburing.h, and `cq_ring_needs_flush` and
-- `cq_ring_needs_enter` of src/queue.c.
pub mod Inv
pub mod Walk
pub mod Peek
pub mod Fifo
pub mod Eventfd
use liburing.Common.{
  ℕ, zero, suc, ◌-◌, ◌^◌, Bool, true, false, not, ◌&&◌, ◌||◌, Option, none, some, List, [], ◌∷◌,
  ◌==◌, if◌then◌else◌, has, bit_and, bit_or, add32, sub32, slot,
}
use liburing.Common.Int.{ℤ, pos, neg, is_neg}
use liburing.Abi.Setup
use liburing.Abi.Feat
use liburing.Abi.Shared
use liburing.Abi.Errno
use liburing.Sqe.{Cqe}
use liburing.Ring.{Ring, cqe_shift}

-- `io_uring_cq_ready`
unfoldable pub cq_ready : Ring → ℕ
cq_ready r = sub32 r.cq.ktail r.cq.khead

-- `io_uring_cq_has_overflow`
unfoldable pub cq_has_overflow : Ring → Bool
cq_has_overflow r = has r.sq.kflags Shared.sq_cq_overflow

-- `cq_ring_needs_flush`
unfoldable pub cq_ring_needs_flush : Ring → Bool
cq_ring_needs_flush r = has r.sq.kflags (bit_or Shared.sq_cq_overflow Shared.sq_taskrun)

-- `cq_ring_needs_enter`
unfoldable pub cq_ring_needs_enter : Ring → Bool
cq_ring_needs_enter r = has r.flags Setup.iopoll || cq_ring_needs_flush r

-- `io_uring_cq_advance`
unfoldable pub cq_advance : Ring → ℕ → Ring
cq_advance r nr =
    if nr == 0 then r else record r { cq = record r.cq { khead = add32 r.cq.khead nr } }

-- `io_uring_cqe_seen`
unfoldable pub cqe_seen : Ring → Option ℕ → Ring
unfolding cq_advance
cqe_seen r none = r
cqe_seen r (some cqe) = cq_advance r 1

-- `io_uring_cqe_index`
unfoldable pub cqe_index : Ring → ℕ → ℕ
cqe_index r i = slot r.cq.ring_mask (cqe_shift r) i

-- `io_uring_for_each_cqe` from `head` on: the CQEs that its body sees, on fuel.
unfoldable pub for_each_cqe : ℕ → Ring → (head : ℕ) → List Cqe
for_each_cqe zero r head = []
for_each_cqe (suc fuel) r head =
    let rest = for_each_cqe fuel r (add32 head 1) in
    if head == r.cq.ktail then [] else r.cq.cqes (cqe_index r head) ∷ rest

-- LIBURING_UDATA_TIMEOUT
abbrev pub udata_timeout : ℕ
udata_timeout = 2 ^ 64 - 1

-- What `__io_uring_peek_cqe` returns and stores, and the ring that it leaves.
pub record Peeked : Type 0 where
  pub err : ℤ
  pub cqe : Option ℕ
  pub available : ℕ
  pub ring : Ring

-- A completion of a timeout that the library itself has queued.
unfoldable pub is_internal : (features : ℕ) → Cqe → Bool
is_internal features c = not (has features Feat.ext_arg) && (c.user_data == udata_timeout)

-- The loop of `__io_uring_peek_cqe`, on fuel; `none` means that the fuel ran out.
unfoldable pub peek_loop : ℕ → Ring → Option Peeked
peek_loop zero r = none
peek_loop (suc fuel) r =
    let available = sub32 r.cq.ktail r.cq.khead in
    let i = cqe_index r r.cq.khead in
    let c = r.cq.cqes i in
    let next = cq_advance r 1 in
    let rest = peek_loop fuel next in
    if available == 0
    then some (record { err = pos 0; cqe = none; available = available; ring = r })
    else (if is_internal r.features c
        then (if is_neg c.res
            then some (record { err = c.res; cqe = none; available = available; ring = next })
            else rest)
        else some (record { err = pos 0; cqe = some i; available = available; ring = r }))

-- `__io_uring_peek_cqe`. Each round but the last takes one entry of those that are ready.
unfoldable pub peek_cqes : Ring → Option Peeked
unfolding cq_ready
peek_cqes r = peek_loop (suc (cq_ready r)) r

-- `io_uring_cq_eventfd_enabled`
unfoldable pub cq_eventfd_enabled : Ring → Bool
cq_eventfd_enabled r = elim r.cq.kflags [
  | none ↦ true
  | some flags ↦ not (has flags Shared.cq_eventfd_disabled)
]

abbrev same : Bool → Bool → Bool
same true b = b
same false b = not b

-- `flags &= ~IORING_CQ_EVENTFD_DISABLED` or `flags |= IORING_CQ_EVENTFD_DISABLED`
unfoldable pub set_eventfd : Bool → ℕ → ℕ
set_eventfd enabled flags =
    if enabled
    then bit_and flags (2 ^ 32 - 1 - Shared.cq_eventfd_disabled)
    else bit_or flags Shared.cq_eventfd_disabled

-- `io_uring_cq_eventfd_toggle`
unfoldable pub cq_eventfd_toggle : Ring → Bool → ℤ × Ring
unfolding cq_eventfd_enabled set_eventfd
cq_eventfd_toggle r enabled =
    if same enabled (cq_eventfd_enabled r) then (pos 0, r) else elim r.cq.kflags [
      | none ↦ (neg Errno.eopnotsupp, r)
      | some flags ↦
          (pos 0, record r { cq = record r.cq { kflags = some (set_eventfd enabled flags) } })
    ]
