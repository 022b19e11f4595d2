-- ===== src/LinkCp.antt =====
-- `copy_file` of examples/link-cp.c: a copy by pairs of a read and a write that waits for it. As in Cp, the ring is
-- what it promises: requests that have been submitted complete one by one, in any order.
pub mod Fill
pub mod Handle
pub mod Runs
pub mod Stuck
use liburing.Common.{
  ℕ, zero, suc, ◌+◌, ◌-◌, ◌*◌, ◌==◌, Bool, true, false, not, Option, none, some, List, [], ◌∷◌,
  ◌++◌, length, take, drop, ltb, leb, if◌then◌else◌,
}
use liburing.Common.Int.{ℤ, pos, neg, is_neg, eqb, is_nonzero}
use liburing.Common.Window.{upd}
use liburing.Abi.Errno

abbrev pub qd : ℕ
qd = 64

abbrev pub bs : ℕ
bs = 32 * 1024

-- `struct io_data`: what never changes. `at` is its address, and its `index` is a part of the state.
pub record IoData : Type 0 where
  pub at : ℕ
  pub offset : ℕ
  pub iov_len : ℕ

-- A read or a write of the pair that `io` describes
pub record Request : Type 0 where
  pub is_write : Bool
  pub io : IoData

-- The variables of `copy_file`, with the requests that are in the ring and not submitted, those that are submitted
-- and not complete, and the memory: `allocated` pairs, their `index`, and those that were freed.
pub record Copy : Type 0 where
  pub insize : ℕ
  pub offset : ℕ
  pub inflight : ℕ
  pub prepared : List Request
  pub submitted : List Request
  pub index : ℕ → ℕ
  pub allocated : ℕ
  pub freed : List ℕ

abbrev pub pair : IoData → List Request
pair io = record { is_write = false; io = io } ∷ record { is_write = true; io = io } ∷ []

-- What `queue_rw_pair` does where there is room
abbrev pub with_pair : Copy → (size offset : ℕ) → Copy
with_pair c size offset = record c {
  prepared = c.prepared ++ pair (record { at = c.allocated; offset = offset; iov_len = size });
  index = upd c.index c.allocated 0;
  allocated = suc c.allocated;
}

-- `queue_rw_pair`: `none` where io_uring_get_sqe returns NULL, which is not tested for.
unfoldable pub queue_rw_pair : Copy → (size offset : ℕ) → Option Copy
queue_rw_pair c size offset =
    if ltb (length c.prepared + 1) qd then some (with_pair c size offset) else none

-- The end of a round of the inner loop
abbrev pub queued : (this_size : ℕ) → Copy → Copy
queued this_size c = record c {
  offset = c.offset + this_size;
  insize = c.insize - this_size;
  inflight = c.inflight + 2;
}

abbrev pub this_size : Copy → ℕ
this_size c = if ltb c.insize bs then c.insize else bs

-- The inner loop that queues pairs, on fuel. Each round puts two requests more in flight.
unfoldable pub queue_pairs : ℕ → Copy → Option Copy
unfolding queue_rw_pair
queue_pairs zero c = some c
queue_pairs (suc fuel) c =
    if not (c.insize == 0)
    then (if ltb c.inflight qd
        then elim (queue_rw_pair c (this_size c) c.offset) [
          | none ↦ none
          | some c' ↦ queue_pairs fuel (queued (this_size c) c')
        ]
        else some c)
    else some c

-- `io_uring_submit` of this ring, which submits the first `accepted` of the requests that are prepared, or all of them
-- where they are fewer; none where it fails. Its result is not looked at.
abbrev pub submit : (accepted : ℕ) → Copy → Copy
submit accepted c = record c {
  prepared = drop accepted c.prepared;
  submitted = c.submitted ++ take accepted c.prepared;
}

-- Where the program is: in io_uring_wait_cqe, out of `copy_file`, at a NULL pointer, or at the end of a round of the
-- outer loop that had nothing to wait for.
pub data State : Type 0 where
  waits : Copy → State
  returns : ℤ → Copy → State
  crashes : State
  spins : Copy → State

abbrev pub depth : Copy → ℕ
depth c = if c.insize == 0 then 1 else qd

-- `handle_cqe` from the test of `index` on
abbrev pub release : Request → Copy → Copy
release req c = if c.index req.io.at == 2 then record c { freed = req.io.at ∷ c.freed } else c

abbrev pub counted_up : Request → Copy → Copy
counted_up req c = record c { index = upd c.index req.io.at (c.index req.io.at + 1) }

-- `handle_cqe` once a request that was cancelled has been queued again
unfoldable pub queued_again : Request → Option Copy → Option (ℤ × Copy)
queued_again req none = none
queued_again req (some c) = some (pos 0, release req (record c { inflight = c.inflight + 2 }))

-- `handle_cqe` for a completion of `req` with the result `res`
unfoldable pub handle_cqe : Copy → Request → (res : ℤ) → Option (ℤ × Copy)
unfolding queued_again
handle_cqe c req res =
    let c' = counted_up req c in
    if is_neg res
    then (if eqb res (neg Errno.ecanceled)
        then queued_again req (queue_rw_pair c' req.io.iov_len req.io.offset)
        else some (pos 1, release req c'))
    else some (pos 0, release req c')

abbrev pub begin : (insize : ℕ) → Copy
begin insize = record {
  insize = insize;
  offset = 0;
  inflight = 0;
  prepared = [];
  submitted = [];
  index = λ at. 0;
  allocated = 0;
  freed = [];
}

-- `accepts` is how many requests io_uring_submit submits.
module _ (accepts : Copy → ℕ) where
  -- The outer loop once pairs have been queued
  unfoldable pub queued_all : (has_inflight : ℕ) → Option Copy → State
  queued_all has_inflight none = State.crashes
  queued_all has_inflight (some c) =
      let c' = if has_inflight == c.inflight then c else submit (accepts c) c in
      if leb (depth c') c'.inflight then State.waits c' else State.spins c'

  -- The outer loop from the test of `insize` to the first wait
  unfoldable pub outer : Copy → State
  unfolding queued_all
  outer c =
      if c.insize == 0 then State.returns (pos 0) c else queued_all c.inflight (queue_pairs qd c)

  -- The loop that waits, once a completion has been handled
  unfoldable pub handled : Option (ℤ × Copy) → State
  handled none = State.crashes
  handled (some (ret, c)) =
      let c' = record c { inflight = c.inflight - 1 } in
      if is_nonzero ret
      then State.returns (pos 1) c
      else if leb (depth c') c'.inflight
      then State.waits c'
      else outer c'

  -- `copy_file` from one wait to the next: `req` has completed with the result `res`.
  unfoldable pub step : Copy → Request → (res : ℤ) → State
  unfolding handled
  step c req res = handled (handle_cqe c req res)

  -- `copy_file` up to its first wait
  unfoldable pub copy_file : (insize : ℕ) → State
  copy_file insize = outer (begin insize)
