-- ===== src/Cp.antt =====
-- examples/io_uring-cp.c: `copy_file`, which copies a file by reads and writes that complete in any order.
-- The ring is seen through what it promises its application: a request that is put into it and
-- submitted completes once. `requests` are those that have been got from the ring and have not completed,
-- the newest first, and the first `queued` of them have not been submitted.
pub mod Requests
pub mod Inv
pub mod Complete
pub mod Moves
pub mod Runs
pub mod Ends
pub mod Rounds
use liburing.Common.{
  ℕ, zero, suc, ◌+◌, ◌-◌, ◌*◌, Bool, true, false, not, ◌&&◌, Option, none, some, List, [], ◌∷◌,
  length, ◌==◌, ltb, leb, min, if◌then◌else◌, sub64,
}
use liburing.Common.Int.{ℤ, pos, negsuc, neg, is_neg, eqb, u64}
use liburing.Abi.Errno

abbrev pub qd : ℕ
qd = 64

abbrev pub bs : ℕ
bs = 32 * 1024

-- `struct io_data`, with the bytes behind it: `iov.iov_base` is counted from them.
pub record IoData : Type 0 where
  pub read : Bool
  pub first_offset : ℕ
  pub offset : ℕ
  pub first_len : ℕ
  pub iov_base : ℕ
  pub iov_len : ℕ
  pub buf : ℕ → ℕ

-- The locals of `copy_file`, the requests, and the bytes of the output file.
pub record Copy : Type 0 where
  pub insize : ℕ
  pub write_left : ℕ
  pub offset : ℕ
  pub reads : ℕ
  pub writes : ℕ
  pub requests : List IoData
  pub queued : ℕ
  pub out : ℕ → ℕ

-- Where `copy_file` stands: in io_uring_wait_cqe or io_uring_peek_cqe of the main loop, in io_uring_wait_cqe of
-- the last loop, at a return, at a failed assertion, or in the main loop with nothing to wait for.
pub data At : Type 0 where
  wait : Copy → At
  peek : Copy → At
  drain : Copy → At
  done : (ret : ℤ) → Copy → At
  abort : Copy → At
  spin : Copy → At

-- What a wait or a peek is answered: one of the submitted requests has completed, an error, or -EAGAIN.
pub data Event : Type 0 where
  completed : (i : ℕ) (res : ℤ) → Event
  failed : Event
  nothing : Event

module _ {A : Type 0} where
  abbrev pub nth : ℕ → List A → Option A
  nth i [] = none
  nth zero (x ∷ xs) = some x
  nth (suc i) (x ∷ xs) = nth i xs

  abbrev pub removed : ℕ → List A → List A
  removed i [] = []
  removed zero (x ∷ xs) = xs
  removed (suc i) (x ∷ xs) = x ∷ removed i xs

-- `n` bytes from one place to another
abbrev pub moved : (dst : ℕ → ℕ) (at_dst : ℕ) (src : ℕ → ℕ) (at_src n : ℕ) → ℕ → ℕ
moved dst at_dst src at_src n x =
    if leb at_dst x && ltb x (at_dst + n) then src (at_src + (x - at_dst)) else dst x

-- `queue_prepped`: the request is put into the ring, or the assertion fails.
unfoldable pub queue_prepped : IoData → Copy → Option Copy
queue_prepped d c =
    if leb qd c.queued
    then none
    else some (record c { requests = d ∷ c.requests; queued = c.queued + 1 })

abbrev pub new_read : (size offset : ℕ) → IoData
new_read size offset = record {
  read = true;
  first_offset = offset;
  offset = offset;
  first_len = size;
  iov_base = 0;
  iov_len = size;
  buf = λ i. 0;
}

-- The data of `queue_write`
abbrev pub to_write : IoData → IoData
to_write d = record d { read = false; offset = d.first_offset; iov_base = 0; iov_len = d.first_len }

-- A short read or write is adjusted.
abbrev pub adjusted : ℕ → IoData → IoData
adjusted n d = record d {
  iov_base = d.iov_base + n;
  iov_len = sub64 d.iov_len n;
  offset = d.offset + n;
}

-- `enter` is what io_uring_submit returns: an error, or how many requests it has submitted.
module _ (enter : Copy → ℤ) where
  unfoldable pub submit : Copy → Copy
  submit c = if is_neg (enter c) then c else record c { queued = c.queued - u64 (enter c) }

-- What the kernel has done to a request that completes with a result: the bytes that it has moved.
abbrev pub moved_bytes : ℤ → ℕ
moved_bytes (pos n) = n
moved_bytes (negsuc n) = 0

-- `infile` is what the input file holds.
module _ (infile : ℕ → ℕ) where
  abbrev pub request_after : ℤ → IoData → IoData
  request_after res d =
      if d.read
      then record d { buf = moved d.buf d.iov_base infile d.offset (moved_bytes res) }
      else d

  abbrev pub copy_after : (i : ℕ) → ℤ → IoData → Copy → Copy
  copy_after i res d c = record c {
    requests = removed (c.queued + i) c.requests;
    out = if d.read then c.out else moved c.out d.offset d.buf d.iov_base (moved_bytes res);
  }

  -- The request that an event completes, in the state that it leaves.
  unfoldable pub on_completion : (IoData → ℤ → Copy → At) → (stay : At) → (i : ℕ) → ℤ → Copy → At
  on_completion next stay i res c = elim (nth (c.queued + i) c.requests) [
    | none ↦ stay
    | some d ↦ next (request_after res d) res (copy_after i res d c)
  ]

-- `alloc` is whether malloc succeeds.
module _ (alloc : Copy → Bool) where
  -- `queue_read`; `none` is a result other than 0.
  unfoldable pub queue_read : (size offset : ℕ) → Copy → Option Copy
  queue_read size offset c =
      if not (alloc c)
      then none
      else if leb qd c.queued
      then none
      else some (record c { requests = new_read size offset ∷ c.requests; queued = c.queued + 1 })

  -- One round of the loop that queues reads; `none` where the loop is left.
  unfoldable pub next_read : Copy → Option Copy
  next_read c =
      let this_size = min c.insize bs in
      if c.insize == 0
      then none
      else if leb qd (c.reads + c.writes)
      then none
      else elim (queue_read this_size c.offset c) [
        | none ↦ none
        | some c' ↦ some (record c' {
          insize = sub64 c'.insize this_size;
          offset = c'.offset + this_size;
          reads = c'.reads + 1;
        })
      ]

  unfoldable pub queue_reads : ℕ → Copy → Copy
  queue_reads zero c = c
  queue_reads (suc rounds) c = elim (next_read c) [ none ↦ c | some c' ↦ queue_reads rounds c' ]

-- The loop that waits out pending writes, from its head.
unfoldable pub to_drain : Copy → At
to_drain c = if c.writes == 0 then At.done (pos 0) c else At.drain c

-- The main loop from its inner loop on, where nothing has been waited for.
unfoldable pub inner_first : Copy → At
unfolding to_drain
inner_first c =
    if c.write_left == 0 then (if c.insize == 0 then to_drain c else At.spin c) else At.wait c

-- A completion in the last loop
unfoldable pub handle_last : IoData → ℤ → Copy → At
handle_last d res c =
    if is_neg res then At.done (pos 1) c else to_drain (record c { writes = sub64 c.writes 1 })

module _ (alloc : Copy → Bool) (enter : Copy → ℤ) where
  -- The main loop from its head
  unfoldable pub outer : Copy → At
  outer c =
      let c' = queue_reads alloc qd c in
      if c.insize == 0 && c.write_left == 0
      then to_drain c
      else if c'.reads == c.reads
      then inner_first c'
      else if is_neg (enter c')
      then to_drain c'
      else inner_first (submit enter c')

  -- The inner loop from its head, after a completion
  unfoldable pub inner_next : Copy → At
  inner_next c = if c.write_left == 0 then outer c else At.peek c

  -- A request goes into the ring again, and is submitted.
  unfoldable pub requeue : IoData → Copy → At
  requeue d c = elim (queue_prepped d c) [
    | none ↦ At.abort c
    | some c' ↦ inner_next (submit enter c')
  ]

  -- All of a request is done: a read is followed by its write.
  unfoldable pub finish : IoData → Copy → At
  finish d c =
      if d.read
      then elim (queue_prepped (to_write d) c) [
        | none ↦ At.abort c
        | some c' ↦
            let c'' = submit enter c' in
            inner_next (record c'' {
              write_left = sub64 c''.write_left d.first_len;
              reads = sub64 c''.reads 1;
              writes = c''.writes + 1;
            })
      ]
      else inner_next (record c { writes = sub64 c.writes 1 })

  -- A completion in the main loop
  unfoldable pub handle : IoData → ℤ → Copy → At
  handle d res c =
      if is_neg res
      then (if eqb res (neg Errno.eagain) then requeue d c else At.done (pos 1) c)
      else if not (u64 res == d.iov_len)
      then requeue (adjusted (u64 res) d) c
      else finish d c

  -- `copy_file`, as far as its first wait; `out` is what the output file holds before.
  unfoldable pub copy_file : (out : ℕ → ℕ) (insize : ℕ) → At
  unfolding outer
  copy_file out insize = outer (record {
    insize = insize;
    write_left = insize;
    offset = 0;
    reads = 0;
    writes = 0;
    requests = [];
    queued = 0;
    out = out;
  })

module _ (infile : ℕ → ℕ) (alloc : Copy → Bool) (enter : Copy → ℤ) where
  -- From one wait or peek to the next.
  unfoldable pub step : At → Event → At
  step (At.wait c) (Event.completed i res) =
      on_completion infile (handle alloc enter) (At.wait c) i res c
  step (At.wait c) Event.failed = At.done (pos 1) c
  step (At.wait c) Event.nothing = At.wait c
  step (At.peek c) (Event.completed i res) =
      on_completion infile (handle alloc enter) (At.peek c) i res c
  step (At.peek c) Event.failed = At.done (pos 1) c
  step (At.peek c) Event.nothing = outer alloc enter c
  step (At.drain c) (Event.completed i res) = on_completion infile handle_last (At.drain c) i res c
  step (At.drain c) Event.failed = At.done (pos 1) c
  step (At.drain c) Event.nothing = At.drain c
  step (At.done ret c) e = At.done ret c
  step (At.abort c) e = At.abort c
  step (At.spin c) e = At.spin c

  -- The rest of `copy_file`, on what its waits are answered.
  unfoldable pub run : At → List Event → At
  unfolding step
  run a [] = a
  run a (e ∷ es) = run (step a e) es
