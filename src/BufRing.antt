-- ===== src/BufRing.antt =====
-- The ring of provided buffers, as the `io_uring_buf_ring_*` helpers of src/include/liburing.h see it.
-- `struct io_uring_buf_ring` is an array of buffers; the 16-bit tail shares its storage with a
-- reserved field of the first, which no buffer uses.
pub mod Fifo
pub mod Available
use liburing.Common.{ℕ, ◌+◌, ◌-◌, ◌%◌, ◌^◌, Option, some, none, bit_and, sub32, if◌then◌else◌}
use liburing.Common.Int.{ℤ, s32, is_nonzero, u32}
use liburing.Common.Window.{upd}
use liburing.Ring.{Ring}
use liburing.Sys.{Os, Calls}
use liburing.Register.Resources.{buf_ring_head}
use liburing.Completion.{cq_advance}

-- `struct io_uring_buf`
pub record Buf : Type 0 where
  pub addr : ℕ
  pub len : ℕ
  pub bid : ℕ

pub record BufRing : Type 0 where
  pub bufs : ℕ → Buf
  pub tail : ℕ

-- `io_uring_buf_ring_mask`
unfoldable pub buf_ring_mask : ℕ → ℕ
buf_ring_mask ring_entries = sub32 ring_entries 1

-- `io_uring_buf_ring_init`
unfoldable pub buf_ring_init : BufRing → BufRing
buf_ring_init br = record br { tail = 0 }

-- `io_uring_buf_ring_add`; the index is not negative where the application counts from 0.
unfoldable pub buf_ring_add : BufRing → (addr len bid mask buf_offset : ℕ) → BufRing
buf_ring_add br addr len bid mask buf_offset = record br {
  bufs =
      upd br.bufs (bit_and (br.tail + buf_offset) mask)
        (record { addr = addr; len = len; bid = bid });
}

-- `io_uring_buf_ring_advance`: the new tail is an `unsigned short`.
unfoldable pub buf_ring_advance : BufRing → (count : ℕ) → BufRing
buf_ring_advance br count = record br { tail = (br.tail + count) % 2 ^ 16 }

-- `__io_uring_buf_ring_cq_advance`
unfoldable pub buf_ring_cq_advance_counts :
    Ring → BufRing → (cq_count buf_count : ℕ) → Ring × BufRing
unfolding buf_ring_advance
buf_ring_cq_advance_counts r br cq_count buf_count =
    (cq_advance r cq_count, buf_ring_advance br buf_count)

-- `io_uring_buf_ring_cq_advance`
unfoldable pub buf_ring_cq_advance : Ring → BufRing → (count : ℕ) → Ring × BufRing
unfolding buf_ring_cq_advance_counts
buf_ring_cq_advance r br count = buf_ring_cq_advance_counts r br count count

-- The end of `io_uring_buf_ring_available`, on what `io_uring_buf_ring_head` returned and stored
abbrev pub available_after : BufRing → ℤ → Option ℕ → ℤ
available_after br ret none = ret
available_after br ret (some head) = if is_nonzero ret then ret else s32 (sub32 br.tail head)

-- `io_uring_buf_ring_available`; `io_uring_buf_ring_head` stores the head where it returns 0.
unfoldable pub buf_ring_available : Os → Calls → Ring → BufRing → (bgid : ℕ) → ℤ × Calls
unfolding buf_ring_head
buf_ring_available os t r br bgid =
    let ((ret, head), t') = buf_ring_head os t r (s32 bgid) in (available_after br ret head, t')
