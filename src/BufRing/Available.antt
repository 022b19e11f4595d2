-- ===== src/BufRing/Available.antt =====
-- `io_uring_buf_ring_available` against the number of buffers between the two 16-bit counters.
use liburing.Common.{ℕ, ◌+◌, ◌-◌, ◌%◌, ◌^◌, ◌≤◌, ◌<◌, ◌≡◌, ◌∙◌, refl, some, arith}
use liburing.Common.Int.{pos, negsuc, s32, u32}
use liburing.Abi.Register as Op
use liburing.Ring.{Ring}
use liburing.Sys.{RegArg, Calls, Os}
use liburing.Register.{register_call}
use liburing.BufRing.{BufRing, available_after, buf_ring_available}

-- The buffers that the kernel can still take: its counter `head` and the tail run modulo 2^16.
unfoldable pub held : BufRing → ℕ → ℕ
held br head = (br.tail + 2 ^ 16 - head) % 2 ^ 16

after-held :
    (br : BufRing) (head : ℕ)
    → br.tail < 2 ^ 16
    → head ≤ br.tail
    → available_after br (pos 0) (some head) ≡ pos (held br head)
unfolding held
after-held br head small le = ground arith

after-wrapped :
    (br : BufRing) (head : ℕ)
    → br.tail < head
    → head < 2 ^ 16
    → available_after br (pos 0) (some head) ≡ negsuc (2 ^ 16 - held br head - 1)
unfolding held
after-wrapped br head lt small = ground arith

-- `IORING_REGISTER_PBUF_STATUS` succeeds, and the kernel's head is `head`.
module _ (os : Os) (t : Calls) (r : Ring) (br : BufRing) (bgid head rlim : ℕ)
    (answer : os t
        (register_call r Op.register_pbuf_status (RegArg.buf_status (u32 (s32 bgid)) 0) 1)
      ≡ record { ret = pos 0; arg = RegArg.buf_status bgid head; rlim_cur = rlim }) where
  stored : (buf_ring_available os t r br bgid).0 ≡ available_after br (pos 0) (some head)
  unfolding buf_ring_available
  stored = rw answer refl

  -- Where the kernel reports its head and the 16-bit tail has not wrapped past it,
  -- `io_uring_buf_ring_available` returns the number of buffers between the two counters, modulo
  -- 2^16.
  pub buf_ring_available-held :
      br.tail < 2 ^ 16 → head ≤ br.tail → (buf_ring_available os t r br bgid).0 ≡ pos (held br head)
  buf_ring_available-held small le = stored ∙ after-held br head small le

  -- Where the kernel reports its 16-bit head and the tail has wrapped while the head has not,
  -- `io_uring_buf_ring_available` returns a negative number, 65536 less than the number of
  -- buffers between the two counters.
  pub buf_ring_available-wrapped :
      br.tail < head
      → head < 2 ^ 16
      → (buf_ring_available os t r br bgid).0 ≡ negsuc (2 ^ 16 - held br head - 1)
  buf_ring_available-wrapped lt small = stored ∙ after-wrapped br head lt small
