-- ===== src/Tests/BufRing.antt =====
-- Runs of the ring of provided buffers.
use liburing.Common.{ℕ, ◌+◌, ◌-◌, ◌*◌, ◌^◌, ◌≤◌, ◌≡◌, refl, arith, [], ◌∷◌, ◌++◌}
use liburing.Common.Int.{pos, negsuc}
use liburing.Sys.{Os, RegArg}
use liburing.Register.{do_register}
use liburing.Register.Resources.{buf_ring_head}
use liburing.BufRing.{Buf, BufRing, buf_ring_mask, buf_ring_advance, buf_ring_available}
use liburing.BufRing.Available.{held, buf_ring_available-wrapped}
use liburing.BufRing.Fifo.{contents, add_all, buf_ring_fifo}
use liburing.Tests.Data.{small}

abbrev buf : ℕ → Buf
buf i = record { addr = 4096 * i; len = 4096; bid = i }

-- Buffers in a ring of eight whose tail is about to wrap.
abbrev near_wrap : BufRing
near_wrap = record { bufs = buf; tail = 65535 }

abbrev two_more : BufRing
two_more = add_all near_wrap (buf_ring_mask 8) 0 (buf 20 ∷ buf 21 ∷ [])

room : held near_wrap 65533 + 2 ≤ 8
unfolding held
room = omega arith

buf_ring_fifo_example :
    (held (buf_ring_advance two_more 2) 65533 ≡ held near_wrap 65533 + 2)
    × (contents
          (buf_ring_advance two_more 2).bufs
          8
          65533
          (held (buf_ring_advance two_more 2) 65533)
        ≡ contents buf 8 65533 (held near_wrap 65533) ++ buf 20 ∷ buf 21 ∷ [])
buf_ring_fifo_example =
    buf_ring_fifo 3 (omega arith) near_wrap 65533 (omega arith) (omega arith) (buf 20 ∷ buf 21 ∷ [])
      room

-- The kernel has taken all buffers up to `head`.
abbrev reports : (head : ℕ) → Os
reports head t call = record { ret = pos 0; arg = RegArg.buf_status 7 head; rlim_cur = 0 }

abbrev full : BufRing
full = record { bufs = buf; tail = 10 }

buf_ring_available-wrapped_example :
    (buf_ring_available (reports 65534) [] small full 7).0 ≡ negsuc (2 ^ 16 - held full 65534 - 1)
buf_ring_available-wrapped_example =
    buf_ring_available-wrapped (reports 65534) [] small full 7 65534 0 refl (omega arith)
      (omega arith)

-- Twelve buffers are left, and the helper says -65524.
wrapped_run : (buf_ring_available (reports 65534) [] small full 7).0 ≡ negsuc 65523
unfolding buf_ring_available buf_ring_head do_register
wrapped_run = refl
