-- ===== src/Tests/Provided.antt =====
-- Provided buffers and probes with the operating system of the tests.
use liburing.Common.{ℕ, ◌≡◌, refl, ap, false, [], some, has, sym}
use mathlib.Core.Option.{some-injective}
use liburing.Common.Int.{ℤ, pos}
use liburing.Abi.Setup as Flag
use liburing.Ring.{Ring}
use liburing.BufRing.{BufRing}
use liburing.Sys.{Calls}
use liburing.Sys.Resources.{regions}
use liburing.Register.{register_ret, do_register}
use liburing.Register.Resources.{register_buf_ring, unregister_buf_ring}
use liburing.Setup.Provided.{br_setup, setup_buf_ring, free_buf_ring}
use liburing.Setup.Provided.Balance.{BufOutcome, setup_buf_ring-BufOutcome, free_buf_ring-restores}
use liburing.Setup.Init.{
  Made, plain_params, finish_ring, queue_init, queue_init_params, init_try_nosqarr, init_params,
  init_mapped,
}
use liburing.Setup.Map.{
  setup_ring_pointers, queue_mmap, mmap, map_cq, map_sqes, sq_ring_size, cq_ring_size,
}
use liburing.Setup.Probe.{get_probe}
use liburing.Setup.Probe.Clean.{IsSame, get_probe-IsSame}
use liburing.Tests.Data.{small}
use liburing.Tests.Os.{map_os, memory, map_os-IsFresh}

abbrev empty_bufs : ℕ → BufRing
empty_bufs a = record { bufs = λ i. record { addr = 0; len = 0; bid = 0 }; tail = 7 }

setup_buf_ring-BufOutcome_example :
    BufOutcome 4096 map_os 8 []
      (setup_buf_ring map_os small 8 (pos 1) empty_bufs []).0
      (setup_buf_ring map_os small 8 (pos 1) empty_bufs []).1
      (setup_buf_ring map_os small 8 (pos 1) empty_bufs []).2
      (setup_buf_ring map_os small 8 (pos 1) empty_bufs []).3
setup_buf_ring-BufOutcome_example =
    setup_buf_ring-BufOutcome (map_os-IsFresh 4096) small 8 (pos 1) empty_bufs []

made_bufs : (setup_buf_ring map_os small 8 (pos 1) empty_bufs []).0 ≡ pos 0
unfolding setup_buf_ring br_setup register_buf_ring register_ret do_register has
made_bufs = refl

abbrev freed : ℤ × Calls
freed =
    free_buf_ring map_os small 8 (pos 1) (setup_buf_ring map_os small 8 (pos 1) empty_bufs []).1
      (setup_buf_ring map_os small 8 (pos 1) empty_bufs []).3

freed_bufs : freed.0 ≡ pos 0
unfolding setup_buf_ring br_setup free_buf_ring register_buf_ring unregister_buf_ring register_ret
    do_register has
freed_bufs = refl

free_buf_ring-restores_example : regions 4096 map_os freed.1 ≡ regions 4096 map_os []
free_buf_ring-restores_example =
    free_buf_ring-restores (map_os-IsFresh 4096) small 8 (pos 1) empty_bufs [] made_bufs freed_bufs

-- The rings that are made to ask
abbrev asked : ℕ → Made
asked entries = queue_init_params map_os memory entries (plain_params 0) []

asked_flags : (flag : ℕ) → has 65536 flag ≡ false → has (asked 2).params.flags flag ≡ false
unfolding queue_init_params init_try_nosqarr init_params init_mapped queue_mmap mmap map_cq map_sqes
    has finish_ring setup_ring_pointers sq_ring_size cq_ring_size
asked_flags flag e = e

asked_words : (r : Ring) → (asked 2).ring ≡ some r → r.sq.ring_entries ≡ (asked 2).params.sq_entries
unfolding queue_init_params init_try_nosqarr init_params init_mapped queue_mmap mmap map_cq map_sqes
    has finish_ring setup_ring_pointers sq_ring_size cq_ring_size
asked_words r e = sym (ap (λ x. x.sq.ring_entries) (some-injective _ _ e))

get_probe-IsSame_example : IsSame 4096 map_os [] (get_probe map_os memory []).1
unfolding queue_init has
get_probe-IsSame_example =
    get_probe-IsSame (map_os-IsFresh 4096) memory [] asked_words
      (asked_flags Flag.registered_fd_only refl) (asked_flags Flag.sqe128 refl)
