-- ===== src/Tests/Setup.antt =====
-- Sizes of concrete rings.
use liburing.Common.{◌+◌, ◌≤◌, ◌≡◌, refl, inr, arith, has}
use liburing.Setup.{
  digit_count, fls, roundup_pow2, clamped, with_cq, with_sq, get_sq_cq_entries, rings_size,
}
use liburing.Setup.Entries.{Sizes, get_sq_cq_entries-Sizes}
use liburing.Setup.Memory.{cqes_size, sqes_size, rings_size-covers}

-- `IORING_SETUP_CQSIZE` and `IORING_SETUP_CLAMP`
sizes_run : get_sq_cq_entries 100 24 70000 ≡ inr (128, 65536)
unfolding get_sq_cq_entries with_sq with_cq clamped roundup_pow2 fls digit_count has
sizes_run = refl

get_sq_cq_entries-Sizes_example : Sizes 100 128 65536
get_sq_cq_entries-Sizes_example = get_sq_cq_entries-Sizes 100 24 70000 sizes_run

rings_size-covers_example : cqes_size 0 256 + sqes_size 0 128 ≤ rings_size 0 128 256 4096
rings_size-covers_example =
    rings_size-covers 4096 (omega arith) 0 128 256 (omega arith) (omega arith) (omega arith)
