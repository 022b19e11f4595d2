-- ===== src/Nolibc/Heap.antt =====
-- What malloc hands out and free takes back.
use liburing.Common.{ℕ, ◌+◌, ◌-◌, ◌%◌, ◌^◌, ◌≡◌, ap, ◌∙◌, inl, inr, ◌∷◌, Bool-cases, ne→==, arith}
use liburing.Common.Window.{upd}
use liburing.Sys.{Calls, Os, is_err, mapped_at}
use liburing.Sys.Resources.{regions, unmapped, unmapped-same, munmap-regions, IsFresh}
use liburing.Setup.Map.Balance.{regions-failed, regions-mapped}
use liburing.Nolibc.{heap_size, heap_map, uring_malloc, uring_free}

upd_same : (f : ℕ → ℕ) (i v : ℕ) → upd f i v i ≡ v
upd_same f i v = ground arith

module _ {page : ℕ} {os : Os} (fresh : IsFresh page os) (words : ℕ → ℕ) (len : ℕ) (t : Calls) where
  -- On an operating system that maps at fresh addresses, `__uring_free` of what `__uring_malloc`
  -- returned, NULL included, leaves mapped what was mapped before, unless the word in front of
  -- the block has been overwritten.
  pub uring_free-restores :
      (words' : ℕ → ℕ)
      → words' ((uring_malloc os words len t).0 - heap_size)
        ≡ (uring_malloc os words len t).1 ((uring_malloc os words len t).0 - heap_size)
      → regions page os
          (uring_free words' (uring_malloc os words len t).0 (uring_malloc os words len t).2)
        ≡ regions page os t
  unfolding uring_malloc uring_free
  uring_free-restores words' kept =
      let heap = mapped_at os t (heap_map len) in
      elim (Bool-cases (is_err heap)) [
        | inl bad ↦ rw bad (regions-failed page os t _ _ _ _ bad)
        | inr good ↦
            let length = (heap_size + len) % 2 ^ 64 in
            let back : heap + heap_size - heap_size ≡ heap = omega arith in
            let header : words' heap ≡ length =
              (rw (good, back) at kept) ∙ upd_same words heap length in
            rw (good, ne→== (heap + heap_size) 0 (λ e. omega (arith, e)), back, header)
              (munmap-regions page os heap length (heap_map len ∷ t)
                ∙ ap (unmapped page heap length) (regions-mapped page os t _ _ _ _ good)
                ∙ unmapped-same page heap length (regions page os t))
      ]
