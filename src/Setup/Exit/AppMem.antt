-- ===== src/Setup/Exit/AppMem.antt =====
-- `io_uring_queue_exit` on a ring in the application's own memory.
use liburing.Common.{
  ℕ, ◌^◌, ◌+◌, ◌*◌, ◌≡◌, ◌≢◌, refl, sym, ap, ◌∙◌, ◌⊎◌, inl, inr, Bool, true, false, not, ◌||◌, ◌∷◌,
  Option, none, some, ◌==◌, eq→==, ne→==, Bool-cases, if◌then◌else◌, has, has-bit_or, bit_or, leb,
  ltb, arith,
}
use mathlib.Core.Option.{none-ne-some}
use liburing.Common.Int.{ℤ, neg, is_neg, eqb}
use liburing.Abi.Errno
use liburing.Abi.Setup as Flag
use liburing.Ring.{Ring}
use liburing.Sys.{Params, Call, Calls, Os, Memory, get_page_size}
use liburing.Setup.{
  clamped, with_cq, with_sq, roundup_pow2, kern_max_entries, kern_max_cq_entries, get_sq_cq_entries,
}
use liburing.Setup.Map.{Mapping, sqe_size, unmap_rings}
use liburing.Setup.Init.{
  Made, failed, sqes_mem, ring_mem, page_align, place_rings, alloc_sized, alloc_huge,
  init_in_memory, init_params, init_try_nosqarr, queue_init_mem,
}
use liburing.Setup.Exit.{exit_memory}

-- The rings lie in the memory that the application gave.
record IsIn (buf : ℕ) (m : Mapping) : Type 0 where
  at_buf : m.sqes ≡ buf
  no_sq : m.sq_ring_sz ≡ 0
  no_cq : m.cq_ring_sz ≡ 0

-- An attempt that ends with a ring has put it there.
record IsPlaced (buf : ℕ) (made : Made) : Type 0 where
  placed : (r : Ring) → made.ring ≡ some r → IsIn buf made.mapping

or_true : (b : Bool) → b || true ≡ true
or_true true = refl
or_true false = refl

-- Sizes are refused with an error.
abbrev IsRefusal : ℤ ⊎ (ℕ × ℕ) → Type 0
IsRefusal (inl ret) = is_neg ret ≡ true
IsRefusal (inr sizes) = Unit

with_cq-IsRefusal : (sq : ℕ) (o : Option ℕ) → IsRefusal (with_cq sq o)
unfolding with_cq
with_cq-IsRefusal sq none = refl
with_cq-IsRefusal sq (some c) = elim (Bool-cases (ltb (roundup_pow2 c) sq)) [
  | inl e ↦ rw e refl
  | inr e ↦ rw e tt
]

with_sq-IsRefusal : (flags cq_entries : ℕ) (o : Option ℕ) → IsRefusal (with_sq flags cq_entries o)
unfolding with_sq
with_sq-IsRefusal flags cq_entries none = refl
with_sq-IsRefusal flags cq_entries (some n) = elim (Bool-cases (has flags Flag.cqsize)) [
  | inl e ↦ rw e (with_cq-IsRefusal (roundup_pow2 n) (clamped kern_max_cq_entries flags cq_entries))
  | inr e ↦ rw e tt
]

clash : (b : Bool) → b ≡ true → b ≡ false → ⊥
clash b holds fails = cc

module _ (os : Os) (p : Params) (entries buf buf_size : ℕ) (given : buf ≢ 0) where
  fits : (used : ℕ) → ltb buf_size used ≡ false → leb used buf_size ≡ true
  fits used e = ground (arith, e)

  alloc_sized-IsIn :
      (page sq cq : ℕ) (t : Calls)
      → is_neg (alloc_sized os p page sq cq buf buf_size t).0 ≡ false
      → IsIn buf (alloc_sized os p page sq cq buf buf_size t).2
  unfolding alloc_sized place_rings
  alloc_sized-IsIn page sq cq t ok =
      let used = page_align page (sqes_mem page sq + ring_mem p.flags sq cq) in
      elim (Bool-cases (ltb buf_size used)) [
        | inl e ↦ absurd (clash true refl (rw (ne→== buf 0 given, e) at ok))
        | inr e ↦
            rw (ne→== buf 0 given, e, fits used e)
              (record { at_buf = refl; no_sq = refl; no_cq = refl })
      ]

  sized :
      (o : ℤ ⊎ (ℕ × ℕ)) (t : Calls)
      → IsRefusal o
      → o ≡ get_sq_cq_entries entries p.flags p.cq_entries
      → is_neg (alloc_huge os p entries buf buf_size t).0 ≡ false
      → IsIn buf (alloc_huge os p entries buf buf_size t).2
  unfolding alloc_huge
  sized (inl ret) t refusal e ok = absurd (clash (is_neg ret) refusal (rw (sym e, is_neg) at ok))
  sized (inr (sq, cq)) t refusal e ok =
      rw (sym e, alloc_huge)
        (alloc_sized-IsIn (get_page_size os t).0 sq cq (get_page_size os t).1
          (rw (sym e, is_neg) at ok))

  alloc_huge-IsIn :
      (t : Calls)
      → is_neg (alloc_huge os p entries buf buf_size t).0 ≡ false
      → IsIn buf (alloc_huge os p entries buf buf_size t).2
  unfolding get_sq_cq_entries
  alloc_huge-IsIn t =
      sized (get_sq_cq_entries entries p.flags p.cq_entries) t
        (with_sq-IsRefusal p.flags p.cq_entries (clamped kern_max_entries p.flags entries)) refl

  in_memory-IsPlaced :
      (mem : Calls → Memory) (p' : Params) (m : Mapping) (used : ℤ) (app : Bool) (t : Calls)
      → IsIn buf m
      → IsPlaced buf (init_in_memory os mem entries p' m used app t)
  unfolding init_in_memory
  in_memory-IsPlaced mem p' m used app t is_in =
      elim (Bool-cases (is_neg (os t (Call.setup entries p')).ret)) [
        | inl e ↦ rw e (record { placed = λ r h. is_in })
        | inr e ↦ rw e (record { placed = λ r h. is_in })
      ]

  attempt :
      (mem : Calls → Memory) (a : ℤ × Params × Mapping × Calls)
      → (is_neg a.0 ≡ false → IsIn buf a.2)
      → IsPlaced buf (
          if is_neg a.0
          then failed a.0 a.1 a.2 a.3
          else init_in_memory os mem entries a.1 a.2 a.0 (not (buf == 0)) a.3)
  attempt mem a is_in = elim (Bool-cases (is_neg a.0)) [
    | inl e ↦ rw e (record { placed = λ r h. absurd (none-ne-some r h) })
    | inr e ↦ rw e (in_memory-IsPlaced mem a.1 a.2 a.0 (not (buf == 0)) a.3 (is_in e))
  ]

  init_params-IsPlaced :
      (mem : Calls → Memory) (t : Calls)
      → has p.flags Flag.no_mmap ≡ true
      → IsPlaced buf (init_params os mem entries p buf buf_size t)
  unfolding init_params
  init_params-IsPlaced mem t own =
      let a = alloc_huge os p entries buf buf_size t in
      elim (Bool-cases (has p.flags Flag.registered_fd_only)) [
        | inl only ↦ rw (only, own) (attempt mem a (alloc_huge-IsIn t))
        | inr all ↦ rw (all, own) (attempt mem a (alloc_huge-IsIn t))
      ]

exit_in :
    {buf : ℕ} (r : Ring) (m : Mapping) (t : Calls)
    → IsIn buf m
    → exit_memory r m t ≡ Call.munmap buf (sqe_size r.flags * r.sq.ring_entries) ∷ t
unfolding exit_memory unmap_rings
exit_in r m t is_in = elim (Bool-cases (m.cq_ring_ptr == 0)) [
  | inl e ↦
      rw (eq→== m.sq_ring_sz 0 is_in.no_sq, e)
        (ap (λ a. Call.munmap a (sqe_size r.flags * r.sq.ring_entries) ∷ t) is_in.at_buf)
  | inr e ↦
      rw (eq→== m.sq_ring_sz 0 is_in.no_sq, e, eq→== m.cq_ring_sz 0 is_in.no_cq)
        (ap (λ a. Call.munmap a (sqe_size r.flags * r.sq.ring_entries) ∷ t) is_in.at_buf)
]

module _ (os : Os) (mem : Calls → Memory) (entries buf buf_size : ℕ) (given : buf ≢ 0) where
  kept_flag :
      (flags : ℕ)
      → has flags Flag.no_mmap ≡ true
      → has (bit_or flags Flag.no_sqarray) Flag.no_mmap ≡ true
  unfolding has
  kept_flag flags e = has-bit_or flags Flag.no_sqarray 14 ∙ rw e refl

  set_flag : (flags : ℕ) → has (bit_or flags Flag.no_mmap) Flag.no_mmap ≡ true
  unfolding has
  set_flag flags = has-bit_or flags Flag.no_mmap 14 ∙ or_true (has flags (2 ^ 14))

  try_nosqarr-IsPlaced :
      (p : Params) (t : Calls)
      → has p.flags Flag.no_mmap ≡ true
      → IsPlaced buf (init_try_nosqarr os mem entries p buf buf_size t)
  unfolding init_try_nosqarr
  try_nosqarr-IsPlaced p t own =
      let p' : Params = record p { flags = bit_or p.flags Flag.no_sqarray } in
      let one = init_params os mem entries p' buf buf_size t in
      elim (Bool-cases (not (eqb one.ret (neg Errno.einval)) || has p.flags Flag.no_sqarray)) [
        | inl e ↦
            rw e
              (init_params-IsPlaced os p' entries buf buf_size given mem t (kept_flag p.flags own))
        | inr e ↦ rw e (
            init_params-IsPlaced os (record one.params { flags = p.flags }) entries buf buf_size
              given mem one.calls own)
      ]

  -- Where `io_uring_queue_init_mem` makes a ring in memory of the application,
  -- `io_uring_queue_exit` unmaps that memory from its start on, as many bytes as the SQEs take.
  pub exit_memory-unmaps_app_mem :
      (p : Params) (t : Calls) (r : Ring)
      → (queue_init_mem os mem entries p buf buf_size t).ring ≡ some r
      → exit_memory r
          (queue_init_mem os mem entries p buf buf_size t).mapping
          (queue_init_mem os mem entries p buf buf_size t).calls
        ≡ Call.munmap buf (sqe_size r.flags * r.sq.ring_entries)
          ∷ (queue_init_mem os mem entries p buf buf_size t).calls
  unfolding queue_init_mem
  exit_memory-unmaps_app_mem p t r is_ring =
      let p' : Params = record p { flags = bit_or p.flags Flag.no_mmap } in
      exit_in r _ _ ((try_nosqarr-IsPlaced p' t (set_flag p.flags)).placed r is_ring)
