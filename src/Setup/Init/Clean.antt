-- ===== src/Setup/Init/Clean.antt =====
-- What setting up a ring leaves behind: nothing after an error, the ring's mappings and its descriptor
-- after a success, and nothing once such a ring has been torn down.
use liburing.Common.{
  ℕ, ◌≡◌, refl, ap, ◌∙◌, ◌⊎◌, inl, inr, Bool, true, false, not, ◌||◌, ◌∷◌, ◌++◌, none, some,
  Bool-cases, has, bit_or, has-bit_or, arith,
}
use liburing.Common.Int.{ℤ, pos, neg, is_neg, eqb}
use liburing.Abi.Errno
use liburing.Abi.Feat
use liburing.Abi.Setup as Flag
use liburing.Sys.{Params, Call, Calls, Os, Memory, is_err, mapped_at}
use liburing.Sys.Resources.{
  regions, after_call, IsFresh, fds, fds-setup_failed, fds-setup, fds-close, nonzero_of_neg,
}
use liburing.Setup.Map.{
  Mapping, unmap_rings, map_sqes, map_cq, mmap, queue_mmap, sq_ring_size, cq_ring_size, cq_map,
  sq_map, sqes_map, no_mapping, setup_ring_pointers,
}
use liburing.Setup.Map.Balance.{ring_regions, IsMapped, queue_mmap-Outcome}
use liburing.Setup.Init.{
  Made, params_of, finish_ring, init_mapped, init_params, init_try_nosqarr, queue_init_params,
}

module _ (os : Os) where
  pub unmap_rings-fds : (m : Mapping) (t : Calls) → fds os (unmap_rings m t) ≡ fds os t
  unfolding unmap_rings fds
  unmap_rings-fds m t = ground arith

  module _ (fd : ℤ) (p : Params) where
    map_sqes-fds : (m : Mapping) (t : Calls) → fds os (map_sqes os fd p m t).2 ≡ fds os t
    unfolding map_sqes fds
    map_sqes-fds m t = elim (Bool-cases (is_err (mapped_at os t (sqes_map fd p)))) [
      | inl e ↦ rw e (unmap_rings-fds _ _)
      | inr e ↦ rw e refl
    ]

    map_cq-fds : (m : Mapping) (t : Calls) → fds os (map_cq os fd p m t).2 ≡ fds os t
    unfolding map_cq fds
    map_cq-fds m t = elim (Bool-cases (has p.features Feat.single_mmap)) [
      | inl s ↦ rw s (map_sqes-fds (record m { cq_ring_ptr = m.sq_ring_ptr }) t)
      | inr s ↦ elim (Bool-cases (is_err (mapped_at os t (cq_map fd p)))) [
        | inl e ↦ rw (s, e) (unmap_rings-fds _ _)
        | inr e ↦
            rw (s, e)
              (map_sqes-fds (record m { cq_ring_ptr = mapped_at os t (cq_map fd p) })
                (cq_map fd p ∷ t))
      ]
    ]

    pub queue_mmap-fds : (t : Calls) → fds os (queue_mmap os fd p t).2 ≡ fds os t
    unfolding queue_mmap mmap fds
    queue_mmap-fds t = elim (Bool-cases (is_err (mapped_at os t (sq_map fd p)))) [
      | inl e ↦ rw e refl
      | inr e ↦ rw e (
          map_cq-fds
            (record no_mapping {
              sq_ring_ptr = mapped_at os t (sq_map fd p);
              sq_ring_sz = sq_ring_size p;
              cq_ring_sz = cq_ring_size p;
            })
            (sq_map fd p ∷ t))
    ]

-- A failed attempt: an error, and the same mappings and descriptors as before.
pub record IsUndone (page : ℕ) (os : Os) (t : Calls) (made : Made) : Type 0 where
  pub error : is_neg made.ret ≡ true
  pub no_ring : made.ring ≡ none
  pub same_regions : regions page os made.calls ≡ regions page os t
  pub same_fds : fds os made.calls ≡ fds os t

-- A ring that has been set up, with its mappings and its descriptor.
pub record IsSetUp (page : ℕ) (os : Os) (mem : Calls → Memory) (t : Calls) (made : Made)
    : Type 0 where
  pub fd : ℤ
  pub success : made.ret ≡ pos 0
  pub ring :
      made.ring
      ≡ some (
          finish_ring made.params fd 0
            (setup_ring_pointers (mem made.calls) made.params made.mapping))
  pub not_error : is_neg fd ≡ false
  pub mapped : IsMapped made.params made.mapping
  pub new_regions :
      regions page os made.calls ≡ ring_regions made.params made.mapping ++ regions page os t
  pub new_fd : fds os made.calls ≡ fd ∷ fds os t

plain_flags :
    (flags : ℕ)
    → has flags Flag.no_mmap ≡ false
    → has (bit_or flags Flag.no_sqarray) Flag.no_mmap ≡ false
unfolding has
plain_flags flags e = has-bit_or flags Flag.no_sqarray 14 ∙ rw e refl

refused : {ret : ℤ} (b : Bool) → ret ≡ pos 0 → (not (eqb ret (neg Errno.einval)) || b) ≡ false → ⊥
refused {ret} b z e = ground (arith, z, e)

module _ {page : ℕ} {os : Os} (fresh : IsFresh page os) (mem : Calls → Memory) where
  init_mapped_cases :
      (entries : ℕ) (p : Params) (t : Calls)
      → IsUndone page os t (init_mapped os mem entries p t)
        ⊎ IsSetUp page os mem t (init_mapped os mem entries p t)
  unfolding init_mapped regions after_call fds
  init_mapped_cases entries p t =
      let call = Call.setup entries p in
      let fd = (os t call).ret in
      let p' = params_of p (os t call).arg in
      let t' : Calls = call ∷ t in
      elim (Bool-cases (is_neg fd)) [
        | inl e ↦ inl (
            rw e (record {
              error = e;
              no_ring = refl;
              same_regions = refl;
              same_fds = fds-setup_failed os t entries p e;
            }))
        | inr e ↦ elim (queue_mmap-Outcome fresh fd p' t').ends [
          | inl (bad, rs) ↦ inl (
              rw (e, nonzero_of_neg _ bad)
                (record {
                  error = bad;
                  no_ring = refl;
                  same_regions = rs;
                  same_fds =
                      fds-close os (queue_mmap os fd p' t').2 fd (fds os t)
                        (queue_mmap-fds os fd p' t' ∙ fds-setup os t entries p e);
                }))
          | inr (good, rs, m) ↦ inr (
              rw (e, good)
                (record {
                  fd = fd;
                  success = refl;
                  ring = refl;
                  not_error = e;
                  mapped = m;
                  new_regions = rs;
                  new_fd = queue_mmap-fds os fd p' t' ∙ fds-setup os t entries p e;
                }))
        ]
      ]

  -- Where the kernel makes the mappings, `__io_uring_queue_init_params` refuses or does as above.
  init_params_cases :
      (entries : ℕ) (p : Params) (t : Calls)
      → has p.flags Flag.no_mmap ≡ false
      → IsUndone page os t (init_params os mem entries p 0 0 t)
        ⊎ IsSetUp page os mem t (init_params os mem entries p 0 0 t)
  unfolding init_params
  init_params_cases entries p t mapped = elim (Bool-cases (has p.flags Flag.registered_fd_only)) [
    | inl r ↦ inl (
        rw (r, mapped)
          (record { error = refl; no_ring = refl; same_regions = refl; same_fds = refl }))
    | inr r ↦ rw (r, mapped) (init_mapped_cases entries p t)
  ]

  -- An attempt that follows one which left nothing
  later :
      {t t' : Calls} {made : Made}
      → regions page os t' ≡ regions page os t
      → fds os t' ≡ fds os t
      → IsUndone page os t' made ⊎ IsSetUp page os mem t' made
      → IsUndone page os t made ⊎ IsSetUp page os mem t made
  later rs fs (inl u) = inl (record {
    error = u.error;
    no_ring = u.no_ring;
    same_regions = u.same_regions ∙ rs;
    same_fds = u.same_fds ∙ fs;
  })
  later {t} {t'} {made} rs fs (inr u) = inr (record {
    fd = u.fd;
    success = u.success;
    ring = u.ring;
    not_error = u.not_error;
    mapped = u.mapped;
    new_regions = u.new_regions ∙ ap (λ l. ring_regions made.params made.mapping ++ l) rs;
    new_fd = u.new_fd ∙ ap (λ l. u.fd ∷ l) fs;
  })

  try_nosqarr_cases :
      (entries : ℕ) (p : Params) (t : Calls)
      → has p.flags Flag.no_mmap ≡ false
      → IsUndone page os t (init_try_nosqarr os mem entries p 0 0 t)
        ⊎ IsSetUp page os mem t (init_try_nosqarr os mem entries p 0 0 t)
  unfolding init_try_nosqarr
  try_nosqarr_cases entries p t mapped =
      let p' : Params = record p { flags = bit_or p.flags Flag.no_sqarray } in
      let one = init_params os mem entries p' 0 0 t in
      let first = init_params_cases entries p' t (plain_flags p.flags mapped) in
      elim (Bool-cases (not (eqb one.ret (neg Errno.einval)) || has p.flags Flag.no_sqarray)) [
        | inl e ↦ rw e first
        | inr e ↦ rw e (elim first [
          | inl u ↦
              later u.same_regions u.same_fds
                (init_params_cases entries (record one.params { flags = p.flags }) one.calls mapped)
          | inr u ↦ absurd (refused _ u.success e)
        ])
      ]

  -- On an operating system that maps at fresh addresses, for a ring in memory of the kernel,
  -- `io_uring_queue_init_params` either returns an error, makes no ring and leaves the mappings
  -- and descriptors as they were, or returns 0 and leaves the ring's mappings and one descriptor
  -- more; this counts the second attempt after a kernel that does not know the first one's flag.
  pub queue_init_params_cases :
      (entries : ℕ) (p : Params) (t : Calls)
      → has p.flags Flag.no_mmap ≡ false
      → IsUndone page os t (queue_init_params os mem entries p t)
        ⊎ IsSetUp page os mem t (queue_init_params os mem entries p t)
  unfolding queue_init_params
  queue_init_params_cases entries p t mapped = elim (try_nosqarr_cases entries p t mapped) [
    | inl u ↦ inl (record {
      error = rw u.error u.error;
      no_ring = u.no_ring;
      same_regions = u.same_regions;
      same_fds = u.same_fds;
    })
    | inr u ↦ inr (record {
      fd = u.fd;
      success = rw u.success refl;
      ring = u.ring;
      not_error = u.not_error;
      mapped = u.mapped;
      new_regions = u.new_regions;
      new_fd = u.new_fd;
    })
  ]
