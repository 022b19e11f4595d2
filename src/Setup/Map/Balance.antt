-- ===== src/Setup/Map/Balance.antt =====
-- What `io_uring_mmap` leaves mapped.
use liburing.Common.{
  ℕ, ◌*◌, ◌^◌, ◌<◌, ◌≡◌, ◌≢◌, refl, sym, ap, ◌∙◌, ◌⊎◌, inl, inr, true, false, List, [], ◌∷◌, ◌++◌,
  ◌==◌, eq→==, ne→==, Bool-cases, if◌then◌else◌, has, arith,
}
use mathlib.Core.Path.{ap₂}
use liburing.Common.Int.{ℤ, pos, is_neg}
use liburing.Abi.Feat
use liburing.Sys.{Params, Call, Calls, Os, MapKind, is_err, mapped_at}
use liburing.Sys.Resources.{
  Region, Absent, regions, after_call, unmapped, unmapped-same, unmapped-other, IsFresh, is_huge,
  ptr_err-neg,
}
use liburing.Setup.Map.{
  Mapping, sqe_size, sq_ring_size, cq_ring_size, sq_map, cq_map, sqes_map, unmap_rings, map_sqes,
  map_cq, mmap, queue_mmap, no_mapping,
}

abbrev pub region : (addr len : ℕ) → Region
region addr len = record { addr = addr; len = len; huge = false }

-- The regions of the two rings, without that of the SQEs.
abbrev pub two_rings : Params → Mapping → List Region
two_rings p m =
    (if has p.features Feat.single_mmap then [] else region m.cq_ring_ptr m.cq_ring_sz ∷ [])
    ++ region m.sq_ring_ptr m.sq_ring_sz ∷ []

-- The regions of a ring that has been mapped, the last first.
abbrev pub ring_regions : Params → Mapping → List Region
ring_regions p m = region m.sqes (sqe_size p.flags * p.sq_entries) ∷ two_rings p m

-- The pointers of a mapped ring.
pub record IsMapped (p : Params) (m : Mapping) : Type 0 where
  pub sq_size : m.sq_ring_sz ≡ sq_ring_size p
  pub sq_some : m.sq_ring_sz ≢ 0
  pub cq_some : m.cq_ring_sz ≢ 0
  pub cq_there : m.cq_ring_ptr ≢ 0
  pub shared :
      ((has p.features Feat.single_mmap ≡ true) × (m.cq_ring_ptr ≡ m.sq_ring_ptr))
      ⊎ ((has p.features Feat.single_mmap ≡ false) × (m.cq_ring_ptr ≢ m.sq_ring_ptr))
  pub sqes_apart : (m.sqes ≢ m.sq_ring_ptr) × (m.sqes ≢ m.cq_ring_ptr)

-- How an attempt to map a ring ends: it fails and leaves nothing, or it leaves the ring's regions.
pub record Outcome (page : ℕ) (os : Os) (p : Params) (t : Calls) (ret : ℤ) (m : Mapping)
    (t' : Calls) : Type 0 where
  pub ends :
      ((is_neg ret ≡ true) × (regions page os t' ≡ regions page os t))
      ⊎ ((ret ≡ pos 0)
          × (regions page os t' ≡ ring_regions p m ++ regions page os t)
          × IsMapped p m)

pub word-lt : (os : Os) (t : Calls) (c : Call) → mapped_at os t c < 2 ^ 64
word-lt os t c = ground arith

module _ (page : ℕ) (os : Os) where
  pub regions-failed :
      (t : Calls) (l : ℕ) (kind : MapKind) (fd : ℤ) (off : ℕ)
      → is_err (mapped_at os t (Call.mmap l kind fd off)) ≡ true
      → regions page os (Call.mmap l kind fd off ∷ t) ≡ regions page os t
  unfolding regions after_call
  regions-failed t l kind fd off e = rw e refl

  pub regions-mapped :
      (t : Calls) (l : ℕ) (kind : MapKind) (fd : ℤ) (off : ℕ)
      → is_err (mapped_at os t (Call.mmap l kind fd off)) ≡ false
      → regions page os (Call.mmap l kind fd off ∷ t)
        ≡ record { addr = mapped_at os t (Call.mmap l kind fd off); len = l; huge = is_huge kind }
          ∷ regions page os t
  unfolding regions after_call
  regions-mapped t l kind fd off e = rw e refl

  -- `io_uring_unmap_rings` where there is only the submission ring's mapping
  pub unmap_rings-one :
      (m : Mapping) (t : Calls)
      → m.sq_ring_sz ≢ 0
      → ((m.cq_ring_ptr ≡ 0) ⊎ (m.cq_ring_ptr ≡ m.sq_ring_ptr))
      → regions page os (unmap_rings m t)
        ≡ unmapped page m.sq_ring_ptr m.sq_ring_sz (regions page os t)
  unfolding unmap_rings regions after_call
  unmap_rings-one m t some (inl e) = rw (ne→== m.sq_ring_sz 0 some, eq→== m.cq_ring_ptr 0 e) refl
  unmap_rings-one m t some (inr e) = elim (Bool-cases (m.cq_ring_ptr == 0)) [
    | inl z ↦ rw (ne→== m.sq_ring_sz 0 some, z) refl
    | inr n ↦ elim (Bool-cases (m.cq_ring_sz == 0)) [
      | inl z ↦ rw (ne→== m.sq_ring_sz 0 some, n, z) refl
      | inr k ↦ rw (ne→== m.sq_ring_sz 0 some, n, k, eq→== m.cq_ring_ptr m.sq_ring_ptr e) refl
    ]
  ]

  pub unmap_rings-two :
      (m : Mapping) (t : Calls)
      → m.sq_ring_sz ≢ 0
      → m.cq_ring_sz ≢ 0
      → m.cq_ring_ptr ≢ 0
      → m.cq_ring_ptr ≢ m.sq_ring_ptr
      → regions page os (unmap_rings m t)
        ≡ unmapped page m.cq_ring_ptr m.cq_ring_sz
            (unmapped page m.sq_ring_ptr m.sq_ring_sz (regions page os t))
  unfolding unmap_rings regions after_call
  unmap_rings-two m t some cq_some there apart =
      rw
        (
          ne→== m.sq_ring_sz 0 some,
          ne→== m.cq_ring_ptr 0 there,
          ne→== m.cq_ring_sz 0 cq_some,
          ne→== m.cq_ring_ptr m.sq_ring_ptr apart,
        )
        refl

module _ (page : ℕ) (os : Os) where
  -- `io_uring_unmap_rings` takes both rings away.
  pub unmap_rings-all :
      (p : Params) (m : Mapping) (t : Calls) (rs : List Region)
      → m.sq_ring_sz ≢ 0
      → m.cq_ring_sz ≢ 0
      → m.cq_ring_ptr ≢ 0
      → ((has p.features Feat.single_mmap ≡ true) × (m.cq_ring_ptr ≡ m.sq_ring_ptr))
        ⊎ ((has p.features Feat.single_mmap ≡ false) × (m.cq_ring_ptr ≢ m.sq_ring_ptr))
      → regions page os t ≡ two_rings p m ++ rs
      → regions page os (unmap_rings m t) ≡ rs
  unmap_rings-all p m t rs sq_some cq_some there (inl (single, same)) e =
      unmap_rings-one page os m t sq_some (inr same)
      ∙ ap (unmapped page m.sq_ring_ptr m.sq_ring_sz) (e ∙ rw single refl)
      ∙ unmapped-same page m.sq_ring_ptr m.sq_ring_sz rs
  unmap_rings-all p m t rs sq_some cq_some there (inr (two, apart)) e =
      unmap_rings-two page os m t sq_some cq_some there apart
      ∙ ap
          (λ l.
            unmapped page m.cq_ring_ptr m.cq_ring_sz (unmapped page m.sq_ring_ptr m.sq_ring_sz l))
          (e ∙ rw two refl)
      ∙ ap (unmapped page m.cq_ring_ptr m.cq_ring_sz) (
          unmapped-other page m.sq_ring_ptr m.sq_ring_sz (region m.cq_ring_ptr m.cq_ring_sz)
            (region m.sq_ring_ptr m.sq_ring_sz ∷ rs) apart
          ∙ ap (λ l. region m.cq_ring_ptr m.cq_ring_sz ∷ l)
              (unmapped-same page m.sq_ring_ptr m.sq_ring_sz rs))
      ∙ unmapped-same page m.cq_ring_ptr m.cq_ring_sz rs

module _ {page : ℕ} {os : Os} (fresh : IsFresh page os) (fd : ℤ) (p : Params) where
  -- The mapping of the SQEs is apart from the rings.
  sqes_elsewhere :
      (m : Mapping) (a : ℕ) (rs : List Region)
      → ((has p.features Feat.single_mmap ≡ true) × (m.cq_ring_ptr ≡ m.sq_ring_ptr))
        ⊎ ((has p.features Feat.single_mmap ≡ false) × (m.cq_ring_ptr ≢ m.sq_ring_ptr))
      → Absent a (two_rings p m ++ rs)
      → (a ≢ m.sq_ring_ptr) × (a ≢ m.cq_ring_ptr)
  sqes_elsewhere m a rs (inl (single, same)) absent =
      let apart = rw single at absent in (λ e. apart.0 (sym e), λ e. apart.0 (sym (e ∙ same)))
  sqes_elsewhere m a rs (inr (two, other)) absent =
      let apart = rw two at absent in (λ e. apart.1.0 (sym e), λ e. apart.0 (sym e))

  -- From a mapping of both rings on
  map_sqes-Outcome :
      (t t' : Calls) (m : Mapping)
      → m.sq_ring_sz ≡ sq_ring_size p
      → m.sq_ring_sz ≢ 0
      → m.cq_ring_sz ≢ 0
      → m.cq_ring_ptr ≢ 0
      → ((has p.features Feat.single_mmap ≡ true) × (m.cq_ring_ptr ≡ m.sq_ring_ptr))
        ⊎ ((has p.features Feat.single_mmap ≡ false) × (m.cq_ring_ptr ≢ m.sq_ring_ptr))
      → regions page os t' ≡ two_rings p m ++ regions page os t
      → Outcome page os p t
          (map_sqes os fd p m t').0
          (map_sqes os fd p m t').1
          (map_sqes os fd p m t').2
  unfolding map_sqes
  map_sqes-Outcome t t' m size sq_some cq_some there shared rs =
      let ptr = mapped_at os t' (sqes_map fd p) in
      elim (Bool-cases (is_err (mapped_at os t' (sqes_map fd p)))) [
        | inl bad ↦ rw bad (record {
          ends = inl (
            ptr_err-neg _ (word-lt os t' (sqes_map fd p)) bad,
            unmap_rings-all page os p (record m { sqes = ptr }) (sqes_map fd p ∷ t')
                (regions page os t) sq_some cq_some there shared
                (regions-failed page os t' _ _ _ _ bad ∙ rs),
          );
        })
        | inr good ↦ rw good (record {
          ends = inr (
            refl,
            regions-mapped page os t' _ _ _ _ good
                ∙ ap (λ l. region ptr (sqe_size p.flags * p.sq_entries) ∷ l) rs,
            record {
              sq_size = size;
              sq_some = sq_some;
              cq_some = cq_some;
              cq_there = there;
              shared = shared;
              sqes_apart =
                  sqes_elsewhere m ptr (regions page os t) shared
                    (rw rs at (fresh.apart t' _ _ _ _ good));
            },
          );
        })
      ]

  cq_ring_size-single : has p.features Feat.single_mmap ≡ true → cq_ring_size p ≡ sq_ring_size p
  unfolding cq_ring_size
  cq_ring_size-single single = rw single refl

  map_cq-Outcome :
      (t t' : Calls) (m : Mapping)
      → m.sq_ring_sz ≡ sq_ring_size p
      → m.cq_ring_sz ≡ cq_ring_size p
      → m.sq_ring_sz ≢ 0
      → m.sq_ring_ptr ≢ 0
      → regions page os t' ≡ region m.sq_ring_ptr m.sq_ring_sz ∷ regions page os t
      → Outcome page os p t (map_cq os fd p m t').0 (map_cq os fd p m t').1 (map_cq os fd p m t').2
  unfolding map_cq
  map_cq-Outcome t t' m size cq_size sq_some there rs =
      elim (Bool-cases (has p.features Feat.single_mmap)) [
        | inl single ↦
            rw (single, map_cq)
              (map_sqes-Outcome t t' (record m { cq_ring_ptr = m.sq_ring_ptr }) size sq_some
                (λ e. sq_some (size ∙ sym (cq_ring_size-single single) ∙ sym cq_size ∙ e)) there
                (inl (single, refl)) (rs ∙ rw single refl))
        | inr two ↦ elim (Bool-cases (is_err (mapped_at os t' (cq_map fd p)))) [
          | inl bad ↦
              rw (two, bad)
                (record {
                  ends = inl (
                    ptr_err-neg _ (word-lt os t' (cq_map fd p)) bad,
                    unmap_rings-one page os _ _ sq_some (inl refl)
                        ∙ ap (unmapped page m.sq_ring_ptr m.sq_ring_sz)
                            (regions-failed page os t' _ _ _ _ bad ∙ rs)
                        ∙ unmapped-same page m.sq_ring_ptr m.sq_ring_sz (regions page os t),
                  );
                })
          | inr good ↦
              let apart = rw rs at (fresh.apart t' _ _ _ _ good) in
              rw (two, good)
                (map_sqes-Outcome t (cq_map fd p ∷ t')
                  (record m { cq_ring_ptr = mapped_at os t' (cq_map fd p) }) size sq_some
                  (λ e. fresh.some_bytes t' _ _ _ _ good (sym cq_size ∙ e))
                  (fresh.nonzero t' _ _ _ _ good) (inr (two, (λ e. apart.0 (sym e))))
                  (regions-mapped page os t' _ _ _ _ good
                    ∙ ap₂ (λ n l. region (mapped_at os t' (cq_map fd p)) n ∷ l) (sym cq_size) rs
                    ∙ rw two refl))
        ]
      ]

  -- On an operating system that maps at fresh addresses, `io_uring_queue_mmap` either returns an
  -- error and leaves mapped what was mapped before, whichever of its calls has failed, or it
  -- returns 0 and leaves the ring's mappings and valid pointers to them.
  pub queue_mmap-Outcome :
      (t : Calls)
      → Outcome page os p t
          (queue_mmap os fd p t).0
          (queue_mmap os fd p t).1
          (queue_mmap os fd p t).2
  unfolding queue_mmap mmap
  queue_mmap-Outcome t = elim (Bool-cases (is_err (mapped_at os t (sq_map fd p)))) [
    | inl bad ↦ rw bad (record {
      ends =
          inl
            (ptr_err-neg _ (word-lt os t (sq_map fd p)) bad, regions-failed page os t _ _ _ _ bad);
    })
    | inr good ↦ rw good (
        map_cq-Outcome t (sq_map fd p ∷ t)
          (record no_mapping {
            sq_ring_ptr = mapped_at os t (sq_map fd p);
            sq_ring_sz = sq_ring_size p;
            cq_ring_sz = cq_ring_size p;
          })
          refl refl (fresh.some_bytes t _ _ _ _ good) (fresh.nonzero t _ _ _ _ good)
          (regions-mapped page os t _ _ _ _ good))
  ]
