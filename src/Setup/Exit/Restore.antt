-- ===== src/Setup/Exit/Restore.antt =====
-- `io_uring_queue_exit` against what setting up the ring has mapped and opened.
use liburing.Common.{
  ℕ, ◌+◌, ◌-◌, ◌*◌, ◌<◌, ◌≡◌, ◌≢◌, refl, sym, ap, ◌∙◌, inl, inr, Bool, true, false, List, ◌∷◌, ◌++◌,
  some, ◌==◌, ne→==, Bool-cases, if◌then◌else◌, has, leb, arith,
}
use mathlib.Core.Option.{some-injective, none-ne-some}
use liburing.Common.Int.{ℤ, pos, negsuc, neg, is_neg, eqb}
use liburing.Abi.IntFlag
use liburing.Abi.Setup as Flag
use liburing.Ring.{Ring}
use liburing.Sys.{Params, Call, Calls, Os, Memory}
use liburing.Sys.Resources.{
  Region, IsFresh, regions, pages, rest_of, unmapped, unmapped-same, unmapped-other, fds, fds-close,
  munmap-regions, close-regions, munmap-fds,
}
use liburing.Setup.Map.{Mapping, sqe_size, unmap_rings}
use liburing.Setup.Map.Balance.{
  region, two_rings, ring_regions, IsMapped, unmap_rings-all, unmap_rings-one, unmap_rings-two,
}
use liburing.Setup.Init.{finish_ring, queue_init_params}
use liburing.Setup.Init.Clean.{unmap_rings-fds, queue_init_params_cases}
use liburing.Setup.Exit.{exit_memory, queue_exit}

module _ (page : ℕ) (os : Os) where
  -- A mapping above both rings stays where it is.
  unmap_rings-below :
      (p : Params) (m : Mapping) (t : Calls) (x : Region) (rs : List Region)
      → IsMapped p m
      → x.addr ≢ m.sq_ring_ptr
      → x.addr ≢ m.cq_ring_ptr
      → regions page os t ≡ x ∷ two_rings p m ++ rs
      → regions page os (unmap_rings m t) ≡ x ∷ rs
  unmap_rings-below p m t x rs v sq_ne cq_ne e = elim v.shared [
    | inl (single, same) ↦
        unmap_rings-one page os m t v.sq_some (inr same)
        ∙ ap (unmapped page m.sq_ring_ptr m.sq_ring_sz) (e ∙ rw single refl)
        ∙ unmapped-other page m.sq_ring_ptr m.sq_ring_sz x (region m.sq_ring_ptr m.sq_ring_sz ∷ rs)
            sq_ne
        ∙ ap (λ l. x ∷ l) (unmapped-same page m.sq_ring_ptr m.sq_ring_sz rs)
    | inr (two, apart) ↦
        let sq = region m.sq_ring_ptr m.sq_ring_sz in
        let cq = region m.cq_ring_ptr m.cq_ring_sz in
        unmap_rings-two page os m t v.sq_some v.cq_some v.cq_there apart
        ∙ ap
            (λ l.
              unmapped page m.cq_ring_ptr m.cq_ring_sz (unmapped page m.sq_ring_ptr m.sq_ring_sz l))
            (e ∙ rw two refl)
        ∙ ap (unmapped page m.cq_ring_ptr m.cq_ring_sz) (
            unmapped-other page m.sq_ring_ptr m.sq_ring_sz x (cq ∷ sq ∷ rs) sq_ne
            ∙ ap (λ l. x ∷ l)
                (unmapped-other page m.sq_ring_ptr m.sq_ring_sz cq (sq ∷ rs) apart
                  ∙ ap (λ l. cq ∷ l) (unmapped-same page m.sq_ring_ptr m.sq_ring_sz rs)))
        ∙ unmapped-other page m.cq_ring_ptr m.cq_ring_sz x (cq ∷ rs) cq_ne
        ∙ ap (λ l. x ∷ l) (unmapped-same page m.cq_ring_ptr m.cq_ring_sz rs)
  ]

  module _ (p : Params) (r : Ring) (m : Mapping) (t : Calls) (rs : List Region) (v : IsMapped p m)
      (own : has r.int_flags IntFlag.app_mem ≡ false) (same : r.sq.ring_entries ≡ p.sq_entries)
      (here : regions page os t ≡ ring_regions p m ++ rs) where
    sqes_length :
        (b : Bool) (n : ℕ)
        → has p.flags Flag.sqe128 ≡ b
        → (if b then 128 else 64) * p.sq_entries ≡ n
        → sqe_size p.flags * p.sq_entries ≡ n
    sqes_length b n e k = rw e k

    exit_memory-regions : has p.flags Flag.sqe128 ≡ false → regions page os (exit_memory r m t) ≡ rs
    unfolding exit_memory
    exit_memory-regions small =
        rw (ne→== m.sq_ring_sz 0 v.sq_some, own)
          (unmap_rings-all page os p m (Call.munmap m.sqes (r.sq.ring_entries * 64) ∷ t) rs
            v.sq_some v.cq_some v.cq_there v.shared
            (munmap-regions page os m.sqes (r.sq.ring_entries * 64) t
              ∙ ap (unmapped page m.sqes (r.sq.ring_entries * 64)) here
              ∙ ap
                  (λ n.
                    unmapped page m.sqes (r.sq.ring_entries * 64)
                      (region m.sqes n ∷ two_rings p m ++ rs))
                  (sqes_length false (r.sq.ring_entries * 64) small (omega (arith, same)))
              ∙ unmapped-same page m.sqes (r.sq.ring_entries * 64) (two_rings p m ++ rs)))

    -- What is left of the SQEs' mapping once as many bytes as small SQEs take have been unmapped.
    unfoldable pub left_over : Region
    left_over =
        let gone = pages page (r.sq.ring_entries * 64) * page in
        record { addr = m.sqes + gone; len = 128 * p.sq_entries - gone; huge = false }

    not_leb : {a b : ℕ} → b < a → leb a b ≡ false
    not_leb lt = ground (arith, lt)

    unmapped-some :
        (a l n : ℕ) (xs : List Region)
        → leb (pages page n) (pages page l) ≡ false
        → unmapped page a l (region a n ∷ xs)
          ≡ record { addr = a + pages page l * page; len = n - pages page l * page; huge = false }
            ∷ xs
    unfolding unmapped rest_of
    unmapped-some a l n xs e = ground (arith, e)

    -- On a mapped ring of the kernel with SQEs of 128 bytes, as many as its word of entries
    -- says, which take more pages than as many SQEs of 64 bytes, and whose second part does not
    -- start where a ring is mapped, `io_uring_queue_exit` takes away both rings and the first
    -- part of the SQEs, and leaves the pages of the SQEs beyond 64 bytes for each mapped.
    pub exit_memory-sqe128 :
        has p.flags Flag.sqe128 ≡ true
        → pages page (r.sq.ring_entries * 64) < pages page (128 * p.sq_entries)
        → left_over.addr ≢ m.sq_ring_ptr
        → left_over.addr ≢ m.cq_ring_ptr
        → regions page os (exit_memory r m t) ≡ left_over ∷ rs
    unfolding exit_memory left_over
    exit_memory-sqe128 big more sq_ne cq_ne =
        rw (ne→== m.sq_ring_sz 0 v.sq_some, own)
          (unmap_rings-below p m (Call.munmap m.sqes (r.sq.ring_entries * 64) ∷ t) left_over rs v
            sq_ne cq_ne
            (munmap-regions page os m.sqes (r.sq.ring_entries * 64) t
              ∙ ap (unmapped page m.sqes (r.sq.ring_entries * 64)) here
              ∙ ap
                  (λ n.
                    unmapped page m.sqes (r.sq.ring_entries * 64)
                      (region m.sqes n ∷ two_rings p m ++ rs))
                  (sqes_length true (128 * p.sq_entries) big refl)
              ∙ unmapped-some m.sqes (r.sq.ring_entries * 64) (128 * p.sq_entries)
                  (two_rings p m ++ rs) (not_leb more)))

  exit_memory-fds : (r : Ring) (m : Mapping) (t : Calls) → fds os (exit_memory r m t) ≡ fds os t
  unfolding exit_memory
  exit_memory-fds r m t = elim (Bool-cases (m.sq_ring_sz == 0)) [
    | inl e ↦ rw e (unmap_rings-fds os m _ ∙ munmap-fds page os m.sqes _ t)
    | inr e ↦ elim (Bool-cases (has r.int_flags IntFlag.app_mem)) [
      | inl a ↦ rw (e, a) refl
      | inr a ↦ rw (e, a) (unmap_rings-fds os m _ ∙ munmap-fds page os m.sqes _ t)
    ]
  ]

  -- A ring whose descriptor is not registered
  module _ (r : Ring) (m : Mapping) (t : Calls) (plain : has r.int_flags IntFlag.reg_ring ≡ false)
      (is_open : is_neg r.ring_fd ≡ false) where
    not_minus_one : (fd : ℤ) → is_neg fd ≡ false → eqb fd (neg 1) ≡ false
    not_minus_one (pos n) e = refl
    not_minus_one (negsuc n) e = cc

    queue_exit_plain : queue_exit os r m t ≡ Call.close r.ring_fd ∷ exit_memory r m t
    unfolding queue_exit
    queue_exit_plain = rw (plain, not_minus_one r.ring_fd is_open) refl

module _ {page : ℕ} {os : Os} (fresh : IsFresh page os) (mem : Calls → Memory) (entries : ℕ)
    (p : Params) (t : Calls) where
  finish_ring-fd :
      (p' : Params) (fd : ℤ) (r r' : Ring)
      → has p'.flags Flag.registered_fd_only ≡ false
      → r ≡ finish_ring p' fd 0 r'
      → (r.ring_fd ≡ fd) × (r.int_flags ≡ 0)
  unfolding finish_ring
  finish_ring-fd p' fd r r' e eq =
      (ap (λ x. x.ring_fd) eq ∙ rw e refl, ap (λ x. x.int_flags) eq ∙ rw e refl)

  -- The ring that is made, torn down after calls that leave what is mapped and open as it is
  pub queue_exit_after :
      (r : Ring) (t' : Calls)
      → has p.flags Flag.no_mmap ≡ false
      → (queue_init_params os mem entries p t).ring ≡ some r
      → r.sq.ring_entries ≡ (queue_init_params os mem entries p t).params.sq_entries
      → has (queue_init_params os mem entries p t).params.flags Flag.registered_fd_only ≡ false
      → has (queue_init_params os mem entries p t).params.flags Flag.sqe128 ≡ false
      → regions page os t' ≡ regions page os (queue_init_params os mem entries p t).calls
      → fds os t' ≡ fds os (queue_init_params os mem entries p t).calls
      → (regions page os (queue_exit os r (queue_init_params os mem entries p t).mapping t')
          ≡ regions page os t)
        × (fds os (queue_exit os r (queue_init_params os mem entries p t).mapping t') ≡ fds os t)
  unfolding has
  queue_exit_after r t' mapped is_ring same kept small rs fs =
      elim (queue_init_params_cases fresh mem entries p t mapped) [
        | inl u ↦ absurd (none-ne-some r (sym u.no_ring ∙ is_ring))
        | inr u ↦
            let made = queue_init_params os mem entries p t in
            let (fd_eq, flags_eq) =
              finish_ring-fd made.params u.fd r _ kept
                (some-injective _ _ (sym is_ring ∙ u.ring)) in
            let exits =
              queue_exit_plain page os r made.mapping t' (rw flags_eq refl)
                (rw fd_eq u.not_error) in
            let after = exit_memory r made.mapping t' in
            (
              ap (regions page os) exits
                  ∙ close-regions page os r.ring_fd after
                  ∙ exit_memory-regions page os made.params r made.mapping t' (regions page os t)
                      u.mapped (rw flags_eq refl) same (rs ∙ u.new_regions) small,
              ap (fds os) exits
                  ∙ fds-close os after r.ring_fd (fds os t) (
                      exit_memory-fds page os r made.mapping t'
                      ∙ fs
                      ∙ u.new_fd
                      ∙ ap (λ f. f ∷ fds os t) (sym fd_eq)),
            )
      ]

  -- On an operating system that maps at fresh addresses, where `io_uring_queue_init_params`
  -- makes a ring in memory of the kernel, whose word of entries is that of the parameters, with
  -- small SQEs and with a descriptor, `io_uring_queue_exit` takes back every mapping and
  -- descriptor: both are as before the ring was made.
  pub queue_exit-restores :
      (r : Ring)
      → has p.flags Flag.no_mmap ≡ false
      → (queue_init_params os mem entries p t).ring ≡ some r
      → r.sq.ring_entries ≡ (queue_init_params os mem entries p t).params.sq_entries
      → has (queue_init_params os mem entries p t).params.flags Flag.registered_fd_only ≡ false
      → has (queue_init_params os mem entries p t).params.flags Flag.sqe128 ≡ false
      → (regions page os (
            queue_exit os r
              (queue_init_params os mem entries p t).mapping
              (queue_init_params os mem entries p t).calls)
          ≡ regions page os t)
        × (fds os (
              queue_exit os r
                (queue_init_params os mem entries p t).mapping
                (queue_init_params os mem entries p t).calls)
            ≡ fds os t)
  queue_exit-restores r mapped is_ring same kept small =
      queue_exit_after r (queue_init_params os mem entries p t).calls mapped is_ring same kept small
        refl refl
