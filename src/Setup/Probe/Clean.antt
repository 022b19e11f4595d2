-- ===== src/Setup/Probe/Clean.antt =====
-- Asking what the kernel supports leaves nothing behind.
use liburing.Common.{
  ℕ, ◌≡◌, refl, sym, ◌∙◌, ◌⊎◌, inl, inr, false, not, ◌&&◌, ◌∷◌, some, ◌==◌, ltb, Bool-cases,
  if◌then◌else◌, has,
}
use liburing.Common.Int.{ℤ, pos, is_neg, u64}
use liburing.Abi.Feat
use liburing.Abi.IntFlag
use liburing.Abi.Register as Op
use liburing.Abi.Setup as Flag
use liburing.Ring.{Ring}
use liburing.Sys.{Params, RegArg, Call, Calls, Os, Memory, get_page_size}
use liburing.Sys.Resources.{regions, after_call, IsFresh, fds, nonzero_of_neg}
use liburing.Register.{register_call, register_ret, do_register}
use liburing.Register.Resources.{register_probe}
use liburing.Setup.{kern_max_entries, get_sq_cq_entries}
use liburing.Setup.Init.{Made, finish_ring, plain_params, queue_init, queue_init_params}
use liburing.Setup.Init.Clean.{queue_init_params_cases}
use liburing.Setup.Map.{setup_ring_pointers}
use liburing.Setup.Exit.Restore.{queue_exit_after}
use liburing.Setup.Probe.{
  probe_bytes, get_probe_ring, get_probe, exit_made, locked_size, mlock_size_params,
}

-- The same mappings and descriptors
pub record IsSame (page : ℕ) (os : Os) (t t' : Calls) : Type 0 where
  pub same_regions : regions page os t' ≡ regions page os t
  pub same_fds : fds os t' ≡ fds os t

module _ (page : ℕ) (os : Os) where
  register_call-IsSame :
      (r : Ring) (opcode : ℕ) (arg : RegArg) (nr : ℕ) (t : Calls)
      → IsSame page os t (register_call r opcode arg nr ∷ t)
  unfolding regions after_call fds
  register_call-IsSame r opcode arg nr t =
      elim (Bool-cases (has r.int_flags IntFlag.reg_reg_ring)) [
        | inl e ↦ rw e (record { same_regions = refl; same_fds = refl })
        | inr e ↦ rw e (record { same_regions = refl; same_fds = refl })
      ]

  -- The probe itself maps and opens nothing.
  get_probe_ring-IsSame : (r : Ring) (t : Calls) → IsSame page os t (get_probe_ring os r t).1
  unfolding get_probe_ring register_probe register_ret do_register regions after_call fds
  get_probe_ring-IsSame r t =
      let probe = u64 (os t (Call.malloc probe_bytes)).ret in
      let ret = (register_probe os (Call.malloc probe_bytes ∷ t) r probe 256).0 in
      let asked =
        register_call-IsSame r Op.register_probe (RegArg.user probe) 256
          (Call.malloc probe_bytes ∷ t) in
      elim (Bool-cases (probe == 0)) [
        | inl e ↦ rw e (record { same_regions = refl; same_fds = refl })
        | inr e ↦ elim (Bool-cases (is_neg ret)) [
          | inl f ↦
              rw (e, f) (record { same_regions = asked.same_regions; same_fds = asked.same_fds })
          | inr f ↦
              rw (e, f) (record { same_regions = asked.same_regions; same_fds = asked.same_fds })
        ]
      ]

IsSame-then :
    {page : ℕ} {os : Os} {t u w : Calls}
    → IsSame page os t u
    → IsSame page os u w
    → IsSame page os t w
IsSame-then a b = record {
  same_regions = b.same_regions ∙ a.same_regions;
  same_fds = b.same_fds ∙ a.same_fds;
}

unchanged : {page : ℕ} {os : Os} {t : Calls} → IsSame page os t t
unchanged = record { same_regions = refl; same_fds = refl }

module _ (page : ℕ) (os : Os) (mem : Calls → Memory) (entries : ℕ) (p : Params) (t : Calls) where
  sized :
      (o : ℤ ⊎ (ℕ × ℕ))
      → o
        ≡ get_sq_cq_entries
            (if ltb kern_max_entries entries then kern_max_entries else entries)
            p.flags
            p.cq_entries
      → (entries == 0) ≡ false
      → (ltb kern_max_entries entries && not (has p.flags Flag.clamp)) ≡ false
      → IsSame page os t (locked_size os mem entries p t).1
  unfolding locked_size get_page_size regions after_call fds
  sized (inl ret) e some_entries fits = rw (some_entries, fits, sym e) unchanged
  sized (inr sizes) e some_entries fits =
      rw (some_entries, fits, sym e) (record { same_regions = refl; same_fds = refl })

  -- The size is computed without mapping anything.
  locked_size-IsSame : IsSame page os t (locked_size os mem entries p t).1
  unfolding locked_size
  locked_size-IsSame = elim (Bool-cases (entries == 0)) [
    | inl z ↦ rw z unchanged
    | inr z ↦ elim (Bool-cases (ltb kern_max_entries entries && not (has p.flags Flag.clamp))) [
      | inl c ↦ rw (z, c) unchanged
      | inr c ↦
          sized
            (get_sq_cq_entries (if ltb kern_max_entries entries then kern_max_entries else entries)
              p.flags p.cq_entries)
            refl z c
    ]
  ]

module _ {page : ℕ} {os : Os} (fresh : IsFresh page os) (mem : Calls → Memory) where
  -- Tearing down what has been made, after calls that map and open nothing
  exit_made-IsSame :
      (entries : ℕ) (p : Params) (t t' : Calls)
      → has p.flags Flag.no_mmap ≡ false
      → ((r : Ring)
          → (queue_init_params os mem entries p t).ring ≡ some r
          → r.sq.ring_entries ≡ (queue_init_params os mem entries p t).params.sq_entries)
      → has (queue_init_params os mem entries p t).params.flags Flag.registered_fd_only ≡ false
      → has (queue_init_params os mem entries p t).params.flags Flag.sqe128 ≡ false
      → IsSame page os (queue_init_params os mem entries p t).calls t'
      → IsSame page os t (exit_made os (queue_init_params os mem entries p t) t')
  exit_made-IsSame entries p t t' mapped words kept small same =
      elim (queue_init_params_cases fresh mem entries p t mapped) [
        | inl u ↦ rw u.no_ring (record {
          same_regions = same.same_regions ∙ u.same_regions;
          same_fds = same.same_fds ∙ u.same_fds;
        })
        | inr u ↦
            let out =
              queue_exit_after fresh mem entries p t _ t' mapped u.ring (words _ u.ring) kept small
                same.same_regions same.same_fds in
            rw u.ring (record { same_regions = out.0; same_fds = out.1 })
      ]

  -- The end of `io_uring_mlock_size_params`
  sized_after :
      (entries : ℕ) (p : Params) (t : Calls) (made : Made) (t' : Calls)
      → IsSame page os t t'
      → IsSame page os t
          (if has made.params.features Feat.native_workers
            then (pos 0, t')
            else locked_size os mem entries p t').1
  sized_after entries p t made t' same =
      elim (Bool-cases (has made.params.features Feat.native_workers)) [
        | inl e ↦ rw e same
        | inr e ↦ rw e (IsSame-then same (locked_size-IsSame page os mem entries p t'))
      ]

  -- On an operating system that maps at fresh addresses and gives the ring made for asking its
  -- small SQEs, its descriptor and its number of entries as in the parameters,
  -- `io_uring_mlock_size_params` leaves the mappings and descriptors as they were, whatever it
  -- returns.
  pub mlock_size_params-IsSame :
      (entries : ℕ) (p : Params) (t : Calls)
      → ((r : Ring)
          → (queue_init_params os mem entries (plain_params 0) t).ring ≡ some r
          → r.sq.ring_entries
            ≡ (queue_init_params os mem entries (plain_params 0) t).params.sq_entries)
      → has
          (queue_init_params os mem entries (plain_params 0) t).params.flags
          Flag.registered_fd_only
        ≡ false
      → has (queue_init_params os mem entries (plain_params 0) t).params.flags Flag.sqe128 ≡ false
      → IsSame page os t (mlock_size_params os mem entries p t).1
  unfolding mlock_size_params has
  mlock_size_params-IsSame entries p t words kept small =
      let made = queue_init_params os mem entries (plain_params 0) t in
      elim (queue_init_params_cases fresh mem entries (plain_params 0) t refl) [
        | inl u ↦ rw (nonzero_of_neg _ u.error) (
            sized_after entries p t made made.calls
              (record { same_regions = u.same_regions; same_fds = u.same_fds }))
        | inr u ↦ rw u.success (
            sized_after entries p t made (exit_made os made made.calls) (
              exit_made-IsSame entries (plain_params 0) t made.calls refl words kept small
                unchanged))
      ]

  -- In a build with the C library's malloc, on an operating system that maps at fresh addresses
  -- and gives the ring made for asking its small SQEs, its descriptor and its number of entries
  -- as in the parameters, `io_uring_get_probe` leaves the mappings that the library makes and
  -- the descriptors as they were, whether it returns a probe or not.
  pub get_probe-IsSame :
      (t : Calls)
      → ((r : Ring)
          → (queue_init os mem 2 0 t).ring ≡ some r
          → r.sq.ring_entries ≡ (queue_init os mem 2 0 t).params.sq_entries)
      → has (queue_init os mem 2 0 t).params.flags Flag.registered_fd_only ≡ false
      → has (queue_init os mem 2 0 t).params.flags Flag.sqe128 ≡ false
      → IsSame page os t (get_probe os mem t).1
  unfolding queue_init get_probe has
  get_probe-IsSame t words kept small =
      let made = queue_init_params os mem 2 (plain_params 0) t in
      elim (queue_init_params_cases fresh mem 2 (plain_params 0) t refl) [
        | inl u ↦ rw u.error (record { same_regions = u.same_regions; same_fds = u.same_fds })
        | inr u ↦
            let r =
              finish_ring made.params u.fd 0
                (setup_ring_pointers (mem made.calls) made.params made.mapping) in
            let asked = get_probe_ring-IsSame page os r made.calls in
            let out =
              queue_exit_after fresh mem 2 (plain_params 0) t r (get_probe_ring os r made.calls).1
                refl u.ring (words r u.ring) kept small asked.same_regions asked.same_fds in
            rw (u.success, u.ring) (record { same_regions = out.0; same_fds = out.1 })
      ]
