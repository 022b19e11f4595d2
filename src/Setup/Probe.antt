-- ===== src/Setup/Probe.antt =====
-- src/setup.c: what the kernel supports, and how much memory it wants locked for a ring.
pub mod Clean
use liburing.Common.{
  ℕ, ◌+◌, ◌*◌, ◌-◌, ◌==◌, ◌⊎◌, inl, inr, Bool, not, ◌&&◌, Option, none, some, List, ◌∷◌, ltb,
  if◌then◌else◌, has,
}
use liburing.Common.Int.{ℤ, pos, neg, is_neg, is_nonzero, u64}
use liburing.Abi.Errno
use liburing.Abi.Feat
use liburing.Abi.Setup as Flag
use liburing.Ring.{Ring}
use liburing.Sys.{Params, Call, Calls, Os, Memory, get_page_size}
use liburing.Register.Resources.{register_probe}
use liburing.Setup.{kern_max_entries, get_sq_cq_entries, rings_size}
use liburing.Setup.Init.{Made, plain_params, queue_init, queue_init_params}
use liburing.Setup.Exit.{queue_exit}

-- The bytes of a `struct io_uring_probe` with 256 operations
abbrev pub probe_bytes : ℕ
probe_bytes = 16 + 256 * 8

-- `io_uring_get_probe_ring`: the address of the probe, which the caller frees, or 0 for NULL.
unfoldable pub get_probe_ring : Os → Ring → Calls → ℕ × Calls
get_probe_ring os r t =
    let probe = u64 (os t (Call.malloc probe_bytes)).ret in
    let t' = Call.malloc probe_bytes ∷ t in
    let (ret, t'') = register_probe os t' r probe 256 in
    if probe == 0
    then (0, t')
    else if not (is_neg ret)
    then (probe, t'')
    else (0, Call.free probe ∷ t'')

-- A ring that has been set up is torn down again, whatever was done with it.
abbrev pub exit_made : Os → Made → Calls → Calls
exit_made os made t = elim made.ring [ none ↦ t | some r ↦ queue_exit os r made.mapping t ]

module _ (os : Os) (mem : Calls → Memory) where
  -- `io_uring_get_probe`
  unfoldable pub get_probe : Calls → ℕ × Calls
  get_probe t =
      let made = queue_init os mem 2 0 t in
      if is_neg made.ret then (0, made.calls) else elim made.ring [
        | none ↦ (0, made.calls)
        | some r ↦
            let (probe, t') = get_probe_ring os r made.calls in
            (probe, queue_exit os r made.mapping t')
      ]

  -- The size that `io_uring_mlock_size_params` computes once it knows that the kernel wants one.
  unfoldable pub locked_size : (entries : ℕ) → Params → Calls → ℤ × Calls
  locked_size entries p t =
      if entries == 0
      then (neg Errno.einval, t)
      else if ltb kern_max_entries entries && not (has p.flags Flag.clamp)
      then (neg Errno.einval, t)
      else elim (get_sq_cq_entries
          (if ltb kern_max_entries entries then kern_max_entries else entries) p.flags
          p.cq_entries) [
            | inl ret ↦ (ret, t)
            | inr (sq, cq) ↦
                let (page, t') = get_page_size os t in (pos (rings_size p.flags sq cq page), t')
          ]

  -- `io_uring_mlock_size_params`
  unfoldable pub mlock_size_params : (entries : ℕ) → Params → Calls → ℤ × Calls
  mlock_size_params entries p t =
      let made = queue_init_params os mem entries (plain_params 0) t in
      let t' = if is_nonzero made.ret then made.calls else exit_made os made made.calls in
      if has made.params.features Feat.native_workers then (pos 0, t') else locked_size entries p t'

  -- `io_uring_mlock_size`
  unfoldable pub mlock_size : (entries flags : ℕ) → Calls → ℤ × Calls
  mlock_size entries flags t = mlock_size_params entries (plain_params flags) t

-- `io_uring_free_probe`
abbrev pub free_probe : (probe : ℕ) → Calls → Calls
free_probe probe t = Call.free probe ∷ t

-- The fields of `struct io_uring_probe` that are read: `op_flags` is `ops[op].flags`.
pub record Probe : Type 0 where
  pub last_op : ℕ
  pub op_flags : ℕ → ℕ

abbrev pub op_supported : ℕ
op_supported = 1

-- `io_uring_opcode_supported`, for an `op` that is not negative
abbrev pub opcode_supported : Probe → (op : ℕ) → ℤ
opcode_supported p op =
    if ltb p.last_op op then pos 0 else if has (p.op_flags op) op_supported then pos 1 else pos 0
