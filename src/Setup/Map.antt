-- ===== src/Setup/Map.antt =====
-- src/setup.c: mapping and unmapping the memory of a ring.
pub mod Balance
use liburing.Common.{
  ℕ, zero, suc, ◌+◌, ◌-◌, ◌*◌, ◌^◌, Bool, true, false, not, ◌&&◌, ◌||◌, Option, none, some, [], ◌∷◌,
  ◌==◌, ltb, if◌then◌else◌, has,
}
use liburing.Common.Int.{ℤ, pos, neg, is_neg}
use liburing.Common.Window.{upd}
use liburing.Abi.Errno
use liburing.Abi.Feat
use liburing.Abi.Setup as Flag
use liburing.Ring.{Ring, Sq, Cq}
use liburing.Sys.{Params, Call, Calls, Os, MapKind, Memory, is_err, ptr_err, mapped_at}

-- The fields `ring_ptr`, `ring_sz` and `sqes` of `struct io_uring_sq` and `struct io_uring_cq`
pub record Mapping : Type 0 where
  pub sq_ring_ptr : ℕ
  pub sq_ring_sz : ℕ
  pub sqes : ℕ
  pub cq_ring_ptr : ℕ
  pub cq_ring_sz : ℕ

-- `memset(ring, 0, sizeof(*ring))`
abbrev pub no_mapping : Mapping
no_mapping = record { sq_ring_ptr = 0; sq_ring_sz = 0; sqes = 0; cq_ring_ptr = 0; cq_ring_sz = 0 }

-- IORING_OFF_SQ_RING, IORING_OFF_CQ_RING, IORING_OFF_SQES
abbrev pub off_sq_ring : ℕ
off_sq_ring = 0

abbrev pub off_cq_ring : ℕ
off_cq_ring = 0x800_0000

abbrev pub off_sqes : ℕ
off_sqes = 0x1000_0000

-- The bytes of one SQE and of one CQE
abbrev pub sqe_size : (flags : ℕ) → ℕ
sqe_size flags = if has flags Flag.sqe128 then 128 else 64

abbrev pub cqe_size : (flags : ℕ) → ℕ
cqe_size flags = if has flags Flag.cqe32 then 32 else 16

-- The sizes of both rings, of which there is one mapping if the kernel makes them together.
unfoldable pub sq_ring_size : Params → ℕ
sq_ring_size p =
    let sq = p.sq_off.array + p.sq_entries * 4 in
    let cq = p.cq_off.cqes + p.cq_entries * cqe_size p.flags in
    if has p.features Feat.single_mmap then (if ltb sq cq then cq else sq) else sq

unfoldable pub cq_ring_size : Params → ℕ
cq_ring_size p =
    if has p.features Feat.single_mmap
    then sq_ring_size p
    else p.cq_off.cqes + p.cq_entries * cqe_size p.flags

-- The calls that map the submission ring, the completion ring and the SQEs
abbrev pub sq_map : (fd : ℤ) → Params → Call
sq_map fd p = Call.mmap (sq_ring_size p) MapKind.shared_populate fd off_sq_ring

abbrev pub cq_map : (fd : ℤ) → Params → Call
cq_map fd p = Call.mmap (cq_ring_size p) MapKind.shared_populate fd off_cq_ring

abbrev pub sqes_map : (fd : ℤ) → Params → Call
sqes_map fd p = Call.mmap (sqe_size p.flags * p.sq_entries) MapKind.shared_populate fd off_sqes

-- `io_uring_unmap_rings`
unfoldable pub unmap_rings : Mapping → Calls → Calls
unmap_rings m t =
    let t' = if m.sq_ring_sz == 0 then t else Call.munmap m.sq_ring_ptr m.sq_ring_sz ∷ t in
    if not (m.cq_ring_ptr == 0) && not (m.cq_ring_sz == 0) && not (m.cq_ring_ptr == m.sq_ring_ptr)
    then Call.munmap m.cq_ring_ptr m.cq_ring_sz ∷ t'
    else t'

-- `io_uring_setup_ring_pointers`: the ring whose words are those that the pointers show. `array` is
-- left at NULL where there is no index array, and is not read then.
unfoldable pub setup_ring_pointers : Memory → Params → Mapping → Ring
setup_ring_pointers mem p m = record {
  sq = record {
    khead = mem.word (m.sq_ring_ptr + p.sq_off.head);
    ktail = mem.word (m.sq_ring_ptr + p.sq_off.tail);
    kflags = mem.word (m.sq_ring_ptr + p.sq_off.flags);
    array =
        if has p.flags Flag.no_sqarray
        then (λ i. 0)
        else (λ i. mem.word (m.sq_ring_ptr + p.sq_off.array + 4 * i));
    sqes = λ i. mem.sqe (m.sqes + 64 * i);
    sqe_head = 0;
    sqe_tail = 0;
    ring_mask = mem.word (m.sq_ring_ptr + p.sq_off.ring_mask);
    ring_entries = mem.word (m.sq_ring_ptr + p.sq_off.ring_entries);
  };
  cq = record {
    khead = mem.word (m.cq_ring_ptr + p.cq_off.head);
    ktail = mem.word (m.cq_ring_ptr + p.cq_off.tail);
    kflags = if p.cq_off.flags == 0 then none else some (mem.word (m.cq_ring_ptr + p.cq_off.flags));
    cqes = λ i. mem.cqe (m.cq_ring_ptr + p.cq_off.cqes + 16 * i);
    ring_mask = mem.word (m.cq_ring_ptr + p.cq_off.ring_mask);
    ring_entries = mem.word (m.cq_ring_ptr + p.cq_off.ring_entries);
  };
  flags = 0;
  features = 0;
  ring_fd = pos 0;
  enter_ring_fd = pos 0;
  int_flags = 0;
  calls = [];
}

module _ (os : Os) (fd : ℤ) (p : Params) where
  -- The end of `io_uring_mmap`, from the mapping of the SQEs on.
  unfoldable pub map_sqes : Mapping → Calls → ℤ × Mapping × Calls
  map_sqes m t =
      let ptr = mapped_at os t (sqes_map fd p) in
      let m' = record m { sqes = ptr } in
      let t' = sqes_map fd p ∷ t in
      if is_err ptr then (ptr_err ptr, m', unmap_rings m' t') else (pos 0, m', t')

  -- The part of `io_uring_mmap` that comes after the mapping of the submission ring.
  unfoldable pub map_cq : Mapping → Calls → ℤ × Mapping × Calls
  unfolding map_sqes
  map_cq m t =
      if has p.features Feat.single_mmap
      then map_sqes (record m { cq_ring_ptr = m.sq_ring_ptr }) t
      else let ptr = mapped_at os t (cq_map fd p) in
        let t' = cq_map fd p ∷ t in
        if is_err ptr
        then (let m' = record m { cq_ring_ptr = 0 } in (ptr_err ptr, m', unmap_rings m' t'))
        else map_sqes (record m { cq_ring_ptr = ptr }) t'

  -- `io_uring_mmap`; where it returns 0, `setup_ring_pointers` follows.
  unfoldable pub mmap : Mapping → Calls → ℤ × Mapping × Calls
  unfolding map_cq
  mmap m t =
      let ptr = mapped_at os t (sq_map fd p) in
      let m' = record m {
        sq_ring_ptr = ptr;
        sq_ring_sz = sq_ring_size p;
        cq_ring_sz = cq_ring_size p;
      } in
      let t' = sq_map fd p ∷ t in if is_err ptr then (ptr_err ptr, m', t') else map_cq m' t'

  -- `io_uring_queue_mmap`
  unfoldable pub queue_mmap : Calls → ℤ × Mapping × Calls
  unfolding mmap
  queue_mmap t = mmap no_mapping t

-- `io_uring_ring_dontfork`
abbrev pub dontfork_cq : Os → Mapping → Calls → ℤ × Calls
dontfork_cq os m t =
    if m.cq_ring_ptr == m.sq_ring_ptr
    then (pos 0, t)
    else let call = Call.madvise_dontfork m.cq_ring_ptr m.cq_ring_sz in
      let ret = (os t call).ret in (if is_neg ret then ret else pos 0, call ∷ t)

unfoldable pub ring_dontfork : Os → Ring → Mapping → Calls → ℤ × Calls
ring_dontfork os r m t =
    if m.sq_ring_ptr == 0 || m.sqes == 0 || m.cq_ring_ptr == 0
    then (neg Errno.einval, t)
    else let call = Call.madvise_dontfork m.sqes (sqe_size r.flags * r.sq.ring_entries) in
      let ret = (os t call).ret in
      let t' = call ∷ t in
      if is_neg ret
      then (ret, t')
      else let call' = Call.madvise_dontfork m.sq_ring_ptr m.sq_ring_sz in
        let ret' = (os t' call').ret in
        if is_neg ret' then (ret', call' ∷ t') else dontfork_cq os m (call' ∷ t')
