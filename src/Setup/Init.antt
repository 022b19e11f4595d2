-- ===== src/Setup/Init.antt =====
-- src/setup.c: setting up a ring.
pub mod Clean
pub mod Ready
use liburing.Common.{
  ℕ, zero, suc, ◌+◌, ◌-◌, ◌*◌, ◌^◌, Bool, true, false, not, ◌&&◌, ◌||◌, ◌⊎◌, inl, inr, Option, none,
  some, List, [], ◌∷◌, ◌==◌, ltb, leb, if◌then◌else◌, has, bit_and, bit_or,
}
use liburing.Common.Int.{ℤ, pos, neg, is_neg, is_nonzero, eqb, s32}
use liburing.Common.Window.{upd}
use liburing.Abi.Errno
use liburing.Abi.Feat
use liburing.Abi.IntFlag
use liburing.Abi.Setup as Flag
use liburing.Ring.{Ring}
use liburing.Sys.{
  Params, SqringOffsets, CqringOffsets, RegArg, Call, Calls, Os, MapKind, Memory, is_err, ptr_err,
  mapped_at, get_page_size,
}
use liburing.Sys.Resources.{huge_page}
use liburing.Register.RingFd.{unregister_ring_fd}
use liburing.Setup.{get_sq_cq_entries, rings_size, kern_max_entries}
use liburing.Setup.Map.{Mapping, no_mapping, unmap_rings, setup_ring_pointers, queue_mmap, sqe_size}

-- What an attempt to set up a ring returns and leaves in `*p` and `*ring`. The ring is there only
-- on success; a caller reads nothing of it after an error.
pub record Made : Type 0 where
  pub ret : ℤ
  pub params : Params
  pub mapping : Mapping
  pub ring : Option Ring
  pub calls : Calls

abbrev pub failed : ℤ → Params → Mapping → Calls → Made
failed ret p m t = record { ret = ret; params = p; mapping = m; ring = none; calls = t }

-- `x` up to a multiple of the page size, a power of two: `(x + page_size - 1) & ~(page_size - 1)`
unfoldable pub page_align : (page x : ℕ) → ℕ
page_align page x = bit_and (x + page - 1) (2 ^ 64 - page)

-- `sqes_mem` and `ring_mem` of `io_uring_alloc_huge`
unfoldable pub sqes_mem : (page sq_entries : ℕ) → ℕ
unfolding page_align
sqes_mem page sq_entries = page_align page (sq_entries * 64)

unfoldable pub ring_mem : (flags sq_entries cq_entries : ℕ) → ℕ
ring_mem flags sq_entries cq_entries =
    let cqes = cq_entries * 16 * (if has flags Flag.cqe32 then 2 else 1) in
    if has flags Flag.no_sqarray then cqes else cqes + sq_entries * 4

-- The length and the kind of an anonymous mapping for so many bytes: one page, or a huge page.
abbrev pub buf_size_for : (page bytes : ℕ) → ℕ
buf_size_for page bytes = if leb bytes page then page else huge_page

abbrev pub anonymous_map : (page bytes : ℕ) → Call
anonymous_map page bytes =
    Call.mmap (buf_size_for page bytes)
      (if leb bytes page then MapKind.shared_anonymous else MapKind.shared_anonymous_hugetlb)
      (neg 1) 0

-- The end of `io_uring_alloc_huge`: the addresses go into the parameters.
abbrev pub with_user_addrs : Params → Mapping → Params
with_user_addrs p m = record p {
  sq_off = record p.sq_off { user_addr = m.sqes };
  cq_off = record p.cq_off { user_addr = m.sq_ring_ptr };
}

module _ (os : Os) (p : Params) where
  -- `io_uring_alloc_huge` from where the memory for the SQEs is at `ptr`, in `buf_size` bytes
  unfoldable pub place_rings :
      (page sqes ring ptr buf_size : ℕ) → Calls → ℤ × Params × Mapping × Calls
  unfolding page_align
  place_rings page sqes ring ptr buf_size t =
      let mem_used = page_align page (sqes + ring) in
      let one : Mapping = record {
        sq_ring_ptr = ptr + sqes;
        sq_ring_sz = 0;
        sqes = ptr;
        cq_ring_ptr = ptr + sqes;
        cq_ring_sz = 0;
      } in
      let ptr' = mapped_at os t (anonymous_map page ring) in
      let t' = anonymous_map page ring ∷ t in
      let two : Mapping = record {
        sq_ring_ptr = ptr';
        sq_ring_sz = buf_size_for page ring;
        sqes = ptr;
        cq_ring_ptr = ptr';
        cq_ring_sz = 0;
      } in
      if leb mem_used buf_size
      then (s32 mem_used, with_user_addrs p one, one, t)
      else if is_err ptr'
      then (ptr_err ptr', p, record no_mapping { sqes = ptr }, Call.munmap ptr 1 ∷ t')
      else (s32 mem_used, with_user_addrs p two, two, t')

  -- `io_uring_alloc_huge` from the sizes of both rings on; `buf` is 0 for NULL.
  unfoldable pub alloc_sized :
      (page sq_entries cq_entries buf buf_size : ℕ) → Calls → ℤ × Params × Mapping × Calls
  unfolding place_rings sqes_mem ring_mem page_align
  alloc_sized page sq_entries cq_entries buf buf_size t =
      let sqes = sqes_mem page sq_entries in
      let ring = ring_mem p.flags sq_entries cq_entries in
      let ptr = mapped_at os t (anonymous_map page sqes) in
      let t' = anonymous_map page sqes ∷ t in
      if buf == 0
      then (if ltb huge_page sqes || ltb huge_page ring
          then (neg Errno.enomem, p, no_mapping, t)
          else if is_err ptr
          then (ptr_err ptr, p, no_mapping, t')
          else place_rings page sqes ring ptr (buf_size_for page sqes) t')
      else if ltb buf_size (page_align page (sqes + ring))
      then (neg Errno.enomem, p, no_mapping, t)
      else place_rings page sqes ring buf buf_size t

  -- `io_uring_alloc_huge`
  unfoldable pub alloc_huge : (entries buf buf_size : ℕ) → Calls → ℤ × Params × Mapping × Calls
  unfolding alloc_sized get_page_size get_sq_cq_entries
  alloc_huge entries buf buf_size t =
      let (page, t') = get_page_size os t in
      elim (get_sq_cq_entries entries p.flags p.cq_entries) [
        | inl ret ↦ (ret, p, no_mapping, t')
        | inr (sq_entries, cq_entries) ↦ alloc_sized page sq_entries cq_entries buf buf_size t'
      ]

-- The loop that maps SQ slots to SQEs: `array[index] = index` for the first `n`.
unfoldable pub fill_array : ℕ → (ℕ → ℕ) → ℕ → ℕ
fill_array zero array = array
fill_array (suc n) array = upd (fill_array n array) n n

-- The end of `__io_uring_queue_init_params`, once the pointers are set up.
unfoldable pub finish_ring : Params → (fd : ℤ) → (int_flags : ℕ) → Ring → Ring
unfolding fill_array
finish_ring p fd int_flags r = record r {
  sq =
      if has p.flags Flag.no_sqarray
      then r.sq
      else record r.sq { array = fill_array r.sq.ring_entries r.sq.array };
  features = p.features;
  flags = p.flags;
  enter_ring_fd = fd;
  ring_fd = if has p.flags Flag.registered_fd_only then neg 1 else fd;
  int_flags =
      if has p.flags Flag.registered_fd_only
      then bit_or int_flags (bit_or IntFlag.reg_ring IntFlag.reg_reg_ring)
      else int_flags;
}

-- The parameters that io_uring_setup(2) writes back.
abbrev pub params_of : Params → RegArg → Params
params_of p (RegArg.params p') = p'
params_of p _ = p

-- `memset(&p, 0, sizeof(p)); p.flags = flags;`
abbrev pub plain_params : (flags : ℕ) → Params
plain_params flags = record {
  sq_entries = 0;
  cq_entries = 0;
  flags = flags;
  sq_thread_cpu = 0;
  sq_thread_idle = 0;
  features = 0;
  wq_fd = 0;
  sq_off = record {
    head = 0;
    tail = 0;
    ring_mask = 0;
    ring_entries = 0;
    flags = 0;
    dropped = 0;
    array = 0;
    user_addr = 0;
  };
  cq_off = record {
    head = 0;
    tail = 0;
    ring_mask = 0;
    ring_entries = 0;
    overflow = 0;
    cqes = 0;
    flags = 0;
    user_addr = 0;
  };
}

module _ (os : Os) (mem : Calls → Memory) where
  -- `__io_uring_queue_init_params` from io_uring_setup(2) on, where the kernel makes the mappings
  unfoldable pub init_mapped : (entries : ℕ) → Params → Calls → Made
  unfolding queue_mmap setup_ring_pointers finish_ring
  init_mapped entries p t =
      let reply = os t (Call.setup entries p) in
      let t' = Call.setup entries p ∷ t in
      let p' = params_of p reply.arg in
      let (ret, m, t'') = queue_mmap os reply.ret p' t' in
      if is_neg reply.ret
      then failed reply.ret p' no_mapping t'
      else if is_nonzero ret
      then failed ret p' m (Call.close reply.ret ∷ t'')
      else record {
        ret = ret;
        params = p';
        mapping = m;
        ring = some (finish_ring p' reply.ret 0 (setup_ring_pointers (mem t'') p' m));
        calls = t'';
      }

  -- The same, where the application or the library has made the memory, of which `used` bytes are taken
  unfoldable pub init_in_memory :
      (entries : ℕ) → Params → Mapping → (used : ℤ) → (app : Bool) → Calls → Made
  unfolding setup_ring_pointers finish_ring unmap_rings
  init_in_memory entries p m used app t =
      let reply = os t (Call.setup entries p) in
      let t' = Call.setup entries p ∷ t in
      let p' = params_of p reply.arg in
      if is_neg reply.ret
      then failed reply.ret p' m (if app then t' else unmap_rings m (Call.munmap m.sqes 1 ∷ t'))
      else record {
        ret = used;
        params = p';
        mapping = m;
        ring = some (
            finish_ring p' reply.ret (if app then IntFlag.app_mem else 0)
              (setup_ring_pointers (mem t') p' m));
        calls = t';
      }

  -- `__io_uring_queue_init_params`; `buf` is 0 for NULL. The kernel writes `flags` back as they were.
  unfoldable pub init_params : (entries : ℕ) → Params → (buf buf_size : ℕ) → Calls → Made
  unfolding init_mapped init_in_memory alloc_huge
  init_params entries p buf buf_size t =
      let (ret, p', m, t') = alloc_huge os p entries buf buf_size t in
      if has p.flags Flag.registered_fd_only && not (has p.flags Flag.no_mmap)
      then failed (neg Errno.einval) p no_mapping t
      else if not (has p.flags Flag.no_mmap)
      then init_mapped entries p t
      else if is_neg ret
      then failed ret p' m t'
      else init_in_memory entries p' m ret (not (buf == 0)) t'

  -- `io_uring_queue_init_try_nosqarr`
  unfoldable pub init_try_nosqarr : (entries : ℕ) → Params → (buf buf_size : ℕ) → Calls → Made
  unfolding init_params
  init_try_nosqarr entries p buf buf_size t =
      let first =
        init_params entries (record p { flags = bit_or p.flags Flag.no_sqarray }) buf buf_size t in
      if not (eqb first.ret (neg Errno.einval)) || has p.flags Flag.no_sqarray
      then first
      else init_params entries (record first.params { flags = p.flags }) buf buf_size first.calls

  -- `io_uring_queue_init_mem`
  unfoldable pub queue_init_mem : (entries : ℕ) → Params → (buf buf_size : ℕ) → Calls → Made
  unfolding init_try_nosqarr
  queue_init_mem entries p buf buf_size t =
      init_try_nosqarr entries (record p { flags = bit_or p.flags Flag.no_mmap }) buf buf_size t

  -- `io_uring_queue_init_params`
  unfoldable pub queue_init_params : (entries : ℕ) → Params → Calls → Made
  unfolding init_try_nosqarr
  queue_init_params entries p t =
      let made = init_try_nosqarr entries p 0 0 t in
      record made { ret = if is_neg made.ret then made.ret else pos 0 }

  -- `io_uring_queue_init`
  unfoldable pub queue_init : (entries flags : ℕ) → Calls → Made
  unfolding queue_init_params
  queue_init entries flags t = queue_init_params entries (plain_params flags) t
