-- ===== src/Sys.antt =====
-- The operating system as src/syscall.h gives it to the library: calls, what they answer, and errors in
-- pointers. What it answers is a parameter, which sees the calls made before, the last first.
pub mod Resources
use liburing.Common.{ℕ, ◌-◌, ◌+◌, ◌^◌, ◌%◌, Bool, List, ◌∷◌, leb, if◌then◌else◌}
use liburing.Common.Int.{ℤ, pos, neg, is_neg, s32, u64}
use liburing.Sqe.{Sqe, Cqe}

-- `struct io_sqring_offsets`
pub record SqringOffsets : Type 0 where
  pub head : ℕ
  pub tail : ℕ
  pub ring_mask : ℕ
  pub ring_entries : ℕ
  pub flags : ℕ
  pub dropped : ℕ
  pub array : ℕ
  pub user_addr : ℕ

-- `struct io_cqring_offsets`
pub record CqringOffsets : Type 0 where
  pub head : ℕ
  pub tail : ℕ
  pub ring_mask : ℕ
  pub ring_entries : ℕ
  pub overflow : ℕ
  pub cqes : ℕ
  pub flags : ℕ
  pub user_addr : ℕ

-- `struct io_uring_params`; `resv` is not read or written.
pub record Params : Type 0 where
  pub sq_entries : ℕ
  pub cq_entries : ℕ
  pub flags : ℕ
  pub sq_thread_cpu : ℕ
  pub sq_thread_idle : ℕ
  pub features : ℕ
  pub wq_fd : ℕ
  pub sq_off : SqringOffsets
  pub cq_off : CqringOffsets

-- What the argument of io_uring_register(2) or io_uring_setup(2) points to: an argument of the caller, or a
-- struct that the library fills in (a field that it leaves out is 0).
pub data RegArg : Type 0 where
  user : (address : ℕ) → RegArg
  rsrc_update : (offset : ℕ) (payload : ℕ) → RegArg
  rsrc_update2 : (offset payload tags nr : ℕ) → RegArg
  rsrc_register : (nr flags payload tags : ℕ) → RegArg
  files_update : (offset fds : ℕ) → RegArg
  event_fd : ℤ → RegArg
  buf_reg : (ring_addr ring_entries bgid : ℕ) → RegArg
  buf_reg_mmap : (ring_entries bgid : ℕ) → RegArg
  buf_status : (buf_group head : ℕ) → RegArg
  index_range : (off len : ℕ) → RegArg
  params : Params → RegArg

-- The protection and flags of a call of mmap(2): the kinds that the library uses.
pub data MapKind : Type 0 where
  shared_populate : MapKind
  shared_anonymous : MapKind
  shared_anonymous_hugetlb : MapKind
  private_anonymous : MapKind

-- The calls that leave the library; malloc and free are those of the C library,
-- whose memory is its own; in a build without it src/nolibc.c, modelled in Nolibc, takes their place, and maps.
pub data Call : Type 0 where
  register : (fd : ℤ) (opcode : ℕ) (arg : RegArg) (nr_args : ℕ) → Call
  getrlimit : Call
  setrlimit : (cur : ℕ) → Call
  close : (fd : ℤ) → Call
  mmap : (length : ℕ) (kind : MapKind) (fd : ℤ) (offset : ℕ) → Call
  munmap : (addr length : ℕ) → Call
  madvise_dontfork : (addr length : ℕ) → Call
  setup : (entries : ℕ) → Params → Call
  sysconf_pagesize : Call
  malloc : (size : ℕ) → Call
  free : (addr : ℕ) → Call

abbrev pub Calls : Type 0
Calls = List Call

-- The result of a call, the struct that its argument points to afterwards, and the soft limit that
-- getrlimit(2) stores.
pub record Reply : Type 0 where
  pub ret : ℤ
  pub arg : RegArg
  pub rlim_cur : ℕ

abbrev pub Os : Type 0
Os = Calls → Call → Reply

-- NULL
abbrev pub null : RegArg
null = RegArg.user 0

-- What a pointer into shared memory shows once the calls have been made.
pub record Memory : Type 0 where
  pub word : ℕ → ℕ
  pub sqe : ℕ → Sqe
  pub cqe : ℕ → Cqe

-- `ERR_PTR`
abbrev pub err_ptr : ℤ → ℕ
err_ptr n = u64 n

-- `PTR_ERR`
abbrev pub ptr_err : ℕ → ℤ
ptr_err ptr = s32 (ptr % 2 ^ 32)

-- `IS_ERR`
abbrev pub is_err : ℕ → Bool
is_err ptr = leb (2 ^ 64 - 4095) ptr

module _ (os : Os) where
  -- The pointer that `__sys_mmap` returns.
  abbrev pub mapped_at : Calls → Call → ℕ
  mapped_at t call = u64 (os t call).ret

  -- `get_page_size` of src/arch/generic/lib.h
  unfoldable pub get_page_size : Calls → ℕ × Calls
  get_page_size t =
      let ret = (os t Call.sysconf_pagesize).ret in
      (if is_neg ret then 4096 else u64 ret, Call.sysconf_pagesize ∷ t)
