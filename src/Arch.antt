-- ===== src/Arch.antt =====
-- src/arch: the system calls by way of libc (generic/syscall.h), with the functions of src/syscall.c that call
-- them, and the page size of each architecture (lib.h).
pub mod Native
use liburing.Common.{
  ℕ, ◌-◌, ◌^◌, ◌<◌, ◌≡◌, Bool, List, [], ◌∷◌, leb, ◌==◌, if◌then◌else◌, ltb, sym, suc, true, false,
  refl, arith, ◌%◌,
}
use liburing.Common.Int.{ℤ, pos, negsuc, neg, is_neg, s32, u32, u64}
use mathlib.Core.Path.{subst}
use liburing.Sys.{err_ptr, ptr_err, is_err}

-- Pointers are numbers.
pub data LibcCall : Type 0 where
  syscall_register : (fd opcode arg nr_args : ℕ) → LibcCall
  syscall_setup : (entries p : ℕ) → LibcCall
  syscall_enter : (fd to_submit min_complete flags sig sz : ℕ) → LibcCall
  open_file : (pathname : ℕ) (flags : ℤ) (mode : ℕ) → LibcCall
  read : (fd : ℤ) (buffer size : ℕ) → LibcCall
  mmap : (addr length : ℕ) (prot flags fd offset : ℤ) → LibcCall
  munmap : (addr length : ℕ) → LibcCall
  madvise : (addr length : ℕ) (advice : ℤ) → LibcCall
  getrlimit : (resource : ℤ) (rlim : ℕ) → LibcCall
  setrlimit : (resource : ℤ) (rlim : ℕ) → LibcCall
  close : (fd : ℤ) → LibcCall
  sysconf_pagesize : LibcCall

-- What libc returns, and `errno` afterwards
pub record Answer : Type 0 where
  pub ret : ℤ
  pub errno : ℕ

-- A `long` kept in an `int`
abbrev pub to_int : ℤ → ℤ
to_int n = s32 (u32 n)

-- `(ret < 0) ? -errno : ret`
abbrev pub or_errno : ℤ → (errno : ℕ) → ℤ
or_errno ret errno = if is_neg ret then neg errno else ret

-- `MAP_FAILED`
abbrev pub map_failed : ℕ
map_failed = 2 ^ 64 - 1

-- The size of a `sigset_t` of the kernel, `_NSIG / 8`
abbrev pub nsig_bytes : ℕ
nsig_bytes = 8

module _ (libc : LibcCall → Answer) where
  abbrev pub int_call : LibcCall → ℤ
  int_call call = or_errno (to_int (libc call).ret) (libc call).errno

  abbrev pub sys_register : (fd opcode arg nr_args : ℕ) → ℤ
  sys_register fd opcode arg nr_args = int_call (LibcCall.syscall_register fd opcode arg nr_args)

  abbrev pub sys_setup : (entries p : ℕ) → ℤ
  sys_setup entries p = int_call (LibcCall.syscall_setup entries p)

  abbrev pub sys_enter2 : (fd to_submit min_complete flags sig sz : ℕ) → ℤ
  sys_enter2 fd to_submit min_complete flags sig sz =
      int_call (LibcCall.syscall_enter fd to_submit min_complete flags sig sz)

  abbrev pub sys_enter : (fd to_submit min_complete flags sig : ℕ) → ℤ
  sys_enter fd to_submit min_complete flags sig =
      sys_enter2 fd to_submit min_complete flags sig nsig_bytes

  abbrev pub sys_open : (pathname : ℕ) (flags : ℤ) (mode : ℕ) → ℤ
  sys_open pathname flags mode = int_call (LibcCall.open_file pathname flags mode)

  abbrev pub sys_read : (fd : ℤ) (buffer size : ℕ) → ℤ
  sys_read fd buffer size =
      let answer = libc (LibcCall.read fd buffer size) in or_errno answer.ret answer.errno

  unfoldable pub sys_mmap : (addr length : ℕ) (prot flags fd offset : ℤ) → ℕ
  sys_mmap addr length prot flags fd offset =
      let answer = libc (LibcCall.mmap addr length prot flags fd offset) in
      if u64 answer.ret == map_failed then err_ptr (neg answer.errno) else u64 answer.ret

  abbrev pub sys_munmap : (addr length : ℕ) → ℤ
  sys_munmap addr length = int_call (LibcCall.munmap addr length)

  abbrev pub sys_madvise : (addr length : ℕ) (advice : ℤ) → ℤ
  sys_madvise addr length advice = int_call (LibcCall.madvise addr length advice)

  abbrev pub sys_getrlimit : (resource : ℤ) (rlim : ℕ) → ℤ
  sys_getrlimit resource rlim = int_call (LibcCall.getrlimit resource rlim)

  abbrev pub sys_setrlimit : (resource : ℤ) (rlim : ℕ) → ℤ
  sys_setrlimit resource rlim = int_call (LibcCall.setrlimit resource rlim)

  abbrev pub sys_close : (fd : ℤ) → ℤ
  sys_close fd = int_call (LibcCall.close fd)

  -- `io_uring_enter`, `io_uring_enter2`, `io_uring_setup` and `io_uring_register`
  abbrev pub enter : (fd to_submit min_complete flags sig : ℕ) → ℤ
  enter fd to_submit min_complete flags sig = sys_enter fd to_submit min_complete flags sig

  abbrev pub enter2 : (fd to_submit min_complete flags sig sz : ℕ) → ℤ
  enter2 fd to_submit min_complete flags sig sz = sys_enter2 fd to_submit min_complete flags sig sz

  abbrev pub setup : (entries p : ℕ) → ℤ
  setup entries p = sys_setup entries p

  abbrev pub register : (fd opcode arg nr_args : ℕ) → ℤ
  register fd opcode arg nr_args = sys_register fd opcode arg nr_args

-- The page size on x86
abbrev pub x86_page_size : ℕ
x86_page_size = 4096

-- A read of two words: its result, and what it has stored.
pub record AuxRead : Type 0 where
  pub x : ℤ
  pub tag : ℕ
  pub value : ℕ

abbrev pub at_pagesz : ℕ
at_pagesz = 6

-- `x < (long) sizeof(buf)`
abbrev pub is_short : AuxRead → Bool
is_short r = if is_neg r.x then true else leb (u64 r.x) 15

-- The loop of `__get_page_size` of src/arch/aarch64/lib.h; the reads are answered from the list, and then by 0.
unfoldable pub aux_loop : List AuxRead → ℕ
aux_loop [] = 4096
aux_loop (r ∷ reads) =
    let rest = aux_loop reads in
    if is_short r then 4096 else if r.tag == at_pagesz then r.value else rest

-- What `__get_page_size` returns, where `open` gives `fd`; it closes the file afterwards.
unfoldable pub read_page_size : (fd : ℤ) → List AuxRead → ℕ
read_page_size fd reads = if is_neg fd then 4096 else aux_loop reads

-- `get_page_size`, with its static variable before and after
unfoldable pub cached_page_size : (fd : ℤ) → List AuxRead → (cache_val : ℕ) → ℕ × ℕ
cached_page_size fd reads cache_val =
    let ret = read_page_size fd reads in
    if cache_val == 0 then (ret, ret) else (cache_val, cache_val)

error_pointer :
    (e : ℕ) → e < 4095 → (is_err (2 ^ 64 - 1 - e) ≡ true) × (ptr_err (2 ^ 64 - 1 - e) ≡ negsuc e)
error_pointer e small =
    let high : leb (2 ^ 64 - 4095) (2 ^ 64 - 1 - e) ≡ true = ground arith in
    let low : (2 ^ 64 - 1 - e) % 2 ^ 32 % 2 ^ 32 ≡ 2 ^ 32 - 1 - e = omega (arith, small) in
    let sign : ltb (2 ^ 32 - 1 - e) (2 ^ 31) ≡ false = ground arith in
    let back : 2 ^ 32 - 1 - (2 ^ 32 - 1 - e) ≡ e = omega (arith, small) in
    (high, rw (low, sign, back) refl)

-- Where mmap of libc returns MAP_FAILED with an error number from 1 to 4095, the pointer that
-- `__sys_mmap` returns is one that `IS_ERR` finds, and `PTR_ERR` of it is that number with its
-- sign changed.
pub sys_mmap-failed :
    (libc : LibcCall → Answer) (addr length : ℕ) (prot flags fd offset : ℤ) (e : ℕ)
    → (libc (LibcCall.mmap addr length prot flags fd offset)).ret ≡ neg 1
    → (libc (LibcCall.mmap addr length prot flags fd offset)).errno ≡ suc e
    → e < 4095
    → (is_err (sys_mmap libc addr length prot flags fd offset) ≡ true)
      × (ptr_err (sys_mmap libc addr length prot flags fd offset) ≡ negsuc e)
unfolding sys_mmap
sys_mmap-failed libc addr length prot flags fd offset e failed is small =
    let place : sys_mmap libc addr length prot flags fd offset ≡ 2 ^ 64 - 1 - e =
      rw (failed, is, sys_mmap) (omega (arith, small)) in
    subst (λ ptr. (is_err ptr ≡ true) × (ptr_err ptr ≡ negsuc e)) (sym place)
      (error_pointer e small)

-- A mapping that succeeds comes back as its address.
sys_mmap-mapped :
    (libc : LibcCall → Answer) (addr length : ℕ) (prot flags fd offset : ℤ) (ptr : ℕ)
    → (libc (LibcCall.mmap addr length prot flags fd offset)).ret ≡ pos ptr
    → ptr < 2 ^ 64 - 4095
    → (is_err (sys_mmap libc addr length prot flags fd offset) ≡ false)
      × (sys_mmap libc addr length prot flags fd offset ≡ ptr)
unfolding sys_mmap
sys_mmap-mapped libc addr length prot flags fd offset ptr mapped small =
    let word : ptr % 2 ^ 64 ≡ ptr = omega (arith, small) in
    let not_failed : (ptr == map_failed) ≡ false = ground arith in
    let place : sys_mmap libc addr length prot flags fd offset ≡ ptr =
      rw (mapped, word, not_failed, sys_mmap) refl in
    let low : leb (2 ^ 64 - 4095) ptr ≡ false = ground arith in (rw place low, place)
