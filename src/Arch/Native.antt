-- ===== src/Arch/Native.antt =====
-- src/arch/syscall-defs.h: the system calls without libc, on an architecture that has __NR_open and __NR_mmap, as
-- x86-64 has. The instruction that enters the kernel is a parameter, which returns what is in the result register.
use liburing.Common.{
  ℕ, suc, ◌-◌, ◌%◌, ◌^◌, ◌<◌, ◌≡◌, refl, ◌⊎◌, inl, inr, ◌==◌, if◌then◌else◌, false, true, ltb,
  arith,
}
use liburing.Common.Int.{ℤ, pos, negsuc, neg, u64}
use mathlib.Core.Path.{subst}
use liburing.Sys.{err_ptr}
use liburing.Arch.{LibcCall, Answer, to_int, or_errno, map_failed, nsig_bytes, int_call}
use liburing.Arch as Libc

module _ (do_syscall : LibcCall → ℤ) where
  abbrev pub int_result : LibcCall → ℤ
  int_result call = to_int (do_syscall call)

  abbrev pub sys_open : (pathname : ℕ) (flags : ℤ) (mode : ℕ) → ℤ
  sys_open pathname flags mode = int_result (LibcCall.open_file pathname flags mode)

  abbrev pub sys_read : (fd : ℤ) (buffer size : ℕ) → ℤ
  sys_read fd buffer size = do_syscall (LibcCall.read fd buffer size)

  abbrev pub sys_mmap : (addr length : ℕ) (prot flags fd offset : ℤ) → ℕ
  sys_mmap addr length prot flags fd offset =
      u64 (do_syscall (LibcCall.mmap addr length prot flags fd offset))

  abbrev pub sys_munmap : (addr length : ℕ) → ℤ
  sys_munmap addr length = int_result (LibcCall.munmap addr length)

  abbrev pub sys_madvise : (addr length : ℕ) (advice : ℤ) → ℤ
  sys_madvise addr length advice = int_result (LibcCall.madvise addr length advice)

  abbrev pub sys_getrlimit : (resource : ℤ) (rlim : ℕ) → ℤ
  sys_getrlimit resource rlim = int_result (LibcCall.getrlimit resource rlim)

  abbrev pub sys_setrlimit : (resource : ℤ) (rlim : ℕ) → ℤ
  sys_setrlimit resource rlim = int_result (LibcCall.setrlimit resource rlim)

  abbrev pub sys_close : (fd : ℤ) → ℤ
  sys_close fd = int_result (LibcCall.close fd)

  abbrev pub sys_register : (fd opcode arg nr_args : ℕ) → ℤ
  sys_register fd opcode arg nr_args = int_result (LibcCall.syscall_register fd opcode arg nr_args)

  abbrev pub sys_setup : (entries p : ℕ) → ℤ
  sys_setup entries p = int_result (LibcCall.syscall_setup entries p)

  abbrev pub sys_enter2 : (fd to_submit min_complete flags sig sz : ℕ) → ℤ
  sys_enter2 fd to_submit min_complete flags sig sz =
      int_result (LibcCall.syscall_enter fd to_submit min_complete flags sig sz)

  abbrev pub sys_enter : (fd to_submit min_complete flags sig : ℕ) → ℤ
  sys_enter fd to_submit min_complete flags sig =
      sys_enter2 fd to_submit min_complete flags sig nsig_bytes

-- What the register holds: an error number from 1 to 4095 with its sign changed, or a value below `limit`.
abbrev pub IsResult : (limit : ℕ) → ℤ → Type 0
IsResult limit r =
    ((e : ℕ) × ((r ≡ negsuc e) × (e < 4095))) ⊎ ((n : ℕ) × ((r ≡ pos n) × (n < limit)))

-- An `int` for all calls but read(2) and mmap(2)
abbrev pub limit : LibcCall → ℕ
limit (LibcCall.read fd buffer size) = 2 ^ 63
limit (LibcCall.mmap addr length prot flags fd offset) = 2 ^ 63
limit _ = 2 ^ 31

-- libc returns -1 for an error and puts its number into `errno`, and else returns what the register holds.
pub record IsLibc (do_syscall : LibcCall → ℤ) (libc : LibcCall → Answer) : Type 0 where
  pub fails :
      (call : LibcCall) (e : ℕ)
      → do_syscall call ≡ negsuc e
      → e < 4095
      → ((libc call).ret ≡ neg 1) × ((libc call).errno ≡ suc e)
  pub returns : (call : LibcCall) (n : ℕ) → do_syscall call ≡ pos n → (libc call).ret ≡ pos n

-- All wrappers of src/arch/syscall-defs.h and of src/arch/generic/syscall.h return the same.
pub record IsSameCalls (do_syscall : LibcCall → ℤ) (libc : LibcCall → Answer) : Type 0 where
  pub at_open :
      (pathname : ℕ) (flags : ℤ) (mode : ℕ)
      → sys_open do_syscall pathname flags mode ≡ Libc.sys_open libc pathname flags mode
  pub at_read :
      (fd : ℤ) (buffer size : ℕ)
      → sys_read do_syscall fd buffer size ≡ Libc.sys_read libc fd buffer size
  pub at_mmap :
      (addr length : ℕ) (prot flags fd offset : ℤ)
      → sys_mmap do_syscall addr length prot flags fd offset
        ≡ Libc.sys_mmap libc addr length prot flags fd offset
  pub at_munmap :
      (addr length : ℕ) → sys_munmap do_syscall addr length ≡ Libc.sys_munmap libc addr length
  pub at_madvise :
      (addr length : ℕ) (advice : ℤ)
      → sys_madvise do_syscall addr length advice ≡ Libc.sys_madvise libc addr length advice
  pub at_getrlimit :
      (resource : ℤ) (rlim : ℕ)
      → sys_getrlimit do_syscall resource rlim ≡ Libc.sys_getrlimit libc resource rlim
  pub at_setrlimit :
      (resource : ℤ) (rlim : ℕ)
      → sys_setrlimit do_syscall resource rlim ≡ Libc.sys_setrlimit libc resource rlim
  pub at_close : (fd : ℤ) → sys_close do_syscall fd ≡ Libc.sys_close libc fd
  pub at_register :
      (fd opcode arg nr_args : ℕ)
      → sys_register do_syscall fd opcode arg nr_args ≡ Libc.sys_register libc fd opcode arg nr_args
  pub at_setup : (entries p : ℕ) → sys_setup do_syscall entries p ≡ Libc.sys_setup libc entries p
  pub at_enter2 :
      (fd to_submit min_complete flags sig sz : ℕ)
      → sys_enter2 do_syscall fd to_submit min_complete flags sig sz
        ≡ Libc.sys_enter2 libc fd to_submit min_complete flags sig sz
  pub at_enter :
      (fd to_submit min_complete flags sig : ℕ)
      → sys_enter do_syscall fd to_submit min_complete flags sig
        ≡ Libc.sys_enter libc fd to_submit min_complete flags sig

to_int-pos : (n : ℕ) → n < 2 ^ 31 → to_int (pos n) ≡ pos n
to_int-pos n small =
    let word : n % 2 ^ 32 % 2 ^ 32 ≡ n = omega (arith, small) in
    let low : ltb n (2 ^ 31) ≡ true = ground arith in rw (word, low) refl

to_int-negsuc : (e : ℕ) → e < 4095 → to_int (negsuc e) ≡ negsuc e
to_int-negsuc e small =
    let word : (2 ^ 32 - 1 - e % 2 ^ 32) % 2 ^ 32 ≡ 2 ^ 32 - 1 - e = omega (arith, small) in
    let high : ltb (2 ^ 32 - 1 - e) (2 ^ 31) ≡ false = ground arith in
    let back : 2 ^ 32 - 1 - (2 ^ 32 - 1 - e) ≡ e = omega (arith, small) in
    rw (word, high, back) refl

module _ (do_syscall : LibcCall → ℤ) (libc : LibcCall → Answer)
    (is_libc : IsLibc do_syscall libc) where
  same_int :
      (call : LibcCall)
      → IsResult (2 ^ 31) (do_syscall call)
      → int_result do_syscall call ≡ int_call libc call
  same_int call (inl (e, (is, small))) =
      let (ret, errno) = is_libc.fails call e is small in
      rw (is, ret, errno) (to_int-negsuc e small)
  same_int call (inr (n, (is, small))) = rw (is, is_libc.returns call n is, to_int-pos n small) refl

  same_read :
      (call : LibcCall)
      → IsResult (2 ^ 63) (do_syscall call)
      → do_syscall call ≡ or_errno (libc call).ret (libc call).errno
  same_read call (inl (e, (is, small))) =
      let (ret, errno) = is_libc.fails call e is small in rw (is, ret, errno) refl
  same_read call (inr (n, (is, small))) = rw (is, is_libc.returns call n is) refl

  same_mmap :
      (call : LibcCall)
      → IsResult (2 ^ 63) (do_syscall call)
      → u64 (do_syscall call) ≡ (
          if u64 (libc call).ret == map_failed
          then err_ptr (neg (libc call).errno)
          else u64 (libc call).ret)
  same_mmap call (inl (e, (is, small))) =
      let (ret, errno) = is_libc.fails call e is small in rw (is, ret, errno) refl
  same_mmap call (inr (n, (is, small))) =
      let word : n % 2 ^ 64 ≡ n = omega (arith, small) in
      let not_failed : (n == map_failed) ≡ false = ground arith in
      rw (is, is_libc.returns call n is, word, not_failed) refl

  -- Where each system call leaves in the result register an error number from 1 to 4095 with its
  -- sign changed or a value below 2^31 (2^63 for read(2) and mmap(2)), and libc returns -1 for
  -- such an error with its number in `errno` and else the value: each wrapper of
  -- src/arch/syscall-defs.h, which makes the call itself, returns what the one of the same name
  -- in src/arch/generic/syscall.h returns by way of libc.
  pub sys-IsSameCalls :
      ((call : LibcCall) → IsResult (limit call) (do_syscall call)) → IsSameCalls do_syscall libc
  unfolding Libc.sys_mmap
  sys-IsSameCalls results = record {
    at_open = λ pathname flags mode. int (LibcCall.open_file pathname flags mode) refl;
    at_read = λ fd buffer size.
        same_read (LibcCall.read fd buffer size) (results (LibcCall.read fd buffer size));
    at_mmap = λ addr length prot flags fd offset.
        same_mmap (LibcCall.mmap addr length prot flags fd offset)
          (results (LibcCall.mmap addr length prot flags fd offset));
    at_munmap = λ addr length. int (LibcCall.munmap addr length) refl;
    at_madvise = λ addr length advice. int (LibcCall.madvise addr length advice) refl;
    at_getrlimit = λ resource rlim. int (LibcCall.getrlimit resource rlim) refl;
    at_setrlimit = λ resource rlim. int (LibcCall.setrlimit resource rlim) refl;
    at_close = λ fd. int (LibcCall.close fd) refl;
    at_register =
        λ fd opcode arg nr_args. int (LibcCall.syscall_register fd opcode arg nr_args) refl;
    at_setup = λ entries p. int (LibcCall.syscall_setup entries p) refl;
    at_enter2 = λ fd to_submit min_complete flags sig sz.
        int (LibcCall.syscall_enter fd to_submit min_complete flags sig sz) refl;
    at_enter = λ fd to_submit min_complete flags sig.
        int (LibcCall.syscall_enter fd to_submit min_complete flags sig nsig_bytes) refl;
  }
    where
      int :
          (call : LibcCall) → limit call ≡ 2 ^ 31 → int_result do_syscall call ≡ int_call libc call
      int call is = same_int call (subst (λ m. IsResult m (do_syscall call)) is (results call))
