-- ===== src/Tests/Arch.antt =====
-- The calls where memory runs out, without libc and by way of it
use liburing.Common.{ℕ, suc, ◌≡◌, ◌<◌, refl, arith, inl, inr, ap, sym}
use liburing.Common.Int.{ℤ, pos, neg, negsuc, is_neg}
use mathlib.Core.Bool.{true≢false}
use liburing.Arch.Native.{IsResult, IsSameCalls, limit, sys-IsSameCalls}
use liburing.Arch.{LibcCall, Answer}

-- mmap(2) fails for lack of memory, and all else returns 5.
abbrev raw : LibcCall → ℤ
raw (LibcCall.mmap addr length prot flags fd offset) = negsuc 11
raw _ = pos 5

abbrev by_libc : LibcCall → Answer
by_libc (LibcCall.mmap addr length prot flags fd offset) = record { ret = neg 1; errno = 12 }
by_libc _ = record { ret = pos 5; errno = 0 }

-- The number that a constructor holds
abbrev size : ℤ → ℕ
size (pos n) = n
size (negsuc n) = n

raw-IsResult : (call : LibcCall) → IsResult (limit call) (raw call)
raw-IsResult (LibcCall.syscall_register x0 x1 x2 x3) = inr (5, (refl, omega arith))
raw-IsResult (LibcCall.syscall_setup x0 x1) = inr (5, (refl, omega arith))
raw-IsResult (LibcCall.syscall_enter x0 x1 x2 x3 x4 x5) = inr (5, (refl, omega arith))
raw-IsResult (LibcCall.open_file x0 x1 x2) = inr (5, (refl, omega arith))
raw-IsResult (LibcCall.read x0 x1 x2) = inr (5, (refl, omega arith))
raw-IsResult (LibcCall.mmap x0 x1 x2 x3 x4 x5) = inl (11, (refl, omega arith))
raw-IsResult (LibcCall.munmap x0 x1) = inr (5, (refl, omega arith))
raw-IsResult (LibcCall.madvise x0 x1 x2) = inr (5, (refl, omega arith))
raw-IsResult (LibcCall.getrlimit x0 x1) = inr (5, (refl, omega arith))
raw-IsResult (LibcCall.setrlimit x0 x1) = inr (5, (refl, omega arith))
raw-IsResult (LibcCall.close x0) = inr (5, (refl, omega arith))
raw-IsResult LibcCall.sysconf_pagesize = inr (5, (refl, omega arith))

fails :
    (call : LibcCall) (e : ℕ)
    → raw call ≡ negsuc e
    → e < 4095
    → ((by_libc call).ret ≡ neg 1) × ((by_libc call).errno ≡ suc e)
fails (LibcCall.syscall_register x0 x1 x2 x3) e is small = absurd (true≢false (sym (ap is_neg is)))
fails (LibcCall.syscall_setup x0 x1) e is small = absurd (true≢false (sym (ap is_neg is)))
fails (LibcCall.syscall_enter x0 x1 x2 x3 x4 x5) e is small =
    absurd (true≢false (sym (ap is_neg is)))
fails (LibcCall.open_file x0 x1 x2) e is small = absurd (true≢false (sym (ap is_neg is)))
fails (LibcCall.read x0 x1 x2) e is small = absurd (true≢false (sym (ap is_neg is)))
fails (LibcCall.mmap x0 x1 x2 x3 x4 x5) e is small = (refl, ap suc (ap size is))
fails (LibcCall.munmap x0 x1) e is small = absurd (true≢false (sym (ap is_neg is)))
fails (LibcCall.madvise x0 x1 x2) e is small = absurd (true≢false (sym (ap is_neg is)))
fails (LibcCall.getrlimit x0 x1) e is small = absurd (true≢false (sym (ap is_neg is)))
fails (LibcCall.setrlimit x0 x1) e is small = absurd (true≢false (sym (ap is_neg is)))
fails (LibcCall.close x0) e is small = absurd (true≢false (sym (ap is_neg is)))
fails LibcCall.sysconf_pagesize e is small = absurd (true≢false (sym (ap is_neg is)))

returns : (call : LibcCall) (n : ℕ) → raw call ≡ pos n → (by_libc call).ret ≡ pos n
returns (LibcCall.syscall_register x0 x1 x2 x3) n is = is
returns (LibcCall.syscall_setup x0 x1) n is = is
returns (LibcCall.syscall_enter x0 x1 x2 x3 x4 x5) n is = is
returns (LibcCall.open_file x0 x1 x2) n is = is
returns (LibcCall.read x0 x1 x2) n is = is
returns (LibcCall.mmap x0 x1 x2 x3 x4 x5) n is = absurd (true≢false (ap is_neg is))
returns (LibcCall.munmap x0 x1) n is = is
returns (LibcCall.madvise x0 x1 x2) n is = is
returns (LibcCall.getrlimit x0 x1) n is = is
returns (LibcCall.setrlimit x0 x1) n is = is
returns (LibcCall.close x0) n is = is
returns LibcCall.sysconf_pagesize n is = is

sys-IsSameCalls_example : IsSameCalls raw by_libc
sys-IsSameCalls_example =
    sys-IsSameCalls raw by_libc (record { fails = fails; returns = returns }) raw-IsResult
