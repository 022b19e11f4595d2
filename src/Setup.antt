-- ===== src/Setup.antt =====
-- src/setup.c: the sizes of the rings.
pub mod Entries
pub mod Memory
pub mod Map
pub mod Init
pub mod Exit
pub mod Provided
pub mod Probe
use liburing.Common.{
  ℕ, zero, suc, ◌+◌, ◌-◌, ◌*◌, ◌/◌, ◌%◌, ◌^◌, ◌⊎◌, inl, inr, Option, none, some, ◌==◌,
  if◌then◌else◌, ltb, has, sub32, mul32, add64, mul64, bit_and, shl32,
}
use liburing.Common.Int.{ℤ, neg}
use liburing.Abi.Errno
use liburing.Abi.Setup as Flag

abbrev pub kern_max_entries : ℕ
kern_max_entries = 32768

abbrev pub kern_max_cq_entries : ℕ
kern_max_cq_entries = 2 * kern_max_entries

-- The number of binary digits of a number below `2 ^ n`: what `__builtin_clz` leaves of a word.
unfoldable pub digit_count : (n : ℕ) → ℕ → ℕ
digit_count zero x = 0
digit_count (suc n) x = let rest = digit_count n (x / 2) in if x == 0 then 0 else suc rest

-- `__fls`, on the 32 bits of its argument
unfoldable pub fls : ℕ → ℕ
fls x = if x == 0 then 0 else digit_count 32 x

-- `roundup_pow2`
unfoldable pub roundup_pow2 : ℕ → ℕ
roundup_pow2 depth = shl32 1 (fls (sub32 depth 1))

-- The checks that both sizes pass: not 0, and at most the limit, or cut to it.
unfoldable pub clamped : (limit flags entries : ℕ) → Option ℕ
clamped limit flags entries =
    if entries == 0
    then none
    else if ltb limit entries
    then (if has flags Flag.clamp then some limit else none)
    else some entries

-- The rest of `get_sq_cq_entries` where `IORING_SETUP_CQSIZE` is set.
unfoldable pub with_cq : (sq : ℕ) → Option ℕ → ℤ ⊎ (ℕ × ℕ)
with_cq sq none = inl (neg Errno.einval)
with_cq sq (some cq_entries) =
    let cq = roundup_pow2 cq_entries in if ltb cq sq then inl (neg Errno.einval) else inr (sq, cq)

-- The rest of `get_sq_cq_entries` after the check of `entries`.
unfoldable pub with_sq : (flags cq_entries : ℕ) → Option ℕ → ℤ ⊎ (ℕ × ℕ)
with_sq flags cq_entries none = inl (neg Errno.einval)
with_sq flags cq_entries (some entries) =
    let sq = roundup_pow2 entries in
    if has flags Flag.cqsize
    then with_cq sq (clamped kern_max_cq_entries flags cq_entries)
    else inr (sq, mul32 2 sq)

-- `get_sq_cq_entries`: an error, or the sizes of both rings.
unfoldable pub get_sq_cq_entries : (entries flags cq_entries : ℕ) → ℤ ⊎ (ℕ × ℕ)
get_sq_cq_entries entries flags cq_entries =
    with_sq flags cq_entries (clamped kern_max_entries flags entries)

-- `npages`
unfoldable pub npages : (size page_size : ℕ) → ℕ
npages size page_size = fls (((size + 2 ^ 64 - 1) % 2 ^ 64) / page_size % 2 ^ 32)

abbrev pub kring_size : ℕ
kring_size = 320

-- `cq_size` of `rings_size`: the CQEs and the words of the ring, up to the next multiple of 64
unfoldable pub cq_bytes : (flags cq_entries : ℕ) → ℕ
cq_bytes flags cq_entries =
    let entry = if has flags Flag.cqe32 then 32 else 16 in
    (entry * cq_entries + kring_size + 63) / 64 * 64

-- `sq_size` of `rings_size`
unfoldable pub sq_bytes : (flags entries : ℕ) → ℕ
sq_bytes flags entries = (if has flags Flag.sqe128 then 128 else 64) * entries

-- `rings_size`; its arguments are far from where `size_t` wraps.
unfoldable pub rings_size : (flags entries cq_entries page_size : ℕ) → ℕ
rings_size flags entries cq_entries page_size =
    (2 ^ npages (cq_bytes flags cq_entries) page_size
      + 2 ^ npages (sq_bytes flags entries) page_size)
    * page_size
