-- ===== src/Setup/Memory.antt =====
-- The memory that `rings_size` asks for.
use liburing.Common.{
  inl, inr, Bool-cases, has, if◌then◌else◌, ℕ, ◌+◌, ◌-◌, ◌*◌, ◌/◌, ◌%◌, ◌^◌, ◌≤◌, ◌<◌, ◌≡◌, ap, ◌∙◌,
  arith,
}
use native.Mathlib.Nat.{div-le_self, div-lt_iff_lt-mul, add-mul, mod-eq_of_lt}
use liburing.Abi.Setup as Flag
use liburing.Setup.{fls, npages, cq_bytes, sq_bytes, rings_size, digit_count}
use liburing.Setup.Entries.{fls-digit_count, digit_count-lt}

-- What the CQEs take behind the words of the ring, for which 320 bytes are enough: 16 bytes each, or 32 with
-- IORING_SETUP_CQE32.
abbrev pub cqes_size : (flags cq_entries : ℕ) → ℕ
cqes_size flags cq_entries = 320 + cq_entries * (if has flags Flag.cqe32 then 32 else 16)

-- What the SQEs take: 64 bytes each, or 128 with IORING_SETUP_SQE128.
abbrev pub sqes_size : (flags entries : ℕ) → ℕ
sqes_size flags entries = entries * (if has flags Flag.sqe128 then 128 else 64)

module _ (page_size : ℕ) (paged : 1 ≤ page_size) where
  npages-covers :
      (size : ℕ) → 1 ≤ size → size ≤ 2 ^ 31 → size ≤ 2 ^ npages size page_size * page_size
  unfolding npages
  npages-covers size some_bytes fits =
      let y = (size - 1) / page_size in
      let word : y < 2 ^ 32 = omega (arith, div-le_self (size - 1) page_size) in
      let same : npages size page_size ≡ digit_count 32 y =
        ap (λ x. fls (x / page_size % 2 ^ 32))
          (let e : (size + 2 ^ 64 - 1) % 2 ^ 64 ≡ size - 1 = omega arith in e)
        ∙ ap fls (mod-eq_of_lt word)
        ∙ fls-digit_count y in
      let covered : size - 1 < 2 ^ digit_count 32 y * page_size =
        (div-lt_iff_lt-mul paged).0 (digit_count-lt 32 y word) in
      omega (arith, covered, ap (λ n. 2 ^ n * page_size) same)

  -- For at least one SQE, at most 2^15 SQEs and 2^16 CQEs, and any page size but 0, the memory
  -- that `rings_size` asks for holds the SQEs, of 64 bytes or, with IORING_SETUP_SQE128, 128,
  -- and 320 bytes for the words of the rings and the CQEs, of 16 bytes or, with
  -- IORING_SETUP_CQE32, 32.
  pub rings_size-covers :
      (flags entries cq_entries : ℕ)
      → 1 ≤ entries
      → entries ≤ 2 ^ 15
      → cq_entries ≤ 2 ^ 16
      → cqes_size flags cq_entries + sqes_size flags entries
        ≤ rings_size flags entries cq_entries page_size
  unfolding rings_size
  rings_size-covers flags entries cq_entries some_entries small cq_small = omega (
    arith,
    npages-covers (cq_bytes flags cq_entries) cq_some cq_fits,
    npages-covers (sq_bytes flags entries) sq_some sq_fits,
    holds_cqes,
    holds_sqes,
    add-mul (2 ^ npages (cq_bytes flags cq_entries) page_size)
        (2 ^ npages (sq_bytes flags entries) page_size) page_size,
  )
    where
      cq_some : 1 ≤ cq_bytes flags cq_entries
      cq_some = unfold cq_bytes in ground arith

      cq_fits : cq_bytes flags cq_entries ≤ 2 ^ 31
      cq_fits = unfold cq_bytes in ground arith

      sq_some : 1 ≤ sq_bytes flags entries
      sq_some = unfold sq_bytes in ground arith

      sq_fits : sq_bytes flags entries ≤ 2 ^ 31
      sq_fits = unfold sq_bytes in ground arith

      holds_cqes : cqes_size flags cq_entries ≤ cq_bytes flags cq_entries
      holds_cqes =
          unfold cq_bytes in
          elim (Bool-cases (has flags Flag.cqe32)) [
            | inl e ↦ rw e (omega arith)
            | inr e ↦ rw e (omega arith)
          ]

      holds_sqes : sqes_size flags entries ≤ sq_bytes flags entries
      holds_sqes =
          unfold sq_bytes in
          elim (Bool-cases (has flags Flag.sqe128)) [
            | inl e ↦ rw e (omega arith)
            | inr e ↦ rw e (omega arith)
          ]
