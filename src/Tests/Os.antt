-- ===== src/Tests/Os.antt =====
-- An operating system for the tests: it maps at growing addresses, until something is unmapped.
use liburing.Common.{
  ℕ, ◌+◌, ◌*◌, ◌%◌, ◌<◌, ◌≡◌, ◌≢◌, sym, ◌∙◌, Bool, true, false, not, ◌&&◌, inl, inr, [], ◌∷◌, ◌==◌,
  ltb, Bool-cases, if◌then◌else◌, arith,
}
use liburing.Common.Int.{ℤ, pos, neg}
use liburing.Abi.Errno
use liburing.Abi.Feat
use liburing.Sys.{Params, RegArg, Call, Calls, Reply, Os, MapKind, Memory, is_err, mapped_at, null}
use liburing.Sys.Resources.{Absent, regions, after_call, IsFresh}
use liburing.Tests.Data.{numbered, answers}

-- The number of calls, and whether nothing has been unmapped.
abbrev count : Calls → ℕ
count [] = 0
count (c ∷ t) = count t + 1

abbrev no_munmap : Calls → Bool
no_munmap [] = true
no_munmap (Call.munmap a l ∷ t) = false
no_munmap (c ∷ t) = no_munmap t

abbrev pub answer : ℤ → Reply
answer ret = record { ret = ret; arg = null; rlim_cur = 0 }

abbrev can_map : Calls → (length : ℕ) → Bool
can_map t length = not (length == 0) && no_munmap t && ltb (count t) 100

-- The parameters that the kernel fills in: 64 and 128 entries, both rings in one mapping.
abbrev pub filled : Params → Params
filled p = record p {
  sq_entries = 64;
  cq_entries = 128;
  features = Feat.single_mmap;
  sq_off = record p.sq_off {
    head = 0;
    tail = 4;
    ring_mask = 8;
    ring_entries = 12;
    flags = 16;
    dropped = 20;
    array = 2112;
  };
  cq_off = record p.cq_off {
    head = 24;
    tail = 28;
    ring_mask = 32;
    ring_entries = 36;
    overflow = 40;
    cqes = 64;
    flags = 44;
  };
}

abbrev pub map_os : Os
map_os t (Call.mmap length kind fd offset) =
    if can_map t length then answer (pos (0x10_0000 * (count t + 1))) else answer (neg Errno.enomem)
map_os t (Call.setup entries p) = record {
  ret = pos 3;
  arg = RegArg.params (filled p);
  rlim_cur = 0;
}
map_os t Call.sysconf_pagesize = answer (pos 4096)
map_os t (Call.malloc size) = answer (pos 0x9000_0000)
map_os t call = answer (pos 0)

-- The words of a new ring of that size
abbrev pub word_at : ℕ → ℕ
word_at offset =
    if offset == 8
    then 63
    else if offset == 12
    then 64
    else if offset == 32
    then 127
    else if offset == 36
    then 128
    else 0

abbrev pub memory : Calls → Memory
memory t = record { word = λ a. word_at (a % 0x1000); sqe = numbered; cqe = answers }

module _ (page : ℕ) where
  higher_addr :
      (t : Calls) (a : ℕ)
      → no_munmap t ≡ true
      → 0x10_0000 * count t < a
      → Absent a (regions page map_os t)
  unfolding regions after_call
  higher_addr [] a plain above = tt
  higher_addr (Call.mmap length kind fd offset ∷ t) a plain above =
      let rest = higher_addr t a plain (omega (arith, above)) in
      elim (Bool-cases (can_map t length)) [
        | inl yes_map ↦
            elim (Bool-cases (is_err (mapped_at map_os t (Call.mmap length kind fd offset)))) [
              | inl e ↦ rw e rest
              | inr e ↦ rw e ((λ same. ground (arith, above, rw yes_map at same)), rest)
            ]
        | inr no_map ↦ rw no_map rest
      ]
  higher_addr (Call.munmap b l ∷ t) a plain above = cc
  higher_addr (Call.register fd opcode arg nr ∷ t) a plain above =
      higher_addr t a plain (omega (arith, above))
  higher_addr (Call.getrlimit ∷ t) a plain above = higher_addr t a plain (omega (arith, above))
  higher_addr (Call.setrlimit cur ∷ t) a plain above = higher_addr t a plain (omega (arith, above))
  higher_addr (Call.close fd ∷ t) a plain above = higher_addr t a plain (omega (arith, above))
  higher_addr (Call.madvise_dontfork b l ∷ t) a plain above =
      higher_addr t a plain (omega (arith, above))
  higher_addr (Call.setup entries p ∷ t) a plain above =
      higher_addr t a plain (omega (arith, above))
  higher_addr (Call.malloc l ∷ t) a plain above = higher_addr t a plain (omega (arith, above))
  higher_addr (Call.free b ∷ t) a plain above = higher_addr t a plain (omega (arith, above))
  higher_addr (Call.sysconf_pagesize ∷ t) a plain above =
      higher_addr t a plain (omega (arith, above))

  can_map-parts :
      (t : Calls) (length : ℕ)
      → can_map t length ≡ true
      → (length ≢ 0) × (no_munmap t ≡ true) × (count t < 100)
  can_map-parts t length e = ground (arith, e)

  map_os-mapped :
      (t : Calls) (length : ℕ) (kind : MapKind) (fd : ℤ) (offset : ℕ)
      → is_err (mapped_at map_os t (Call.mmap length kind fd offset)) ≡ false
      → (can_map t length ≡ true)
        × (mapped_at map_os t (Call.mmap length kind fd offset) ≡ 0x10_0000 * (count t + 1))
  map_os-mapped t length kind fd offset good = elim (Bool-cases (can_map t length)) [
    | inl e ↦ (e, rw e (omega (arith, (can_map-parts t length e).2)))
    | inr e ↦ absurd (ground (arith, rw e at good))
  ]

  pub map_os-IsFresh : IsFresh page map_os
  map_os-IsFresh = record {
    nonzero = λ t length kind fd offset good.
        let (yes_map, same) = map_os-mapped t length kind fd offset good in
        (λ e. omega (arith, sym same ∙ e));
    apart = λ t length kind fd offset good.
        let (yes_map, same) = map_os-mapped t length kind fd offset good in
        higher_addr t _ (can_map-parts t length yes_map).1 (omega (arith, same));
    some_bytes = λ t length kind fd offset good.
        (can_map-parts t length (map_os-mapped t length kind fd offset good).0).0;
  }
