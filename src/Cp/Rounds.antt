-- ===== src/Cp/Rounds.antt =====
-- The loop of examples/io_uring-cp.c that queues reads ends within as many rounds as the ring has entries.
use liburing.Common.{
  ℕ, zero, suc, ◌+◌, ◌≤◌, ◌≡◌, refl, Bool, inl, inr, Bool-cases, Option-cases, arith, Option, none,
  some, ◌==◌, leb, true,
}
use liburing.Cp.{qd, Copy, next_read, queue_read, queue_reads}

module _ (alloc : Copy → Bool) where
  Grown : Copy → Option Copy → Type 0
  Grown c none = Unit
  Grown c (some c') = c'.reads + c'.writes ≡ c.reads + c.writes + 1

  next_read-Grown : (c : Copy) → Grown c (next_read alloc c)
  unfolding next_read queue_read Grown
  next_read-Grown c = elim (Bool-cases (c.insize == 0)) [
    | inl e ↦ rw (e, next_read) tt
    | inr some_in ↦ elim (Bool-cases (leb qd (c.reads + c.writes))) [
      | inl e ↦ rw (some_in, e, next_read) tt
      | inr free ↦ elim (Bool-cases (alloc c)) [
        | inr e ↦ rw (some_in, free, e, next_read, queue_read) tt
        | inl got ↦ elim (Bool-cases (leb qd c.queued)) [
          | inl e ↦ rw (some_in, free, got, e, next_read, queue_read) tt
          | inr room ↦ rw (some_in, free, got, room, next_read, queue_read) (omega arith)
        ]
      ]
    ]
  ]

  full-left : (c : Copy) → qd ≤ c.reads + c.writes → next_read alloc c ≡ none
  unfolding next_read
  full-left c le =
      let full : leb qd (c.reads + c.writes) ≡ true = ground arith in
      elim (Bool-cases (c.insize == 0)) [
        | inl e ↦ rw (e, next_read) refl
        | inr e ↦ rw (e, full, next_read) refl
      ]

  queue_reads-left :
      (rounds : ℕ) (c : Copy)
      → qd ≤ c.reads + c.writes + rounds
      → next_read alloc (queue_reads alloc rounds c) ≡ none
  unfolding queue_reads Grown
  queue_reads-left zero c le = full-left c (omega (arith, le))
  queue_reads-left (suc rounds) c le = elim (Option-cases (next_read alloc c)) [
    | inl e ↦ rw (e, queue_reads) e
    | inr (c', e) ↦
        let grown : c'.reads + c'.writes ≡ c.reads + c.writes + 1 = rw e at (next_read-Grown c) in
        rw (e, queue_reads) (queue_reads-left rounds c' (omega (arith, grown, le)))
  ]

  -- The loop has been left by its own tests after `qd` rounds.
  pub queue_reads-stops : (c : Copy) → next_read alloc (queue_reads alloc qd c) ≡ none
  queue_reads-stops c = queue_reads-left qd c (omega arith)
