-- ===== src/LinkCp/Runs.antt =====
-- What the runs of examples/link-cp.c copy.
use liburing.Common.{
  ℕ, zero, suc, ◌+◌, ◌-◌, ◌==◌, ◌≡◌, ◌≢◌, ◌≤◌, ◌<◌, refl, ap, ◌∙◌, inl, inr, true, false,
  Bool-cases, Option-cases, some, List, [], ◌∷◌, ◌++◌, length, length-append, take, drop,
  take-append-drop, leb, arith,
}
use mathlib.Core.Path.{subst}
use liburing.Common.Int.{ℤ, pos, neg, is_neg, eqb, is_nonzero}
use liburing.Abi.Errno
use liburing.LinkCp.{
  Copy, Request, State, qd, pair, with_pair, queue_rw_pair, queue_pairs, submit, depth, queued_all,
  outer, release, counted_up, queued_again, handled, step, begin, copy_file,
}
use liburing.LinkCp.Handle.{
  done_by, done_by-whole, done_by-failed, step-whole, step-failed, step-cancelled,
}
use liburing.LinkCp.Fill.{
  hits, hits-append, Copying, none_there, queue_rw_pair-added, Filled, queue_pairs-Filled,
}

-- Where `copy_file` waits, and where it has returned 0
abbrev pub IsGood : (total : ℕ) (written : List Request) → State → Type 0
IsGood total written (State.waits c) = Copying total written c
IsGood total written (State.returns (pos zero) c) = (x : ℕ) → x < total → 1 ≤ hits x written
IsGood total written (State.returns _ c) = Unit
IsGood total written State.crashes = Unit
IsGood total written (State.spins c) = ⊥

-- The completions up to a state: each is of a request that was submitted and has not completed, and fails or moves
-- all of its bytes, or io_uring_wait_cqe fails.
pub data Run (accepts : Copy → ℕ) (total : ℕ) : (written : List Request) → State → Type 0 where
  start : Run accepts total [] (copy_file accepts total)
  completes :
      {written : List Request} {c : Copy} (before : List Request) (req : Request)
      (after : List Request) (res : ℤ)
      → Run accepts total written (State.waits c)
      → c.submitted ≡ before ++ req ∷ after
      → (is_neg res ≡ false → res ≡ pos req.io.iov_len)
      → Run accepts total
          (done_by req res ++ written)
          (step accepts (record c { submitted = before ++ after }) req res)
  wait_fails :
      {written : List Request} {c : Copy}
      → Run accepts total written (State.waits c)
      → Run accepts total written (State.returns (pos 1) c)

module _ (accepts : Copy → ℕ) (total : ℕ) (written : List Request) where
  submit-Copying :
      (c : Copy) → Copying total written c → Copying total written (submit (accepts c) c)
  submit-Copying c v =
      let n = accepts c in
      let parts = take-append-drop n c.prepared in
      record {
        counted = omega (
          arith,
          v.counted,
          length-append c.submitted (take n c.prepared),
          length-append (take n c.prepared) (drop n c.prepared),
          ap length parts,
        );
        place = v.place;
        kept = λ x lt. omega (
          arith,
          v.kept x lt,
          hits-append x c.submitted (take n c.prepared),
          hits-append x (take n c.prepared) (drop n c.prepared),
          ap (hits x) parts,
        );
      }

  over-copied :
      (c : Copy)
      → Copying total written c
      → c.insize ≡ 0
      → c.inflight ≡ 0
      → (x : ℕ) → x < total
      → 1 ≤ hits x written
  over-copied c v over idle x lt =
      let p = none_there x c.prepared (omega (arith, v.counted, idle)) in
      let q = none_there x c.submitted (omega (arith, v.counted, idle)) in
      omega (arith, v.kept x (omega (arith, v.place, over, lt)), p, q)

  queued_all-IsGood :
      (c c' : Copy)
      → c.insize ≢ 0
      → c.inflight < qd
      → Filled total written qd c c'
      → IsGood total written (queued_all accepts c.inflight (some c'))
  unfolding queued_all
  queued_all-IsGood c c' left few f =
      let grown = f.started left few (omega arith) in
      let changed : (c.inflight == c'.inflight) ≡ false = ground arith in
      let enough : leb (depth (submit (accepts c') c')) c'.inflight ≡ true =
        elim (f.full (omega arith)) [ inl over ↦ ground arith | inr many ↦ ground arith ] in
      rw (changed, enough) (submit-Copying c' f.copying)

  outer-IsGood :
      (c : Copy)
      → Copying total written c
      → c.inflight < depth c
      → IsGood total written (outer accepts c)
  unfolding outer
  outer-IsGood c v few = elim (Bool-cases (c.insize == 0)) [
    | inl e ↦
        let over : c.insize ≡ 0 = ground arith in
        let idle : c.inflight ≡ 0 = ground arith in rw e (over-copied c v over idle)
    | inr e ↦
        let left : c.insize ≢ 0 = ground arith in
        let few' : c.inflight < qd = ground arith in
        elim (Option-cases (queue_pairs qd c)) [
          | inl crash ↦ rw (e, crash, queued_all) tt
          | inr (c', got) ↦
              rw (e, got)
                (queued_all-IsGood c c' left few' (queue_pairs-Filled total written qd c c' v got))
        ]
  ]

  -- The counter after a completion, and the test that ends the wait
  next-IsGood :
      (c : Copy) (ret : ℤ)
      → is_nonzero ret ≡ false
      → Copying total written (record c { inflight = c.inflight - 1 })
      → IsGood total written (handled accepts (some (ret, c)))
  unfolding handled
  next-IsGood c ret fine v =
      let c' = record c { inflight = c.inflight - 1 } in
      elim (Bool-cases (leb (depth c') c'.inflight)) [
        | inl more ↦ rw (fine, more) v
        | inr fewer ↦
            let few : c'.inflight < depth c' = ground arith in
            rw (fine, fewer) (outer-IsGood c' v few)
      ]

  release-Copying :
      (req : Request) (c : Copy)
      → Copying total written (record c { inflight = c.inflight - 1 })
      → Copying total written (record (release req c) { inflight = (release req c).inflight - 1 })
  release-Copying req c v = elim (Bool-cases (c.index req.io.at == 2)) [
    | inl e ↦ rw e (record { counted = v.counted; place = v.place; kept = v.kept })
    | inr e ↦ rw e v
  ]

-- A pair that is queued again writes what its request writes.
again_hit :
    (x at : ℕ) (req : Request)
    → hits x (req ∷ [])
      ≤ hits x (pair (record { at = at; offset = req.io.offset; iov_len = req.io.iov_len }))
again_hit x at req = elim (Bool-cases req.is_write) [
  | inl e ↦ rw e (omega arith)
  | inr e ↦ rw e (omega arith)
]

module _ (accepts : Copy → ℕ) (total : ℕ) (written : List Request) (c : Copy)
    (before : List Request) (req : Request) (after : List Request) (v : Copying total written c)
    (is : c.submitted ≡ before ++ req ∷ after) where
  left_over : Copy
  left_over = record c { submitted = before ++ after }

  one_less : length c.submitted ≡ suc (length (before ++ after))
  one_less =
      ap length is ∙ omega (arith, length-append before (req ∷ after), length-append before after)

  split_hits : (x : ℕ) → hits x c.submitted ≡ hits x (req ∷ []) + hits x (before ++ after)
  split_hits x =
      ap (hits x) is ∙ omega (arith, hits-append x before (req ∷ after), hits-append x before after)

  whole-Copying :
      Copying total
        (req ∷ written)
        (record (counted_up req (record c { submitted = before ++ after })) {
          inflight = c.inflight - 1;
        })
  whole-Copying = record {
    counted = omega (arith, v.counted, one_less);
    place = v.place;
    kept = λ x lt. omega (arith, v.kept x lt, split_hits x);
  }

  again-Copying :
      (d : Copy)
      → with_pair
          (counted_up req (record c { submitted = before ++ after }))
          req.io.iov_len
          req.io.offset
        ≡ d
      → Copying total written (record d { inflight = d.inflight + 2 - 1 })
  again-Copying d same =
      let new =
        pair (record { at = c.allocated; offset = req.io.offset; iov_len = req.io.iov_len }) in
      subst (λ d. Copying total written (record d { inflight = d.inflight + 2 - 1 })) same
        (record {
          counted = omega (arith, v.counted, one_less, length-append c.prepared new);
          place = v.place;
          kept = λ x lt. omega (
            arith,
            v.kept x lt,
            split_hits x,
            hits-append x c.prepared new,
            again_hit x c.allocated req,
          );
        })

  step-IsGood :
      (res : ℤ)
      → (is_neg res ≡ false → res ≡ pos req.io.iov_len)
      → IsGood total
          (done_by req res ++ written)
          (step accepts (record c { submitted = before ++ after }) req res)
  unfolding queued_again handled
  step-IsGood res whole =
      let c0 = record c { submitted = before ++ after } in
      let c1 = counted_up req c0 in
      elim (Bool-cases (is_neg res)) [
        | inr fine ↦
            let good =
              next-IsGood accepts total (req ∷ written) (release req c1) (pos 0) refl
                (release-Copying accepts total (req ∷ written) req c1 whole-Copying) in
            rw (done_by-whole req res (whole fine), step-whole accepts c0 req res fine) good
        | inl bad ↦ elim (Bool-cases (eqb res (neg Errno.ecanceled))) [
          | inr other ↦ rw (done_by-failed req res bad, step-failed accepts c0 req res bad other) tt
          | inl cancelled ↦ elim (Option-cases (queue_rw_pair c1 req.io.iov_len req.io.offset)) [
            | inl crash ↦
                rw
                  (
                    done_by-failed req res bad,
                    step-cancelled accepts c0 req res bad cancelled,
                    crash,
                  )
                  tt
            | inr (d, got) ↦
                let d2 = record d { inflight = d.inflight + 2 } in
                let queued_more =
                  again-Copying d (queue_rw_pair-added c1 d req.io.iov_len req.io.offset got) in
                rw
                  (done_by-failed req res bad, step-cancelled accepts c0 req res bad cancelled, got)
                  (next-IsGood accepts total written (release req d2) (pos 0) refl
                    (release-Copying accepts total written req d2 queued_more))
          ]
        ]
      ]

-- In link-cp, where each completion is of a request that was submitted and has not completed,
-- and fails or moves all of its bytes, waits may fail, and io_uring_submit submits any part of
-- the requests or fails: where `copy_file` returns 0, each byte of the file lies in the range of
-- a write that has completed with all of its bytes; while it waits, its counter is the number of
-- requests in the ring, and what has been queued is in the ring or written; and the outer loop
-- never goes round with nothing to wait for.
pub Run-IsGood :
    {accepts : Copy → ℕ} {total : ℕ} {written : List Request} {s : State}
    → Run accepts total written s
    → IsGood total written s
unfolding copy_file
Run-IsGood {accepts} {total} start =
    outer-IsGood accepts total [] (begin total)
      (record { counted = refl; place = omega arith; kept = λ x lt. absurd (omega (arith, lt)) })
      (ground arith)
Run-IsGood {accepts} {total}
      (completes {written = written} {c = c} before req after res run is whole) =
    step-IsGood accepts total written c before req after (Run-IsGood run) is res whole
Run-IsGood (wait_fails run) = tt
