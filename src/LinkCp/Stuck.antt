-- ===== src/LinkCp/Stuck.antt =====
-- Where examples/link-cp.c waits for ever.
use liburing.Common.{
  ℕ, zero, suc, ◌+◌, ◌-◌, ◌==◌, ◌≡◌, ◌≤◌, refl, ap, ◌∙◌, inl, inr, true, Bool-cases, Option-cases,
  some, List, ◌∷◌, ◌++◌, length, length-append, leb, arith,
}
use mathlib.Core.Path.{subst}
use liburing.Common.Int.{ℤ, pos, neg, is_neg, eqb}
use liburing.Abi.Errno
use liburing.LinkCp.{
  Copy, Request, State, pair, with_pair, queue_rw_pair, release, counted_up, queued_again, handled,
  step,
}
use liburing.LinkCp.Handle.{step-whole, step-failed, step-cancelled}
use liburing.LinkCp.Fill.{Copying, queue_rw_pair-added}
use liburing.LinkCp.Runs.{Run, Run-IsGood}

-- All has been queued, every request is counted, and some have not been submitted.
pub record Last (c : Copy) : Type 0 where
  pub over : c.insize ≡ 0
  pub counted : c.inflight ≡ length c.prepared + length c.submitted
  pub unsubmitted : 1 ≤ length c.prepared

-- `copy_file` waits with requests that have not been submitted, or has failed.
abbrev pub IsStuck : State → Type 0
IsStuck (State.waits c) = Last c
IsStuck (State.returns (pos zero) c) = ⊥
IsStuck (State.returns _ c) = Unit
IsStuck State.crashes = Unit
IsStuck (State.spins c) = ⊥

-- What follows a state, whatever the results of the completions are
pub data Later (accepts : Copy → ℕ) (s : State) : State → Type 0 where
  now : Later accepts s s
  later :
      {c : Copy} (before : List Request) (req : Request) (after : List Request) (res : ℤ)
      → Later accepts s (State.waits c)
      → c.submitted ≡ before ++ req ∷ after
      → Later accepts s (step accepts (record c { submitted = before ++ after }) req res)
  failed : {c : Copy} → Later accepts s (State.waits c) → Later accepts s (State.returns (pos 1) c)

next-IsStuck :
    (accepts : Copy → ℕ) (c : Copy)
    → Last (record c { inflight = c.inflight - 1 })
    → IsStuck (handled accepts (some (pos 0, c)))
unfolding handled
next-IsStuck accepts c l =
    let c' = record c { inflight = c.inflight - 1 } in
    let is_over : (c.insize == 0) ≡ true = ground (arith, l.over) in
    let more : leb 1 (c.inflight - 1) ≡ true = ground (arith, l.counted, l.unsubmitted) in
    rw (is_over, more) l

release-Last :
    (req : Request) (c : Copy)
    → Last (record c { inflight = c.inflight - 1 })
    → Last (record (release req c) { inflight = (release req c).inflight - 1 })
release-Last req c l = elim (Bool-cases (c.index req.io.at == 2)) [
  | inl e ↦ rw e (record { over = l.over; counted = l.counted; unsubmitted = l.unsubmitted })
  | inr e ↦ rw e l
]

module _ (accepts : Copy → ℕ) (c : Copy) (before : List Request) (req : Request)
    (after : List Request) (over : c.insize ≡ 0)
    (counted : c.inflight ≡ length c.prepared + length c.submitted)
    (is : c.submitted ≡ before ++ req ∷ after) where
  one_less : length c.submitted ≡ suc (length (before ++ after))
  one_less =
      ap length is ∙ omega (arith, length-append before (req ∷ after), length-append before after)

  again-Last :
      (d : Copy)
      → with_pair
          (counted_up req (record c { submitted = before ++ after }))
          req.io.iov_len
          req.io.offset
        ≡ d
      → Last (record d { inflight = d.inflight + 2 - 1 })
  again-Last d same =
      let more =
        length-append c.prepared
          (pair (record { at = c.allocated; offset = req.io.offset; iov_len = req.io.iov_len })) in
      subst (λ d. Last (record d { inflight = d.inflight + 2 - 1 })) same
        (record {
          over = over;
          counted = omega (arith, counted, one_less, more);
          unsubmitted = omega (arith, more);
        })

  cancelled-IsStuck :
      (res : ℤ)
      → eqb res (neg Errno.ecanceled) ≡ true
      → is_neg res ≡ true
      → IsStuck (step accepts (record c { submitted = before ++ after }) req res)
  unfolding queued_again handled
  cancelled-IsStuck res cancelled bad =
      let c0 = record c { submitted = before ++ after } in
      let c1 = counted_up req c0 in
      elim (Option-cases (queue_rw_pair c1 req.io.iov_len req.io.offset)) [
        | inl crash ↦ rw (step-cancelled accepts c0 req res bad cancelled, crash) tt
        | inr (d, got) ↦
            let d2 = record d { inflight = d.inflight + 2 } in
            let last = again-Last d (queue_rw_pair-added c1 d req.io.iov_len req.io.offset got) in
            rw (step-cancelled accepts c0 req res bad cancelled, got)
              (next-IsStuck accepts (release req d2) (release-Last req d2 last))
      ]

  step-IsStuck :
      (res : ℤ)
      → 1 ≤ length c.prepared
      → IsStuck (step accepts (record c { submitted = before ++ after }) req res)
  unfolding handled
  step-IsStuck res unsubmitted =
      let c0 = record c { submitted = before ++ after } in
      let c1 = counted_up req c0 in
      let last : Last (record c1 { inflight = c1.inflight - 1 }) = record {
        over = over;
        counted = omega (arith, counted, one_less);
        unsubmitted = unsubmitted;
      } in
      elim (Bool-cases (is_neg res)) [
        | inr fine ↦
            rw (step-whole accepts c0 req res fine)
              (next-IsStuck accepts (release req c1) (release-Last req c1 last))
        | inl bad ↦ elim (Bool-cases (eqb res (neg Errno.ecanceled))) [
          | inr other ↦ rw (step-failed accepts c0 req res bad other) tt
          | inl cancelled ↦ cancelled-IsStuck res cancelled bad
        ]
      ]

Later-IsStuck : {accepts : Copy → ℕ} {s s' : State} → IsStuck s → Later accepts s s' → IsStuck s'
Later-IsStuck stuck now = stuck
Later-IsStuck {accepts} stuck (later {c = c} before req after res run is) =
    let l : Last c = Later-IsStuck stuck run in
    step-IsStuck accepts c before req after l.over l.counted is res l.unsubmitted
Later-IsStuck stuck (failed run) = tt

-- In link-cp, under the conditions of `Run-IsGood` up to a wait where all of the file has been
-- queued: once a request is cancelled there, then whatever completes after it, and with whatever
-- result, `copy_file` never returns 0, and as long as it has neither failed nor crashed it waits
-- with requests in the ring that have not been submitted.
pub cancelled-stays :
    {accepts : Copy → ℕ} {total : ℕ} {written : List Request} {c : Copy} {s : State}
    (before : List Request) (req : Request) (after : List Request)
    → Run accepts total written (State.waits c)
    → c.insize ≡ 0
    → c.submitted ≡ before ++ req ∷ after
    → Later accepts
        (step accepts (record c { submitted = before ++ after }) req (neg Errno.ecanceled))
        s
    → IsStuck s
cancelled-stays {accepts} {c = c} before req after run over is =
    let v : Copying _ _ c = Run-IsGood run in
    Later-IsStuck (
      cancelled-IsStuck accepts c before req after over v.counted is (neg Errno.ecanceled) refl
        refl)
