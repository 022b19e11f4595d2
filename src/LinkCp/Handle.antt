-- ===== src/LinkCp/Handle.antt =====
-- The cases of a step of examples/link-cp.c.
use liburing.Common.{
  ℕ, ◌==◌, ◌≡◌, refl, ap, ◌∙◌, true, false, some, List, [], ◌∷◌, if◌then◌else◌, arith,
}
use liburing.Common.Int.{ℤ, pos, negsuc, neg, is_neg, eqb}
use liburing.Abi.Errno
use liburing.LinkCp.{
  Copy, Request, queue_rw_pair, release, counted_up, queued_again, handle_cqe, handled, step,
}

-- The requests that a completion shows to have moved all of their bytes
abbrev pub done_by : Request → (res : ℤ) → List Request
done_by req res = if eqb res (pos req.io.iov_len) then req ∷ [] else []

pub done_by-whole :
    (req : Request) (res : ℤ) → res ≡ pos req.io.iov_len → done_by req res ≡ req ∷ []
done_by-whole req res e =
    let same : (req.io.iov_len == req.io.iov_len) ≡ true = ground arith in
    ap (done_by req) e ∙ rw same refl

pub done_by-failed : (req : Request) (res : ℤ) → is_neg res ≡ true → done_by req res ≡ []
done_by-failed req (pos n) e = cc
done_by-failed req (negsuc n) e = refl

module _ (accepts : Copy → ℕ) (c : Copy) (req : Request) (res : ℤ) where
  pub step-whole :
      is_neg res ≡ false
      → step accepts c req res ≡ handled accepts (some (pos 0, release req (counted_up req c)))
  unfolding step handle_cqe
  step-whole fine = rw (fine, handled) refl

  pub step-failed :
      is_neg res ≡ true
      → eqb res (neg Errno.ecanceled) ≡ false
      → step accepts c req res ≡ handled accepts (some (pos 1, release req (counted_up req c)))
  unfolding step handle_cqe
  step-failed bad other = rw (bad, other, handled) refl

  pub step-cancelled :
      is_neg res ≡ true
      → eqb res (neg Errno.ecanceled) ≡ true
      → step accepts c req res
        ≡ handled accepts
            (queued_again req (queue_rw_pair (counted_up req c) req.io.iov_len req.io.offset))
  unfolding step handle_cqe
  step-cancelled bad cancelled = rw (bad, cancelled, handled) refl
