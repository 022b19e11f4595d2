-- ===== src/Submit/Hands.antt =====
-- Entering the kernel hands it SQEs in order.
use liburing.Common.{
  ℕ, ◌+◌, ◌-◌, ◌<◌, ◌≤◌, ◌^◌, ◌≡◌, ap, sym, ◌∙◌, inl, inr, Bool, false, not, ◌||◌, ◌==◌, Bool-cases,
  [], ◌++◌, arith, add32, sub32,
}
use liburing.Common.Window.{window, window-append}
use mathlib.Core.List.{append-nil}
use mathlib.Core.Path.{ap₂}
use liburing.Ring.{Ring, Kernel, EnterCall, sys_enter2}
use liburing.Submission.{flush_sq, sq_ring_needs_enter}
use liburing.Submission.Inv.{IsSq, place}
use liburing.Submission.Pending.{pending, Hands, none-Hands, append-Hands, flush_sq-Hands}
use liburing.Completion.{cq_ring_needs_enter}
use liburing.Submit.{submit_flushed, submit_and_wait, submit}

-- The kernel takes SQEs from the head of the ring, and only those that it has been told of.
pub record IsTaker (k : ℕ) (kernel : Kernel) : Type 0 where
  pub takes :
      (call : EnterCall) (r : Ring)
      → IsSq k r
      → (d : ℕ) × ((d ≤ sub32 r.sq.ktail r.sq.khead)
          × ((kernel call r).1.sq_khead ≡ add32 r.sq.khead d))

module _ {k : ℕ} {kernel : Kernel} (taker : IsTaker k kernel) where
  pub sys_enter2-Hands :
      (call : EnterCall) (r : Ring) → IsSq k r → Hands k r [] (sys_enter2 kernel call r).1
  unfolding sys_enter2
  sys_enter2-Hands call r v =
      let (d, (le, head)) = taker.takes call r v in
      let n = sub32 r.sq.sqe_tail r.sq.khead in
      let d_le : d ≤ n = omega (arith, le, v.told, v.flushed_le) in
      let fits : (kernel call r).1.sq_khead < 2 ^ 32 = omega (arith, head) in
      let left : sub32 r.sq.sqe_tail (kernel call r).1.sq_khead ≡ n - d =
        omega (arith, head, d_le, v.tail_fits, v.khead_fits) in
      let flushed : sub32 r.sq.sqe_head (kernel call r).1.sq_khead
          ≡ sub32 r.sq.sqe_head r.sq.khead - d =
        omega (arith, head, le, v.told, v.head_fits, v.khead_fits) in
      record {
        valid = record {
          narrow = v.narrow;
          entries = v.entries;
          mask = v.mask;
          khead_fits = fits;
          head_fits = v.head_fits;
          tail_fits = v.tail_fits;
          told = v.told;
          flushed_le = omega (arith, left, flushed, v.flushed_le);
          bounded = omega (arith, left, v.bounded);
        };
        taken = window (place r) r.sq.sqes r.sq.khead d;
        order =
            append-nil (pending r)
            ∙ ap (window (place r) r.sq.sqes r.sq.khead)
                (let m : n ≡ d + (n - d) = omega (arith, d_le) in m)
            ∙ window-append (place r) r.sq.sqes r.sq.khead d (n - d) v.khead_fits
            ∙ ap (λ l. window (place r) r.sq.sqes r.sq.khead d ++ l)
                (ap₂ (window (place r) r.sq.sqes) (sym head) (sym left));
      }

  pub submit_flushed-Hands :
      (r : Ring) (submitted wait_nr : ℕ) (getevents : Bool)
      → IsSq k r
      → Hands k r [] (submit_flushed kernel r submitted wait_nr getevents).1
  unfolding submit_flushed
  submit_flushed-Hands r submitted wait_nr getevents v =
      let cq = getevents || not (wait_nr == 0) || cq_ring_needs_enter r in
      let sq = (sq_ring_needs_enter r submitted 0).0 in
      elim (Bool-cases (sq || cq)) [
        | inl e ↦ rw e (sys_enter2-Hands _ r v)
        | inr e ↦ rw e (none-Hands v)
      ]

  pub submit_and_wait-Hands :
      (r : Ring) (wait_nr : ℕ) → IsSq k r → Hands k r [] (submit_and_wait kernel r wait_nr).1
  unfolding submit_and_wait
  submit_and_wait-Hands r wait_nr v =
      let h = flush_sq-Hands v in
      append-Hands h (submit_flushed-Hands (flush_sq r).1 (flush_sq r).0 wait_nr false h.valid)

  pub submit-Hands : (r : Ring) → IsSq k r → Hands k r [] (submit kernel r).1
  unfolding submit
  submit-Hands r v = submit_and_wait-Hands r 0 v
