-- ===== src/Udp/Supply.antt =====
-- `get_sqe` of examples/io_uring-udp.c, which submits where the ring is full.
use liburing.Common.{ℕ, ◌≡◌, refl, ap, sym, ◌∙◌, Option, none, some, [], ◌∷◌}
use mathlib.Core.Path.{subst}
use liburing.Sqe.{Sqe}
use liburing.Ring.{Ring, Kernel}
use liburing.Submission.{get_sqe}
use liburing.Submission.Inv.{IsSq, get_sqe-left}
use liburing.Submission.Steps.{write_sqe}
use liburing.Submission.Pending.{Hands, append-Hands, get_sqe-Hands}
use liburing.Submit.{submit}
use liburing.Submit.Hands.{IsTaker, submit-Hands}
use liburing.Udp.{Ctx, or_submit, ctx_get_sqe}

module _ {k : ℕ} {kernel : Kernel} (taker : IsTaker k kernel) where
  or_submit-Hands :
      (r : Ring) (o : Option ℕ × Ring) {i : ℕ} {r' : Ring} (s : Sqe)
      → IsSq k r
      → get_sqe r ≡ o
      → or_submit kernel o ≡ (some i, r')
      → Hands k r (s ∷ []) (write_sqe r' i s)
  unfolding or_submit
  or_submit-Hands r (some j, r1) {i} {r'} s v e e' = get_sqe-Hands v s (e ∙ e')
  or_submit-Hands r (none, r1) {i} {r'} s v e e' =
      let same : r1 ≡ r = sym (ap (λ p. p.1) e) ∙ get_sqe-left r (ap (λ p. p.0) e) in
      let h = submit-Hands taker r v in
      append-Hands h
        (get_sqe-Hands h.valid s (ap (λ t. get_sqe (submit kernel t).1) (sym same) ∙ e'))

  -- The ring in which an SQE has been found, and what `get_sqe` leaves alone
  pub record Found (c c' : Ctx) (i : ℕ) : Type 0 where
    pub hands : (s : Sqe) → Hands k c.ring (s ∷ []) (write_sqe c'.ring i s)
    pub only_ring : c' ≡ record c { ring = c'.ring }

  pub ctx_get_sqe-Found :
      (c : Ctx) {i : ℕ} {c' : Ctx}
      → IsSq k c.ring
      → ctx_get_sqe kernel c ≡ (some i, c')
      → Found c c' i
  unfolding ctx_get_sqe
  ctx_get_sqe-Found c {i} {c'} v e =
      let o = or_submit kernel (get_sqe c.ring) in
      let found : o ≡ (some i, o.1) = ap (λ p. (p.0, o.1)) e in
      subst (λ t. Found c t i) (ap (λ p. p.1) e)
        (record {
          hands = λ s. or_submit-Hands c.ring (get_sqe c.ring) s v refl found;
          only_ring = refl;
        })
