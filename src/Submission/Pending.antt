-- ===== src/Submission/Pending.antt =====
-- The SQEs that the application has handed out and the kernel has not taken, flushed or not.
use liburing.Common.{
  ℕ, suc, ◌-◌, ◌<◌, ◌^◌, ◌≡◌, ◌≢◌, refl, ap, sym, ◌∙◌, some, List, [], ◌∷◌, ◌++◌, arith, add32,
  sub32,
}
use liburing.Common.Window.{upd, window, window-snoc, window-upd}
use mathlib.Core.List.{append-nil, append_assoc}
use mathlib.Core.Path.{ap₂, subst}
use native.Mathlib.Nat.{pow-le-pow_right}
use liburing.Sqe.{Sqe}
use liburing.Ring.{Ring}
use liburing.Submission.{get_sqe, flush_sq}
use liburing.Submission.Inv.{
  IsSq, place, place-ne, get_sqe-IsSq, get_sqe-some, get_sqe-got, sq_ready-lt, flush_sq-IsSq,
}
use liburing.Submission.Steps.{write_sqe}
use liburing.Submission.Fifo.{flush_sq-eq}

abbrev pub pending : Ring → List Sqe
pending r = window (place r) r.sq.sqes r.sq.khead (sub32 r.sq.sqe_tail r.sq.khead)

-- What waited and what has been queued since is, in this order, what the kernel has taken and what waits.
pub record Hands (k : ℕ) (r : Ring) (queued : List Sqe) (r' : Ring) : Type 0 where
  pub valid : IsSq k r'
  pub taken : List Sqe
  pub order : pending r ++ queued ≡ taken ++ pending r'

pub none-Hands : {k : ℕ} {r : Ring} → IsSq k r → Hands k r [] r
none-Hands {r} v = record { valid = v; taken = []; order = append-nil (pending r) }

pub append-Hands :
    {k : ℕ} {r s t : Ring} {qs qs' : List Sqe}
    → Hands k r qs s
    → Hands k s qs' t
    → Hands k r (qs ++ qs') t
append-Hands {r} {s} {t} {qs} {qs'} h h' = record {
  valid = h'.valid;
  taken = h.taken ++ h'.taken;
  order =
      sym (append_assoc (pending r) qs qs')
      ∙ ap (λ l. l ++ qs') h.order
      ∙ append_assoc h.taken (pending s) qs'
      ∙ ap (λ l. h.taken ++ l) h'.order
      ∙ sym (append_assoc h.taken h'.taken (pending t));
}

written : (f : ℕ → Sqe) (i : ℕ) (s : Sqe) (j : ℕ) → j ≡ i → upd f i s j ≡ s
written f i s j e = ground (arith, e)

write_sqe-IsSq : (k i : ℕ) (r : Ring) (s : Sqe) → IsSq k r → IsSq k (write_sqe r i s)
write_sqe-IsSq k i r s v = record {
  narrow = v.narrow;
  entries = v.entries;
  mask = v.mask;
  khead_fits = v.khead_fits;
  head_fits = v.head_fits;
  tail_fits = v.tail_fits;
  told = v.told;
  flushed_le = v.flushed_le;
  bounded = v.bounded;
}

module _ {k : ℕ} {r : Ring} (v : IsSq k r) where
  pub flush_sq-Hands : Hands k r [] (flush_sq r).1
  flush_sq-Hands = record {
    valid = flush_sq-IsSq v;
    taken = [];
    order = append-nil (pending r) ∙ rw (flush_sq-eq v) refl;
  }

  -- The ring with one SQE more at its end
  abbrev pub with_sqe : Sqe → Ring
  with_sqe s =
      write_sqe (record r { sq = record r.sq { sqe_tail = add32 r.sq.sqe_tail 1 } })
        (place r r.sq.sqe_tail) s

  with_sqe-pending :
      (s : Sqe)
      → sub32 r.sq.sqe_tail r.sq.khead < 2 ^ k
      → pending (with_sqe s) ≡ pending r ++ s ∷ []
  with_sqe-pending s room =
      let n = sub32 r.sq.sqe_tail r.sq.khead in
      let i = place r r.sq.sqe_tail in
      let f = upd r.sq.sqes i s in
      let size = pow-le-pow_right {n = 2} (omega arith) v.narrow in
      let count : sub32 (add32 r.sq.sqe_tail 1) r.sq.khead ≡ suc n =
        omega (arith, room, size, v.tail_fits, v.khead_fits) in
      let last : place r (add32 r.sq.khead n) ≡ i =
        ap (place r) (omega (arith, v.tail_fits, v.khead_fits)) in
      let apart : (j : ℕ) → j < n → place r (add32 r.sq.khead j) ≢ i = λ j lj e.
        place-ne v (add32 r.sq.khead j) (n - j) (omega (arith, lj)) (omega (arith, room)) (
          ap (place r) (
            let m : add32 (add32 r.sq.khead j) (n - j) ≡ add32 r.sq.khead n = omega (arith, lj) in
            m)
          ∙ last
          ∙ sym e) in
      ap (window (place r) f r.sq.khead) count
      ∙ window-snoc (place r) f r.sq.khead n v.khead_fits
      ∙ ap₂ ◌++◌ (window-upd (place r) r.sq.sqes i s r.sq.khead n v.khead_fits apart)
          (ap (λ x. x ∷ []) (written r.sq.sqes i s (place r (add32 r.sq.khead n)) last))

  -- The SQE that is written where `get_sqe` points to comes last.
  pub get_sqe-pending :
      {i : ℕ} {r' : Ring} (s : Sqe)
      → get_sqe r ≡ (some i, r')
      → pending (write_sqe r' i s) ≡ pending r ++ s ∷ []
  get_sqe-pending {i} {r'} s e =
      let (at_tail, next) = get_sqe-got r e in
      let same : with_sqe s ≡ write_sqe r' i s = ap₂ (λ j t. write_sqe t j s) (sym at_tail) next in
      ap pending (sym same) ∙ with_sqe-pending s (sq_ready-lt k r (get_sqe-some v e).1)

  pub get_sqe-Hands :
      {i : ℕ} {r' : Ring} (s : Sqe)
      → get_sqe r ≡ (some i, r')
      → Hands k r (s ∷ []) (write_sqe r' i s)
  get_sqe-Hands {i} {r'} s e =
      let valid : IsSq k (get_sqe r).1 = get_sqe-IsSq v in
      record {
        valid = write_sqe-IsSq k i r' s (subst (IsSq k) (ap (λ p. p.1) e) valid);
        taken = [];
        order = sym (get_sqe-pending s e);
      }
