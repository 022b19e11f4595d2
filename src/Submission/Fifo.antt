-- ===== src/Submission/Fifo.antt =====
-- Every interleaving of the steps of application and kernel hands the SQEs over first in, first out.
use liburing.Common.{
  ℕ, suc, ◌+◌, ◌-◌, ◌*◌, ◌<◌, ◌≤◌, ◌^◌, ◌≡◌, ◌≢◌, ap, sym, ◌⊎◌, inl, inr, Bool, true, false,
  Bool-cases, ◌∙◌, none, some, zero, refl, List, [], ◌∷◌, ◌++◌, arith, if◌then◌else◌, has, bit_and,
  add32, sub32, slot-eq, pow-narrow,
}
use native.Mathlib.Nat.{mod-lt}
use liburing.Common.Bits.{bit_and-mask, pow-pos}
use liburing.Common.Window.{window, window-append, window-snoc, window-upd}
use mathlib.Core.Path.{subst}
use mathlib.Core.List.{append-nil, append_assoc}
use liburing.Abi.Setup
use liburing.Sqe.{Sqe}
use liburing.Ring.{Ring, sqe_shift}
use liburing.Submission.{get_sqe, flush_sq}
use liburing.Submission.Inv.{
  IsSq, place, place-ne, shift-le, get_sqe-IsSq, get_sqe-got, get_sqe-left, get_sqe-some,
  sq_ready-lt, flush_sq-IsSq,
}
use liburing.Submission.Steps.{
  write_sqe, kernel_place, take_head, unflushed, flushed, unflushed_places, Event, published_by,
  consumed_by, published, consumed, contents, IsIn, Step, Run, published-snoc, consumed-snoc, take,
  refuse, write, flush, consume, start, next,
}

-- The index array is the identity, if there is one.
abbrev pub IsDirect : Ring → Type 0
IsDirect r =
    (j : ℕ) → j ≤ r.sq.ring_mask → (has r.flags Setup.no_sqarray ≡ true) ⊎ (r.sq.array j ≡ j)

-- What steps keep, and how the flushed SQEs change; `held` are the pointers to the SQEs that are not flushed.
pub record Kept (k : ℕ) (es : List Event) (r t : Ring) (held : List ℕ) : Type 0 where
  pub valid : IsSq k t
  pub direct : IsDirect t
  pub points : held ≡ unflushed_places t
  pub moved : flushed r ++ published es ≡ consumed es ++ flushed t

clash : {b : Bool} → b ≡ true → b ≡ false → ⊥
clash holds fails = cc

module _ {k : ℕ} {r : Ring} (v : IsSq k r) where
  -- Entries flushed and entries not flushed fit into the ring together.
  pub counts :
      (sub32 r.sq.sqe_head r.sq.khead + sub32 r.sq.sqe_tail r.sq.sqe_head ≤ 2 ^ k)
      × (add32 r.sq.khead (sub32 r.sq.sqe_head r.sq.khead) ≡ r.sq.sqe_head)
      × (sub32 r.sq.sqe_head r.sq.khead + sub32 r.sq.sqe_tail r.sq.sqe_head
          ≡ sub32 r.sq.sqe_tail r.sq.khead)
  counts = omega arith

  pub flush_sq-eq :
      (flush_sq r).1
      ≡ record r { sq = record r.sq { sqe_head = r.sq.sqe_tail; ktail = r.sq.sqe_tail } }
  unfolding flush_sq
  flush_sq-eq = ground arith

  pub flush_sq-flushed : flushed r ++ unflushed r ≡ flushed (flush_sq r).1
  flush_sq-flushed = rw flush_sq-eq (
      sym (
        ap (window (place r) r.sq.sqes r.sq.khead) (sym counts.2)
        ∙ window-append (place r) r.sq.sqes r.sq.khead (sub32 r.sq.sqe_head r.sq.khead)
            (sub32 r.sq.sqe_tail r.sq.sqe_head) v.khead_fits
        ∙ ap (λ h. flushed r ++ window (place r) r.sq.sqes h (sub32 r.sq.sqe_tail r.sq.sqe_head))
            counts.1))

  pub write-flushed :
      (d : ℕ) (s : Sqe)
      → d < sub32 r.sq.sqe_tail r.sq.sqe_head
      → flushed (write_sqe r (place r (add32 r.sq.sqe_head d)) s) ≡ flushed r
  write-flushed d s lt =
      window-upd (place r) r.sq.sqes (place r (add32 r.sq.sqe_head d)) s r.sq.khead
        (sub32 r.sq.sqe_head r.sq.khead) v.khead_fits
        λ j lj e.
          place-ne v (add32 r.sq.khead j) (sub32 r.sq.sqe_head r.sq.khead - j + d) (omega arith)
            (omega (arith, counts.0)) (ap (place r) (omega (arith, counts.1)) ∙ sym e)

  one_more :
      r.sq.khead ≢ r.sq.ktail
      → sub32 r.sq.sqe_head r.sq.khead ≡ suc (sub32 r.sq.sqe_head (add32 r.sq.khead 1))
  one_more more = omega arith

  masked : (i : ℕ) → bit_and i r.sq.ring_mask ≤ r.sq.ring_mask
  masked i = rw v.mask (omega (arith, bit_and-mask k i, mod-lt i (pow-pos k)))

  units : (if has r.flags Setup.sqe128 then 2 else 1) ≡ 2 ^ sqe_shift r
  units = elim (Bool-cases (has r.flags Setup.sqe128)) [ inl e ↦ rw e refl | inr e ↦ rw e refl ]

  in_place :
      (i : ℕ) → bit_and i r.sq.ring_mask * (if has r.flags Setup.sqe128 then 2 else 1) ≡ place r i
  in_place i =
      rw (v.mask, units)
        (ap (λ j. j * 2 ^ sqe_shift r) (bit_and-mask k i)
          ∙ sym (slot-eq k (sqe_shift r) v.narrow (shift-le r) i))

  -- With the identity in the index array the kernel reads where the application wrote.
  direct : IsDirect r → (i : ℕ) → kernel_place r i ≡ place r i
  direct a i = elim (Bool-cases (has r.flags Setup.no_sqarray)) [
    | inl e ↦ rw e (in_place i)
    | inr e ↦ elim (a (bit_and i r.sq.ring_mask) (masked i)) [
      | inl e' ↦ absurd (clash e' e)
      | inr same ↦ rw (e, same) (in_place i)
    ]
  ]

  pub take_head-flushed :
      IsDirect r
      → r.sq.khead ≢ r.sq.ktail
      → flushed r ≡ r.sq.sqes (kernel_place r r.sq.khead) ∷ flushed (take_head r)
  take_head-flushed a more =
      ap (window (place r) r.sq.sqes r.sq.khead) (one_more more)
      ∙ ap (λ i. r.sq.sqes i ∷ flushed (take_head r)) (sym (direct a r.sq.khead))

contents-window :
    (r : Ring) (p : ℕ → ℕ) (h n : ℕ) → contents r (window p (λ i. i) h n) ≡ window p r.sq.sqes h n
contents-window r p h zero = refl
contents-window r p h (suc n) = ap (λ l. r.sq.sqes (p h) ∷ l) (contents-window r p (add32 h 1) n)

-- What the application has written is what the ring holds.
pub contents-unflushed :
    (r : Ring) {held : List ℕ} → held ≡ unflushed_places r → contents r held ≡ unflushed r
contents-unflushed r e =
    ap (contents r) e
    ∙ contents-window r (place r) r.sq.sqe_head (sub32 r.sq.sqe_tail r.sq.sqe_head)

-- A pointer in a window has a number.
pub number_of :
    (p : ℕ → ℕ) (i h n : ℕ)
    → h < 2 ^ 32
    → IsIn i (window p (λ j. j) h n)
    → (d : ℕ) × ((d < n) × (i ≡ p (add32 h d)))
number_of p i h zero b m = absurd m
number_of p i h (suc n) b (inl e) = (0, (omega arith, e ∙ ap p (omega arith)))
number_of p i h (suc n) b (inr m) =
    let (d, (lt, e)) = number_of p i (add32 h 1) n (omega arith) m in
    (
      suc d,
      (
        omega (arith, lt),
        e ∙ ap p (let q : add32 (add32 h 1) d ≡ add32 h (suc d) = omega arith in q),
      ),
    )

-- The ring after a `get_sqe` that succeeds
abbrev pub handed : Ring → Ring
handed r = record r { sq = record r.sq { sqe_tail = add32 r.sq.sqe_tail 1 } }

module _ {k : ℕ} {r : Ring} (v : IsSq k r) where
  -- One SQE more is handed out.
  pub handed-count :
      {i : ℕ} {t : Ring}
      → get_sqe r ≡ (some i, t)
      → (sub32 (add32 r.sq.sqe_tail 1) r.sq.sqe_head ≡ suc (sub32 r.sq.sqe_tail r.sq.sqe_head))
        × (sub32 r.sq.sqe_tail r.sq.khead < 2 ^ k)
  handed-count e =
      let room : sub32 r.sq.sqe_tail r.sq.khead < 2 ^ k = sq_ready-lt k r (get_sqe-some v e).1 in
      (omega (arith, (counts v).0, (counts v).2, room, pow-narrow k 0 v.narrow), room)

  pub tail_place : add32 r.sq.sqe_head (sub32 r.sq.sqe_tail r.sq.sqe_head) ≡ r.sq.sqe_tail
  tail_place = omega (arith, v.head_fits, v.tail_fits)

  -- A window of what is not flushed, after a `get_sqe` that succeeds
  pub handed-window :
      {A : Type 0} (f : ℕ → A) {i : ℕ} {t : Ring}
      → get_sqe r ≡ (some i, t)
      → window (place r) f r.sq.sqe_head (sub32 (add32 r.sq.sqe_tail 1) r.sq.sqe_head)
        ≡ window (place r) f r.sq.sqe_head (sub32 r.sq.sqe_tail r.sq.sqe_head) ++ f i ∷ []
  handed-window f e =
      let n = sub32 r.sq.sqe_tail r.sq.sqe_head in
      ap (window (place r) f r.sq.sqe_head) (handed-count e).0
      ∙ window-snoc (place r) f r.sq.sqe_head n v.head_fits
      ∙ ap (λ j. window (place r) f r.sq.sqe_head n ++ f j ∷ [])
          (ap (place r) tail_place ∙ sym (get_sqe-got r e).0)

-- What one step keeps.
record StepKept (k : ℕ) (e : Event) (r t : Ring) (held : List ℕ) : Type 0 where
  valid : IsSq k t
  direct : IsDirect t
  points : held ≡ unflushed_places t
  moved : flushed r ++ published_by e ≡ consumed_by e ++ flushed t

take-Kept :
    {k : ℕ} {r t : Ring} {i : ℕ} {held : List ℕ}
    → IsSq k r
    → IsDirect r
    → held ≡ unflushed_places r
    → get_sqe r ≡ (some i, t)
    → StepKept k (Event.got i) r t (held ++ i ∷ [])
take-Kept {k} {r} {t} {i} {held} v a points e =
    let valid : IsSq k (get_sqe r).1 = get_sqe-IsSq v in
    let same = (get_sqe-got r e).1 in
    let valid' : IsSq k (handed r) = subst (IsSq k) (ap (λ p. p.1) e ∙ sym same) valid in
    subst (λ t. StepKept k (Event.got i) r t (held ++ i ∷ [])) same
      (record {
        valid = valid';
        direct = a;
        points = ap (λ l. l ++ i ∷ []) points ∙ sym (handed-window v (λ j. j) e);
        moved = append-nil (flushed r);
      })

Step-Kept :
    {k : ℕ} {r t : Ring} {held held' : List ℕ} {e : Event}
    → IsSq k r
    → IsDirect r
    → held ≡ unflushed_places r
    → Step r held e t held'
    → StepKept k e r t held'
Step-Kept v a points (take e) = take-Kept v a points e
Step-Kept {k} {r} {held = held} v a points (refuse {r' = t} e) =
    let none_given : (get_sqe r).0 ≡ none = ap (λ p. p.0) e in
    subst (λ t. StepKept k Event.full r t held) (sym (get_sqe-left r none_given) ∙ ap (λ p. p.1) e)
      (record { valid = v; direct = a; points = points; moved = append-nil (flushed r) })
Step-Kept {r} {held = held} v a points (write i s m) =
    let (d, (lt, e)) =
      number_of (place r) i r.sq.sqe_head (sub32 r.sq.sqe_tail r.sq.sqe_head) v.head_fits
        (subst (IsIn i) points m) in
    record {
      valid = omega arith;
      direct = a;
      points = points;
      moved =
          append-nil (flushed r)
          ∙ sym (ap (λ j. flushed (write_sqe r j s)) e ∙ write-flushed v d s lt);
    }
Step-Kept {r} v a points flush = record {
  valid = flush_sq-IsSq v;
  direct = rw (flush_sq-eq v) a;
  points = rw (flush_sq-eq v) (
      let none_left : sub32 r.sq.sqe_tail r.sq.sqe_tail ≡ 0 = omega (arith, v.tail_fits) in
      sym (ap (window (place r) (λ i. i) r.sq.sqe_tail) none_left));
  moved = ap (λ l. flushed r ++ l) (contents-unflushed r points) ∙ flush_sq-flushed v;
}
Step-Kept {r} v a points (consume more) = record {
  valid = omega arith;
  direct = a;
  points = points;
  moved = append-nil (flushed r) ∙ take_head-flushed v a more;
}

-- Started with the submission ring's invariant, an index array that is the identity or not
-- there, and the pointers to the SQEs that are not flushed, in every interleaving of get_sqe,
-- writes through pointers that it has returned since the last flush, flushes and the kernel's
-- takes: the SQEs that waited at the start, followed by what each flush finds behind those
-- pointers in the order in which get_sqe returned them, are, in this order, those that the
-- kernel takes followed by those that still wait; the invariant and the array are kept, and the
-- pointers held are those to the SQEs that are not flushed.
pub submission_fifo :
    {k : ℕ} {r : Ring} {held : List ℕ} {es : List Event} {t : Ring} {held' : List ℕ}
    → IsSq k r
    → IsDirect r
    → held ≡ unflushed_places r
    → Run r held es t held'
    → Kept k es r t held'
submission_fifo {r} v a points start = record {
  valid = v;
  direct = a;
  points = points;
  moved = append-nil (flushed r);
}
submission_fifo {r} v a points (next {es} {e} {s} {t} h st) =
    let before = submission_fifo v a points h in
    let after = Step-Kept before.valid before.direct before.points st in
    record {
      valid = after.valid;
      direct = after.direct;
      points = after.points;
      moved =
          ap (λ l. flushed r ++ l) (published-snoc es e)
          ∙ sym (append_assoc (flushed r) (published es) (published_by e))
          ∙ ap (λ l. l ++ published_by e) before.moved
          ∙ append_assoc (consumed es) (flushed s) (published_by e)
          ∙ ap (λ l. consumed es ++ l) after.moved
          ∙ sym (append_assoc (consumed es) (consumed_by e) (flushed t))
          ∙ ap (λ l. l ++ flushed t) (sym (consumed-snoc es e));
    }
