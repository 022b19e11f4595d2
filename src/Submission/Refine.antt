-- ===== src/Submission/Refine.antt =====
-- The submission ring refines a pair of queues: SQEs that the application fills through the pointers it holds, and
-- SQEs that the kernel has been told of.
use liburing.Common.{
  ℕ, zero, suc, ◌+◌, ◌-◌, ◌<◌, ◌≤◌, ◌^◌, ◌≡◌, refl, ap, sym, ◌∙◌, inl, inr, leb, Bool-cases, none,
  some, List, [], ◌∷◌, ◌++◌, length, ◌==◌, if◌then◌else◌, arith, add32, sub32,
}
use mathlib.Core.Path.{subst}
use mathlib.Core.Option.{none-ne-some}
use native.Mathlib.Nat.{pow-le-pow_right}
use liburing.Common.Window.{upd, window, length-window}
use liburing.Sqe.{Sqe}
use liburing.Ring.{Ring}
use liburing.Submission.{get_sqe, flush_sq}
use liburing.Submission.Inv.{IsSq, place, place-ne, get_sqe-got, get_sqe-left}
use liburing.Submission.Steps.{
  Event, Run, start, next, Step, take, refuse, write, flush, consume, IsIn, write_sqe, flushed,
  unflushed_places, contents,
}
use liburing.Submission.Fifo.{
  submission_fifo, contents-unflushed, number_of, handed-count, handed-window, IsDirect, counts,
  flush_sq-eq, flush_sq-flushed, write-flushed, take_head-flushed,
}

-- An entry that is not flushed, with the pointer to it
abbrev pub Entry : Type 0
Entry = ℕ × Sqe

abbrev pub pointers : List Entry → List ℕ
pointers [] = []
pointers (p ∷ ps) = p.0 ∷ pointers ps

abbrev pub values : List Entry → List Sqe
values [] = []
values (p ∷ ps) = p.1 ∷ values ps

-- The entries after a write through the pointer `i`
abbrev pub assigned : (i : ℕ) (s : Sqe) → List Entry → List Entry
assigned i s [] = []
assigned i s (p ∷ ps) = (p.0, if p.0 == i then s else p.1) ∷ assigned i s ps

pub record Queues : Type 0 where
  pub waiting : List Sqe
  pub pending : List Entry

-- What two queues with so much room in both together do at each event.
pub data Move (room : ℕ) (q : Queues) : Event → Queues → Type 0 where
  hand_out :
      {q' : Queues} (i : ℕ) (s : Sqe)
      → length q.waiting + length q.pending < room
      → ¬ IsIn i (pointers q.pending)
      → q'.waiting ≡ q.waiting
      → q'.pending ≡ q.pending ++ (i, s) ∷ []
      → Move room q (Event.got i) q'
  be_full :
      {q' : Queues}
      → length q.waiting + length q.pending ≡ room
      → q' ≡ q
      → Move room q Event.full q'
  fill :
      {q' : Queues} (i : ℕ) (s : Sqe)
      → IsIn i (pointers q.pending)
      → q'.waiting ≡ q.waiting
      → q'.pending ≡ assigned i s q.pending
      → Move room q (Event.wrote i s) q'
  publish :
      {q' : Queues} {ss : List Sqe}
      → ss ≡ values q.pending
      → q'.waiting ≡ q.waiting ++ ss
      → q'.pending ≡ []
      → Move room q (Event.flushed_all ss) q'
  remove :
      {q' : Queues} (s : Sqe)
      → q.waiting ≡ s ∷ q'.waiting
      → q'.pending ≡ q.pending
      → Move room q (Event.took s) q'

-- Moves in sequence, at the same events
pub data Moves (room : ℕ) (q : Queues) : List Event → Queues → Type 0 where
  stay : Moves room q [] q
  go_on :
      {es : List Event} {e : Event} {q' q'' : Queues}
      → Moves room q es q'
      → Move room q' e q''
      → Moves room q (es ++ e ∷ []) q''

abbrev entry : Ring → ℕ → Entry
entry r i = (i, r.sq.sqes i)

-- The queues that a ring holds.
abbrev pub queues : Ring → Queues
queues r = record {
  waiting = flushed r;
  pending = window (place r) (entry r) r.sq.sqe_head (sub32 r.sq.sqe_tail r.sq.sqe_head);
}

module _ (place : ℕ → ℕ) (f : ℕ → Sqe) where
  abbrev entries_of : (h n : ℕ) → List Entry
  entries_of h n = window place (λ i. (i, f i)) h n

  pointers-window : (h n : ℕ) → pointers (entries_of h n) ≡ window place (λ i. i) h n
  pointers-window h zero = refl
  pointers-window h (suc n) = ap (λ l. place h ∷ l) (pointers-window (add32 h 1) n)

  values-window : (h n : ℕ) → values (entries_of h n) ≡ window place f h n
  values-window h zero = refl
  values-window h (suc n) = ap (λ l. f (place h) ∷ l) (values-window (add32 h 1) n)

  window-assigned :
      (i : ℕ) (s : Sqe) (h n : ℕ)
      → window place (λ j. (j, upd f i s j)) h n ≡ assigned i s (entries_of h n)
  window-assigned i s h zero = refl
  window-assigned i s h (suc n) =
      ap (λ l. (place h, upd f i s (place h)) ∷ l) (window-assigned i s (add32 h 1) n)

module _ {k : ℕ} {r : Ring} (v : IsSq k r) where
  lengths : length (queues r).waiting + length (queues r).pending ≡ sub32 r.sq.sqe_tail r.sq.khead
  lengths =
      rw
        (
          length-window (place r) r.sq.sqes r.sq.khead (sub32 r.sq.sqe_head r.sq.khead),
          length-window (place r) (entry r) r.sq.sqe_head (sub32 r.sq.sqe_tail r.sq.sqe_head),
        )
        (counts v).2

  all_pointers : pointers (queues r).pending ≡ unflushed_places r
  all_pointers =
      pointers-window (place r) r.sq.sqes r.sq.sqe_head (sub32 r.sq.sqe_tail r.sq.sqe_head)

  -- The place of the next SQE is none of those that are handed out.
  fresh :
      (i : ℕ)
      → i ≡ place r r.sq.sqe_tail
      → sub32 r.sq.sqe_tail r.sq.khead < 2 ^ k
      → ¬ IsIn i (pointers (queues r).pending)
  fresh i at_tail room m =
      let n = sub32 r.sq.sqe_tail r.sq.sqe_head in
      let (d, (lt, e)) =
        number_of (place r) i r.sq.sqe_head n v.head_fits (subst (IsIn i) all_pointers m) in
      let far : n - d < 2 ^ k = omega (arith, (counts v).2, room) in
      let there : add32 (add32 r.sq.sqe_head d) (n - d) ≡ r.sq.sqe_tail =
        omega (arith, lt, v.head_fits, v.tail_fits) in
      place-ne v (add32 r.sq.sqe_head d) (n - d) (omega (arith, lt)) far
        (ap (place r) there ∙ sym at_tail ∙ e)

  take-Move :
      {i : ℕ} {t : Ring}
      → get_sqe r ≡ (some i, t)
      → Move (2 ^ k) (queues r) (Event.got i) (queues t)
  take-Move {i} {t} e =
      let (at_tail, same) = get_sqe-got r e in
      let room = (handed-count v e).1 in
      subst (λ t. Move (2 ^ k) (queues r) (Event.got i) (queues t)) same
        (hand_out i (r.sq.sqes i) (omega (arith, lengths, room)) (fresh i at_tail room) refl
          (handed-window v (entry r) e))

  refuse-Move : {t : Ring} → get_sqe r ≡ (none, t) → Move (2 ^ k) (queues r) Event.full (queues t)
  unfolding get_sqe
  refuse-Move {t} e =
      let size_le : 2 ^ k ≤ 2 ^ 31 = pow-le-pow_right {n = 2} (omega arith) v.narrow in
      let none_given : (get_sqe r).0 ≡ none = ap (λ p. p.0) e in
      let same : r ≡ t = sym (get_sqe-left r none_given) ∙ ap (λ p. p.1) e in
      subst (λ t. Move (2 ^ k) (queues r) Event.full (queues t)) same
        (elim (Bool-cases (leb (sub32 (add32 r.sq.sqe_tail 1) r.sq.khead) r.sq.ring_entries)) [
          | inl b ↦ absurd (none-ne-some (place r r.sq.sqe_tail) (sym (rw b at none_given)))
          | inr b ↦
              let over : 2 ^ k < sub32 (add32 r.sq.sqe_tail 1) r.sq.khead =
                ground (arith, b, v.entries) in
              be_full (omega (arith, lengths, over, v.bounded, size_le)) refl
        ])

  write-Move :
      {held : List ℕ} (i : ℕ) (s : Sqe)
      → held ≡ unflushed_places r
      → IsIn i held
      → Move (2 ^ k) (queues r) (Event.wrote i s) (queues (write_sqe r i s))
  write-Move i s points m =
      let n = sub32 r.sq.sqe_tail r.sq.sqe_head in
      let (d, (lt, e)) =
        number_of (place r) i r.sq.sqe_head n v.head_fits (subst (IsIn i) points m) in
      fill i s (subst (IsIn i) (points ∙ sym all_pointers) m)
        (ap (λ j. flushed (write_sqe r j s)) e ∙ write-flushed v d s lt)
        (window-assigned (place r) r.sq.sqes i s r.sq.sqe_head n)

  flush-Move :
      {held : List ℕ}
      → held ≡ unflushed_places r
      → Move (2 ^ k) (queues r) (Event.flushed_all (contents r held)) (queues (flush_sq r).1)
  flush-Move {held} points =
      let none_left : sub32 r.sq.sqe_tail r.sq.sqe_tail ≡ 0 = omega (arith, v.tail_fits) in
      let written = contents-unflushed r points in
      publish
        (written
          ∙ sym
              (values-window (place r) r.sq.sqes r.sq.sqe_head (sub32 r.sq.sqe_tail r.sq.sqe_head)))
        (sym (ap (λ l. flushed r ++ l) written ∙ flush_sq-flushed v))
        (rw (flush_sq-eq v) (ap (window (place r) (entry r) r.sq.sqe_tail) none_left))

Step-Move :
    {k : ℕ} {r t : Ring} {held held' : List ℕ} {e : Event}
    → IsSq k r
    → IsDirect r
    → held ≡ unflushed_places r
    → Step r held e t held'
    → Move (2 ^ k) (queues r) e (queues t)
Step-Move v a points (take e) = take-Move v e
Step-Move v a points (refuse e) = refuse-Move v e
Step-Move v a points (write i s m) = write-Move v i s points m
Step-Move v a points flush = flush-Move v points
Step-Move v a points (consume more) = remove _ (take_head-flushed v a more) refl

-- The submission ring refines two queues with room for its entries in both together, event by
-- event: from a valid ring whose index array is the identity or not there, with the pointers to
-- the SQEs that are not flushed, any sequence of events (get_sqe returns a pointer or NULL, an
-- SQE is written through a pointer held, the SQEs behind the pointers held are flushed, the
-- kernel takes an SQE) is one of the queues, from those in the ring to those in the ring. There
-- get_sqe appends an entry under a pointer that no other has, with room for it, and fails only
-- where all room is taken; a write replaces the entry under its pointer; a flush passes on the
-- values of all entries in order; and the kernel takes the first.
pub Run-Moves :
    {k : ℕ} {r : Ring} {held : List ℕ} {es : List Event} {t : Ring} {held' : List ℕ}
    → IsSq k r
    → IsDirect r
    → held ≡ unflushed_places r
    → Run r held es t held'
    → Moves (2 ^ k) (queues r) es (queues t)
Run-Moves v a points start = stay
Run-Moves v a points (next h st) =
    let before = submission_fifo v a points h in
    go_on (Run-Moves v a points h) (Step-Move before.valid before.direct before.points st)
