-- ===== src/Wait/Batch.antt =====
-- `io_uring_peek_batch_cqe` against the CQEs that wait.
use liburing.Common.{
  ℕ, zero, suc, ◌≡◌, ◌≢◌, refl, ap, sym, ◌∙◌, true, List, [], ◌∷◌, ◌++◌, take, ltb, Bool-cases, inl,
  inr, ◌==◌, arith, if◌then◌else◌, add32, sub32,
}
use mathlib.Core.List.{map, append-nil}
use liburing.Common.Window.{window}
use liburing.Sqe.{Cqe}
use liburing.Ring.{Ring, Kernel}
use liburing.Completion.{cq_ready, cqe_index, cq_ring_needs_flush}
use liburing.Completion.Inv.{IsCq, ready_cqes}
use liburing.Submit.{get_events}
use liburing.Wait.{fill_batch, ready_batch, peek_batch_cqe}
use liburing.Wait.Sound.{IsSound}

-- The CQEs that a batch points to are the first that wait, as many as it has room for, and nothing that
-- waited has gone.
pub record IsBatch (count : ℕ) (r : Ring) (batch : List ℕ) (r' : Ring) : Type 0 where
  pub first : map r'.cq.cqes batch ≡ take count (ready_cqes r')
  pub grown : (new : List Cqe) × (ready_cqes r' ≡ ready_cqes r ++ new)
  pub unless_empty : ready_cqes r ≢ [] → r' ≡ r

map-fill_batch :
    (r : Ring) (h n : ℕ) → map r.cq.cqes (fill_batch r h n) ≡ window (cqe_index r) r.cq.cqes h n
unfolding fill_batch
map-fill_batch r h zero = refl
map-fill_batch r h (suc n) =
    ap (λ l. r.cq.cqes (cqe_index r h) ∷ l) (map-fill_batch r (add32 h 1) n)

take-window :
    {A : Type 0} (place : ℕ → ℕ) (f : ℕ → A) (h n m : ℕ)
    → take n (window place f h m) ≡ window place f h (if ltb m n then m else n)
take-window place f h zero m =
    rw (let e : (if ltb m zero then m else zero) ≡ zero = ground arith in e) refl
take-window place f h (suc n) zero =
    rw (let e : (if ltb zero (suc n) then zero else suc n) ≡ zero = ground arith in e) refl
take-window place f h (suc n) (suc m) =
    ap (λ l. f (place h) ∷ l) (take-window place f (add32 h 1) n m)
    ∙ ap (window place f h) (one_more)
  where
    one_more : suc (if ltb m n then m else n) ≡ (if ltb (suc m) (suc n) then suc m else suc n)
    one_more = ground arith

map-ready_batch :
    (r : Ring) (count : ℕ) → map r.cq.cqes (ready_batch r count) ≡ take count (ready_cqes r)
unfolding ready_batch cq_ready
map-ready_batch r count =
    map-fill_batch r r.cq.khead (if ltb (cq_ready r) count then cq_ready r else count)
    ∙ sym (take-window (cqe_index r) r.cq.cqes r.cq.khead count (cq_ready r))

none_wait : (r : Ring) → cq_ready r == 0 ≡ true → ready_cqes r ≡ []
unfolding cq_ready
none_wait r e = rw (let z : sub32 r.cq.ktail r.cq.khead ≡ 0 = ground (arith, e) in z) refl

abbrev none_of : List Cqe
none_of = []

take_none : (n : ℕ) → take n (none_of) ≡ none_of
take_none zero = refl
take_none (suc n) = refl

-- On a kernel that only appends completions and a valid ring, `io_uring_peek_batch_cqe` points
-- to the first completions that wait in the ring it leaves, as many as it is given room for;
-- none that waited has gone, and where any waited the ring is left as it was.
pub peek_batch_cqe-IsBatch :
    {k : ℕ} {kernel : Kernel} (sound : IsSound k kernel) {r : Ring} (count : ℕ)
    → IsCq k r
    → IsBatch count r (peek_batch_cqe kernel r count).0 (peek_batch_cqe kernel r count).1
unfolding peek_batch_cqe get_events
peek_batch_cqe-IsBatch {kernel} sound {r} count v = elim (Bool-cases (cq_ready r == 0)) [
  | inr some_wait ↦ rw some_wait (record {
    first = map-ready_batch r count;
    grown = ([], sym (append-nil (ready_cqes r)));
    unless_empty = λ _. refl;
  })
  | inl empty ↦ elim (Bool-cases (cq_ring_needs_flush r)) [
    | inl flush ↦
        rw (empty, flush)
          (record {
            first = map-ready_batch (get_events kernel r).1 count;
            grown = sound.appends _ r v;
            unless_empty = λ h. absurd (h (none_wait r empty));
          })
    | inr quiet ↦
        rw (empty, quiet)
          (record {
            first = sym (ap (take count) (none_wait r empty) ∙ take_none count);
            grown = ([], sym (append-nil (ready_cqes r)));
            unless_empty = λ _. refl;
          })
  ]
]
