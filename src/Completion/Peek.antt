-- ===== src/Completion/Peek.antt =====
-- `__io_uring_peek_cqe` ends, and what it finds in the ring.
use liburing.Common.{
  ℕ, zero, suc, ◌<◌, ◌≡◌, ◌≢◌, refl, ap, sym, ◌∙◌, true, false, List, [], ◌∷◌, ◌++◌, none, some,
  arith, add32, sub32, length, Bool-cases, inl, inr, ◌==◌, ==_iff,
}
use liburing.Common.Int.{pos, is_neg}
use liburing.Common.Window.{window, length-window}
use liburing.Sqe.{Cqe}
use liburing.Ring.{Ring}
use liburing.Completion.{Peeked, cq_ready, cqe_index, is_internal, peek_loop, peek_cqes}
use liburing.Completion.Inv.{IsCq, ready_cqes, with_head, cq_advance-eq}

-- Completions that the library takes away: those of its own timeouts, unless they failed.
abbrev pub AllQuiet : ℕ → List Cqe → Type 0
AllQuiet features [] = Unit
AllQuiet features (c ∷ cs) =
    (is_internal features c ≡ true) × (is_neg c.res ≡ false) × AllQuiet features cs

-- How the search ends, by the CQEs that are left after the quiet ones.
pub data Ends (features : ℕ) (p : Peeked) : List Cqe → Type 0 where
  drained :
      p.cqe ≡ none → p.err ≡ pos 0 → p.available ≡ 0 → ready_cqes p.ring ≡ [] → Ends features p []
  found :
      {c : Cqe} {cs : List Cqe}
      → is_internal features c ≡ false
      → p.cqe ≡ some (cqe_index p.ring p.ring.cq.khead)
      → p.err ≡ pos 0
      → p.available ≡ length (c ∷ cs)
      → ready_cqes p.ring ≡ c ∷ cs
      → Ends features p (c ∷ cs)
  failed :
      {c : Cqe} {cs : List Cqe}
      → is_internal features c ≡ true
      → is_neg c.res ≡ true
      → p.cqe ≡ none
      → p.err ≡ c.res
      → p.available ≡ length (c ∷ cs)
      → ready_cqes p.ring ≡ cs
      → Ends features p (c ∷ cs)

-- `only` says that nothing but the head has changed.
pub record Found (k : ℕ) (r : Ring) (p : Peeked) : Type 0 where
  pub quiet : List Cqe
  pub rest : List Cqe
  pub split : ready_cqes r ≡ quiet ++ rest
  pub all_quiet : AllQuiet r.features quiet
  pub ends : Ends r.features p rest
  pub only : p.ring ≡ with_head r p.ring.cq.khead
  pub valid : IsCq k p.ring

module _ {k : ℕ} {r : Ring} (v : IsCq k r) where
  next_cqe : Cqe
  next_cqe = r.cq.cqes (cqe_index r r.cq.khead)

  -- The ring without its first entry.
  next_ring : Ring
  next_ring = with_head r (add32 r.cq.khead 1)

  next_ring-IsCq : cq_ready r ≢ 0 → IsCq k next_ring
  unfolding cq_ready next_ring
  next_ring-IsCq ne = omega arith

  ready-suc : cq_ready r ≢ 0 → cq_ready r ≡ suc (cq_ready next_ring)
  unfolding cq_ready next_ring
  ready-suc ne = omega arith

  -- A ring that is not empty shows its first CQE.
  ready-cons : cq_ready r ≢ 0 → ready_cqes r ≡ next_cqe ∷ ready_cqes next_ring
  unfolding cq_ready next_cqe next_ring cqe_index
  ready-cons ne = ap (window (cqe_index r) r.cq.cqes r.cq.khead) (ready-suc ne)

  ready-empty : cq_ready r ≡ 0 → ready_cqes r ≡ []
  unfolding cq_ready
  ready-empty e = rw e

  pub ready-length : length (ready_cqes r) ≡ cq_ready r
  unfolding cq_ready
  ready-length = length-window (cqe_index r) r.cq.cqes r.cq.khead (sub32 r.cq.ktail r.cq.khead)

  first_stop :
      cq_ready r ≢ 0
      → is_internal r.features next_cqe ≡ false
      → Found k r (record {
        err = pos 0;
        cqe = some (cqe_index r r.cq.khead);
        available = cq_ready r;
        ring = r;
      })
  unfolding next_cqe
  first_stop ne own = record {
    quiet = [];
    rest = ready_cqes r;
    split = refl;
    all_quiet = tt;
    ends =
        rw (ready-cons ne)
          (found own refl refl (sym ready-length ∙ ap length (ready-cons ne)) (ready-cons ne));
    only = refl;
    valid = v;
  }

  failed_stop :
      cq_ready r ≢ 0
      → is_internal r.features next_cqe ≡ true
      → is_neg next_cqe.res ≡ true
      → Found k r
          (record { err = next_cqe.res; cqe = none; available = cq_ready r; ring = next_ring })
  unfolding next_ring
  failed_stop ne own bad = record {
    quiet = [];
    rest = ready_cqes r;
    split = refl;
    all_quiet = tt;
    ends =
        rw (ready-cons ne)
          (failed own bad refl refl (sym ready-length ∙ ap length (ready-cons ne)) refl);
    only = refl;
    valid = next_ring-IsCq ne;
  }

  empty_stop :
      cq_ready r ≡ 0
      → Found k r (record { err = pos 0; cqe = none; available = cq_ready r; ring = r })
  empty_stop e = record {
    quiet = [];
    rest = [];
    split = ready-empty e;
    all_quiet = tt;
    ends = drained refl refl e (ready-empty e);
    only = refl;
    valid = v;
  }

  later_stop :
      {p : Peeked}
      → cq_ready r ≢ 0
      → is_internal r.features next_cqe ≡ true
      → is_neg next_cqe.res ≡ false
      → Found k next_ring p
      → Found k r p
  unfolding next_ring
  later_stop ne own good f = record {
    quiet = next_cqe ∷ f.quiet;
    rest = f.rest;
    split = ready-cons ne ∙ ap (λ l. next_cqe ∷ l) f.split;
    all_quiet = (own, good, f.all_quiet);
    ends = f.ends;
    only = f.only;
    valid = f.valid;
  }

peek_loop-Found :
    (fuel : ℕ) {k : ℕ} {r : Ring}
    → IsCq k r
    → cq_ready r < fuel
    → (p : Peeked) × (peek_loop fuel r ≡ some p) × Found k r p
unfolding peek_loop cq_ready next_cqe next_ring
peek_loop-Found zero v h = absurd (omega arith)
peek_loop-Found (suc fuel) {r} v h =
    let c = r.cq.cqes (cqe_index r r.cq.khead) in
    elim (Bool-cases (sub32 r.cq.ktail r.cq.khead == 0)) [
      | inl e ↦ (_, rw e refl, empty_stop v ((==_iff _ _).0 e))
      | inr ne ↦
          let more : cq_ready r ≢ 0 = ground arith in
          elim (Bool-cases (is_internal r.features c)) [
            | inr own ↦ (_, rw (ne, own) refl, first_stop v more own)
            | inl own ↦ elim (Bool-cases (is_neg c.res)) [
              | inl bad ↦ (_, rw (ne, own, bad, cq_advance-eq v 1) refl, failed_stop v more own bad)
              | inr good ↦
                  let (p, e, f) = peek_loop-Found fuel (next_ring-IsCq v more) (omega arith) in
                  (p, rw (ne, own, good, cq_advance-eq v 1) e, later_stop v more own good f)
            ]
          ]
    ]

-- On a valid completion ring `__io_uring_peek_cqe` ends: it takes away the completions of the
-- library's own timeouts that come first and did not fail, and stops at the first other one,
-- which it shows without taking it, or which it takes and whose error it returns if it is such a
-- timeout that failed, or at the end of the ring; nothing but the head changes, and the count is
-- what was there at the stop.
pub peek_cqes-Found :
    {k : ℕ} {r : Ring} → IsCq k r → (p : Peeked) × (peek_cqes r ≡ some p) × Found k r p
unfolding peek_cqes
peek_cqes-Found {r} v = peek_loop-Found (suc (cq_ready r)) v (omega arith)
