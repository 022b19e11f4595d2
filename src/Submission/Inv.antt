-- ===== src/Submission/Inv.antt =====
-- The invariant of the submission ring, and what each function of `Submission` does to it.
use liburing.Common.{
  ℕ, ◌+◌, ◌-◌, ◌*◌, ◌^◌, ◌≤◌, ◌<◌, ◌≡◌, ◌≢◌, ◌↔◌, refl, ap, sym, inl, inr, Bool-cases, leb, none,
  some, arith, add32, sub32, slot, slot-lt, slot-ne,
}
use mathlib.Core.Option.{some-injective, none-ne-some}
use native.Mathlib.Nat.{pow-le-pow_right}
use liburing.Ring.{Ring, sqe_shift}
use liburing.Submission.{get_sqe, flush_sq, sq_ready, sq_space_left}

-- The ring holds `2 ^ k` entries. The counters stand in the order khead, sqe_head, sqe_tail,
-- and the kernel has been told of all that has been flushed.
pub record IsSq (k : ℕ) (r : Ring) : Type 0 where
  pub narrow : k ≤ 31
  pub entries : r.sq.ring_entries ≡ 2 ^ k
  pub mask : r.sq.ring_mask ≡ 2 ^ k - 1
  pub khead_fits : r.sq.khead < 2 ^ 32
  pub head_fits : r.sq.sqe_head < 2 ^ 32
  pub tail_fits : r.sq.sqe_tail < 2 ^ 32
  pub told : r.sq.ktail ≡ r.sq.sqe_head
  pub flushed_le : sub32 r.sq.sqe_head r.sq.khead ≤ sub32 r.sq.sqe_tail r.sq.khead
  pub bounded : sub32 r.sq.sqe_tail r.sq.khead ≤ 2 ^ k

-- The place of the SQE with number `i`.
abbrev pub place : Ring → ℕ → ℕ
place r = slot r.sq.ring_mask (sqe_shift r)

pub shift-le : (r : Ring) → sqe_shift r ≤ 1
shift-le r = ground arith

module _ {k : ℕ} {r : Ring} (v : IsSq k r) where
  size_le : 2 ^ k ≤ 2 ^ 31
  size_le = pow-le-pow_right {n = 2} (omega arith) v.narrow

  -- On a valid submission ring `io_uring_sq_ready` and `io_uring_sq_space_left` add up to the
  -- number of entries.
  pub ready-add-space : sq_ready r + sq_space_left r ≡ r.sq.ring_entries
  unfolding sq_space_left
  ready-add-space = omega (arith, size_le)

  -- On a valid submission ring `get_sqe` fails exactly where `io_uring_sq_space_left` is 0.
  pub get_sqe-none : ((get_sqe r).0 ≡ none) ↔ (sq_space_left r ≡ 0)
  unfolding get_sqe sq_space_left
  get_sqe-none = ground (arith, size_le)

  -- `get_sqe` keeps the submission ring's invariant, whether it succeeds or fails.
  pub get_sqe-IsSq : IsSq k (get_sqe r).1
  unfolding get_sqe
  get_sqe-IsSq = ground (arith, size_le)

  -- `__io_uring_flush_sq` keeps the submission ring's invariant.
  pub flush_sq-IsSq : IsSq k (flush_sq r).1
  unfolding flush_sq
  flush_sq-IsSq = ground (arith, size_le)

  pub place-lt : (i : ℕ) → place r i < 2 ^ k * 2 ^ sqe_shift r
  place-lt i = rw v.mask (slot-lt k (sqe_shift r) v.narrow (shift-le r) i)

  -- Numbers that are less than the ring's size apart have different places.
  pub place-ne : (x d : ℕ) → 0 < d → d < 2 ^ k → place r (add32 x d) ≢ place r x
  place-ne x d pd lt = rw v.mask (slot-ne k (sqe_shift r) v.narrow (shift-le r) x d pd lt)

  -- On a valid submission ring a successful `get_sqe` returns the place of the next number,
  -- there was room for it, and one SQE more is ready afterwards.
  pub get_sqe-some :
      {i : ℕ} {r' : Ring}
      → get_sqe r ≡ (some i, r')
      → (i ≡ place r r.sq.sqe_tail) × (sq_ready r < 2 ^ k) × (sq_ready r' ≡ sq_ready r + 1)
  unfolding get_sqe sq_ready
  get_sqe-some e = ground (arith, size_le)

-- What a successful `get_sqe` does
pub get_sqe-got :
    (r : Ring) {i : ℕ} {r' : Ring}
    → get_sqe r ≡ (some i, r')
    → (i ≡ place r r.sq.sqe_tail)
      × (record r { sq = record r.sq { sqe_tail = add32 r.sq.sqe_tail 1 } } ≡ r')
unfolding get_sqe
get_sqe-got r {i} {r'} e =
    elim (Bool-cases (leb (sub32 (add32 r.sq.sqe_tail 1) r.sq.khead) r.sq.ring_entries)) [
      | inl b ↦
          let e' : (
            some (place r r.sq.sqe_tail),
            record r { sq = record r.sq { sqe_tail = add32 r.sq.sqe_tail 1 } },
          )
              ≡ (some i, r') =
            rw b at e in
          (sym (some-injective _ _ (ap (λ p. p.0) e')), ap (λ p. p.1) e')
      | inr b ↦
          let e' : (none, r) ≡ (some i, r') = rw b at e in
          absurd (none-ne-some i (ap (λ p. p.0) e'))
    ]

pub sq_ready-lt : (k : ℕ) (r : Ring) → sq_ready r < 2 ^ k → sub32 r.sq.sqe_tail r.sq.khead < 2 ^ k
unfolding sq_ready
sq_ready-lt k r lt = lt

pub get_sqe-left : (r : Ring) → (get_sqe r).0 ≡ none → (get_sqe r).1 ≡ r
unfolding get_sqe
get_sqe-left r e =
    elim (Bool-cases (leb (sub32 (add32 r.sq.sqe_tail 1) r.sq.khead) r.sq.ring_entries)) [
      | inl b ↦ absurd (none-ne-some (place r r.sq.sqe_tail) (sym (rw b at e)))
      | inr b ↦ rw b refl
    ]
