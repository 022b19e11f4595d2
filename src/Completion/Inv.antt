-- ===== src/Completion/Inv.antt =====
-- The invariant of the completion ring, the CQEs that wait in it, and `io_uring_cq_advance`.
use liburing.Common.{
  ℕ, zero, suc, ◌-◌, ◌^◌, ◌≤◌, ◌<◌, ◌≡◌, ap, sym, ◌∙◌, List, drop, arith, add32, sub32,
}
use liburing.Common.Window.{window}
use liburing.Sqe.{Cqe}
use liburing.Ring.{Ring}
use liburing.Completion.{cq_ready, cq_advance, cqe_index}

-- The ring holds `2 ^ k` entries, and the kernel is at most a ring ahead.
pub record IsCq (k : ℕ) (r : Ring) : Type 0 where
  pub narrow : k ≤ 31
  pub entries : r.cq.ring_entries ≡ 2 ^ k
  pub mask : r.cq.ring_mask ≡ 2 ^ k - 1
  pub khead_fits : r.cq.khead < 2 ^ 32
  pub ktail_fits : r.cq.ktail < 2 ^ 32
  pub bounded : sub32 r.cq.ktail r.cq.khead ≤ 2 ^ k

-- The CQEs that the kernel has posted and the application has not advanced over.
abbrev pub ready_cqes : Ring → List Cqe
ready_cqes r = window (cqe_index r) r.cq.cqes r.cq.khead (sub32 r.cq.ktail r.cq.khead)

-- The ring with its head at `h`.
abbrev pub with_head : Ring → ℕ → Ring
with_head r h = record r { cq = record r.cq { khead = h } }

pub cq_advance-eq :
    {k : ℕ} {r : Ring} → IsCq k r → (n : ℕ) → cq_advance r n ≡ with_head r (add32 r.cq.khead n)
unfolding cq_advance
cq_advance-eq v n = ground arith

drop-window :
    {A : Type 0} (place : ℕ → ℕ) (f : ℕ → A) (h m n : ℕ)
    → h < 2 ^ 32
    → n ≤ m
    → drop n (window place f h m) ≡ window place f (add32 h n) (m - n)
drop-window place f h m zero b le =
    rw (let e : add32 h zero ≡ h = omega arith in e) (ap (window place f h) (omega arith))
drop-window place f h zero (suc n) b le = absurd (omega arith)
drop-window place f h (suc m) (suc n) b le =
    drop-window place f (add32 h 1) m n (omega arith) (omega arith)
    ∙ rw (let e : add32 (add32 h 1) n ≡ add32 h (suc n) = omega arith in e)
        (ap (window place f (add32 h (suc n))) (omega arith))

module _ {k : ℕ} {r : Ring} (v : IsCq k r) where
  pub cq_advance-IsCq : (n : ℕ) → n ≤ cq_ready r → IsCq k (cq_advance r n)
  unfolding cq_ready
  cq_advance-IsCq n le = rw (cq_advance-eq v n) (omega arith)

  -- On a valid completion ring `io_uring_cq_advance` by at most what is ready takes away that
  -- many of the first CQEs that wait, and leaves the others in their order.
  pub cq_advance-ready :
      (n : ℕ) → n ≤ cq_ready r → ready_cqes (cq_advance r n) ≡ drop n (ready_cqes r)
  unfolding cq_ready cqe_index
  cq_advance-ready n le = rw (cq_advance-eq v n) (
      ap (window (cqe_index r) r.cq.cqes (add32 r.cq.khead n)) (omega arith)
      ∙ sym (
          drop-window (cqe_index r) r.cq.cqes r.cq.khead (sub32 r.cq.ktail r.cq.khead) n
            v.khead_fits le))
