-- ===== src/Completion/Walk.antt =====
-- `io_uring_for_each_cqe` sees the CQEs that wait.
use liburing.Common.{
  ℕ, zero, suc, ◌<◌, ◌^◌, ◌≡◌, ◌≢◌, refl, ap, arith, Bool-cases, inl, inr, ◌==◌, add32, sub32, ◌∷◌,
}
use liburing.Common.Window.{window}
use liburing.Ring.{Ring}
use liburing.Completion.{cqe_index, for_each_cqe}

-- From its head on, with fuel for each of them and one round more, the walk is over all that wait, in order.
pub for_each_cqe-window :
    (fuel : ℕ) (r : Ring) (head : ℕ)
    → head < 2 ^ 32
    → r.cq.ktail < 2 ^ 32
    → sub32 r.cq.ktail head < fuel
    → for_each_cqe fuel r head ≡ window (cqe_index r) r.cq.cqes head (sub32 r.cq.ktail head)
unfolding for_each_cqe
for_each_cqe-window zero r head h t enough = absurd (omega (arith, enough))
for_each_cqe-window (suc fuel) r head h t enough = elim (Bool-cases (head == r.cq.ktail)) [
  | inl e ↦
      let same : head ≡ r.cq.ktail = ground arith in
      let none_left : sub32 r.cq.ktail head ≡ 0 = omega (arith, same, t) in rw (e, none_left) refl
  | inr e ↦
      let apart : head ≢ r.cq.ktail = ground arith in
      let next : sub32 r.cq.ktail head ≡ suc (sub32 r.cq.ktail (add32 head 1)) =
        omega (arith, apart, h, t) in
      let rest =
        for_each_cqe-window fuel r (add32 head 1) (omega arith) t (omega (arith, next, enough)) in
      rw (e, next) (ap (λ l. r.cq.cqes (cqe_index r head) ∷ l) rest)
]
