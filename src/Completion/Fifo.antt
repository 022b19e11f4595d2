-- ===== src/Completion/Fifo.antt =====
-- Kernel and application share the completion ring: every interleaving of their steps delivers the
-- CQEs first in, first out. The kernel's step is the one that man/io_uring.7 describes: it writes a
-- CQE at the tail, if there is room. The application's step is `io_uring_cq_advance`.
use liburing.Common.{
  take-append-drop, ◌*◌, ◌^◌, bit_and, has, if◌then◌else◌, Bool-cases, inl, inr, slot-eq, ℕ, suc,
  ◌-◌, ◌<◌, ◌≤◌, ◌≡◌, ◌≢◌, ap, sym, ◌∙◌, List, [], ◌∷◌, ◌++◌, take, arith, add32, slot, slot-ne,
  refl, pow-narrow,
}
use mathlib.Core.Path.{ap₂, subst}
use liburing.Common.Bits.{bit_and-mask}
use liburing.Abi.Setup
use mathlib.Core.List.{append-nil, append_assoc}
use liburing.Common.Window.{upd, window, window-snoc, window-upd}
use liburing.Sqe.{Cqe}
use liburing.Ring.{Ring, cqe_shift}
use liburing.Completion.{cq_ready, cq_advance, cqe_index}
use liburing.Completion.Inv.{IsCq, ready_cqes, cq_advance-IsCq, cq_advance-ready}

-- The place to which the kernel writes the CQE with number `i`: places are counted in 16 bytes, and a CQE takes two of
-- them with IORING_SETUP_CQE32.
abbrev pub kernel_place : Ring → ℕ → ℕ
kernel_place r i = bit_and i r.cq.ring_mask * (if has r.flags Setup.cqe32 then 2 else 1)

abbrev post_at : Ring → Cqe → ℕ → Ring
post_at r c i = record r {
  cq = record r.cq { cqes = upd r.cq.cqes i c; ktail = add32 r.cq.ktail 1 };
}

-- The kernel's write of one CQE.
abbrev pub post_cqe : Ring → Cqe → Ring
post_cqe r c = post_at r c (kernel_place r r.cq.ktail)

-- A step, with the CQEs that it posts and those that it takes.
pub data Step (r : Ring) : List Cqe → List Cqe → Ring → Type 0 where
  post : (c : Cqe) → cq_ready r < r.cq.ring_entries → Step r (c ∷ []) [] (post_cqe r c)
  advance : (n : ℕ) → n ≤ cq_ready r → Step r [] (take n (ready_cqes r)) (cq_advance r n)

pub data Run (r : Ring) : List Cqe → List Cqe → Ring → Type 0 where
  start : Run r [] [] r
  next :
      {ps cs ps' cs' : List Cqe} {s t : Ring}
      → Run r ps cs s
      → Step s ps' cs' t
      → Run r (ps ++ ps') (cs ++ cs') t

pub record Kept (k : ℕ) (ps cs : List Cqe) (r t : Ring) : Type 0 where
  pub valid : IsCq k t
  pub moved : ready_cqes r ++ ps ≡ cs ++ ready_cqes t

module _ {k : ℕ} {r : Ring} (v : IsCq k r) (c : Cqe) (room : cq_ready r < r.cq.ring_entries) where
  tail_after : (j : ℕ) → j < cq_ready r → add32 (add32 r.cq.khead j) (cq_ready r - j) ≡ r.cq.ktail
  unfolding cq_ready
  tail_after j lt = omega arith

  -- The place at the tail holds none of the CQEs that wait.
  post-ne : (j : ℕ) → j < cq_ready r → cqe_index r (add32 r.cq.khead j) ≢ cqe_index r r.cq.ktail
  unfolding cq_ready cqe_index
  post-ne j lt e =
      slot-ne k (cqe_shift r) v.narrow (ground arith) (add32 r.cq.khead j) (cq_ready r - j)
        (omega arith) (omega arith)
        (rw v.mask at (ap (slot r.cq.ring_mask (cqe_shift r)) (tail_after j lt) ∙ sym e))

  post-IsCq : IsCq k (post_at r c (cqe_index r r.cq.ktail))
  unfolding cq_ready
  post-IsCq = omega (arith, pow-narrow k 0 v.narrow)

  post-count : cq_ready (post_at r c (cqe_index r r.cq.ktail)) ≡ suc (cq_ready r)
  unfolding cq_ready
  post-count = omega (arith, pow-narrow k 0 v.narrow)

  hit : upd r.cq.cqes (cqe_index r r.cq.ktail) c (cqe_index r (add32 r.cq.khead (cq_ready r))) ≡ c
  unfolding cq_ready
  hit = rw (let e : add32 r.cq.khead (cq_ready r) ≡ r.cq.ktail = omega arith in e) (ground arith)

  post-ready : ready_cqes (post_at r c (cqe_index r r.cq.ktail)) ≡ ready_cqes r ++ c ∷ []
  unfolding cq_ready cqe_index
  post-ready =
      let f = upd r.cq.cqes (cqe_index r r.cq.ktail) c in
      ap (window (cqe_index r) f r.cq.khead) post-count
      ∙ window-snoc (cqe_index r) f r.cq.khead (cq_ready r) v.khead_fits
      ∙ ap₂ (λ l x. l ++ x ∷ [])
          (window-upd (cqe_index r) r.cq.cqes (cqe_index r r.cq.ktail) c r.cq.khead (cq_ready r)
            v.khead_fits post-ne)
          hit

-- The library reads where the kernel writes.
kernel_place-same : {k : ℕ} {r : Ring} → IsCq k r → (i : ℕ) → kernel_place r i ≡ cqe_index r i
unfolding cqe_index
kernel_place-same {k} {r} v i =
    let units : (if has r.flags Setup.cqe32 then 2 else 1) ≡ 2 ^ cqe_shift r =
      elim (Bool-cases (has r.flags Setup.cqe32)) [ inl e ↦ rw e refl | inr e ↦ rw e refl ] in
    rw (v.mask, units)
      (ap (λ j. j * 2 ^ cqe_shift r) (bit_and-mask k i)
        ∙ sym (slot-eq k (cqe_shift r) v.narrow (ground arith) i))

Step-Kept :
    {k : ℕ} {r : Ring} {ps cs : List Cqe} {t : Ring} → IsCq k r → Step r ps cs t → Kept k ps cs r t
Step-Kept {k} {r} v (post c room) =
    subst (λ i. Kept k (c ∷ []) [] r (post_at r c i)) (sym (kernel_place-same v r.cq.ktail))
      (record { valid = post-IsCq v c room; moved = sym (post-ready v c room) })
Step-Kept {r} v (advance n le) = record {
  valid = cq_advance-IsCq v n le;
  moved =
      append-nil (ready_cqes r)
      ∙ sym (take-append-drop n (ready_cqes r))
      ∙ ap (λ l. take n (ready_cqes r) ++ l) (sym (cq_advance-ready v n le));
}

-- Started with the completion ring's invariant, in every interleaving of `io_uring_cq_advance`
-- by at most what is ready and of the kernel's posts, each of 16 bytes, or 32 with
-- IORING_SETUP_CQE32, at the masked tail, the CQEs that waited at the start followed by those
-- posted since are, in this order, those taken followed by those that still wait; the invariant
-- is kept.
pub completion_fifo :
    {k : ℕ} {r : Ring} {ps cs : List Cqe} {t : Ring} → IsCq k r → Run r ps cs t → Kept k ps cs r t
completion_fifo {r} v start = record { valid = v; moved = append-nil (ready_cqes r) }
completion_fifo {r} v (next {ps} {cs} {ps'} {cs'} {s} {t} h st) =
    let before = completion_fifo v h in
    let after = Step-Kept before.valid st in
    record {
      valid = after.valid;
      moved =
          sym (append_assoc (ready_cqes r) ps ps')
          ∙ ap (λ l. l ++ ps') before.moved
          ∙ append_assoc cs (ready_cqes s) ps'
          ∙ ap (λ l. cs ++ l) after.moved
          ∙ sym (append_assoc cs cs' (ready_cqes t));
    }
