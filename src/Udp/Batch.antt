-- ===== src/Udp/Batch.antt =====
-- A batch of completions in examples/io_uring-udp.c.
use liburing.Common.{
  ℕ, zero, suc, ◌≡◌, ◌<◌, refl, ap, sym, ◌∙◌, inl, inr, Bool-cases, false, ltb, if◌then◌else◌, has,
  List, [], ◌∷◌, ◌++◌,
}
use mathlib.Core.Bool.{true≢false}
use liburing.Common.Int.{ℤ, pos, negsuc, neg, eqb, is_nonzero}
use liburing.Abi.Errno
use liburing.Sqe.{Cqe}
use liburing.Ring.{Kernel}
use liburing.Submission.Inv.{IsSq}
use liburing.Submit.Hands.{IsTaker}
use liburing.Recvmsg.{RecvmsgOut}
use liburing.Udp.{
  Ctx, buffers, ctx_get_sqe, add_recv, process_cqe_recv, process_cqe_send, process_cqe,
  process_batch, buffer_of, f_more,
}
use liburing.Udp.Account.{none-Done, recycle_buffer-Done}
use liburing.Udp.Process.{Outcome, append-Outcome, ids_of, recv_found-Outcome, recv_armed-Outcome}

pub is_zero : (n : ℤ) → is_nonzero n ≡ false → n ≡ pos 0
is_zero (pos zero) e = refl
is_zero (pos (suc n)) e = cc
is_zero (negsuc n) e = cc

module _ (kernel : Kernel) (out_at : ℕ → RecvmsgOut) where
  -- The buffers that a batch brings back, each completion as it is read
  unfoldable pub batch_ids : Ctx → List ℕ → List ℕ
  batch_ids c [] = []
  batch_ids c (i ∷ batch) =
      let cqe = c.ring.cq.cqes i in
      ids_of cqe ++ batch_ids (process_cqe kernel out_at c cqe (pos 0)).1 batch

  -- The kernel picks buffers of the pool only.
  unfoldable pub IsPicked : Ctx → List ℕ → Type 0
  IsPicked c [] = Unit
  IsPicked c (i ∷ batch) =
      let cqe = c.ring.cq.cqes i in
      (buffer_of cqe < buffers) × IsPicked (process_cqe kernel out_at c cqe (pos 0)).1 batch

module _ {k : ℕ} {kernel : Kernel} (taker : IsTaker k kernel) (out_at : ℕ → RecvmsgOut) where
  process_cqe_recv-Outcome :
      (c : Ctx) (cqe : Cqe) (fdidx : ℤ)
      → IsSq k c.ring
      → buffer_of cqe < buffers
      → (process_cqe_recv kernel out_at c cqe fdidx).0 ≡ pos 0
      → Outcome k c
          (if eqb cqe.res (neg Errno.enobufs) then [] else buffer_of cqe ∷ [])
          (process_cqe_recv kernel out_at c cqe fdidx).1
  unfolding process_cqe_recv add_recv
  process_cqe_recv-Outcome c cqe fdidx v few ok = elim (Bool-cases (has cqe.flags f_more)) [
    | inl more ↦ rw more (recv_armed-Outcome taker out_at c cqe fdidx v few (rw more at ok))
    | inr last ↦ elim (Bool-cases (is_nonzero (add_recv kernel c fdidx).0)) [
      | inl bad ↦
          let z : (add_recv kernel c fdidx).0 ≡ pos 0 = rw (last, bad) at ok in
          absurd (true≢false (sym bad ∙ ap is_nonzero z))
      | inr armed ↦
          let o =
            recv_found-Outcome taker c fdidx (ctx_get_sqe kernel c) v refl (is_zero _ armed) in
          rw (last, armed)
            (append-Outcome o (
              recv_armed-Outcome taker out_at (add_recv kernel c fdidx).1 cqe fdidx
                o.done.hands.valid few (rw (last, armed) at ok)))
    ]
  ]

  pub process_cqe-Outcome :
      (c : Ctx) (cqe : Cqe) (fdidx : ℤ)
      → IsSq k c.ring
      → buffer_of cqe < buffers
      → (process_cqe kernel out_at c cqe fdidx).0 ≡ pos 0
      → Outcome k c (ids_of cqe) (process_cqe kernel out_at c cqe fdidx).1
  unfolding process_cqe process_cqe_send
  process_cqe-Outcome c cqe fdidx v few ok = elim (Bool-cases (ltb cqe.user_data buffers)) [
    | inl sent ↦ rw sent (record {
      queued = [];
      back = cqe.user_data ∷ [];
      done = recycle_buffer-Done cqe.user_data v;
    })
    | inr got ↦ rw got (process_cqe_recv-Outcome c cqe fdidx v few (rw got at ok))
  ]

  -- In a batch that is processed with the result 0, each buffer that the completions bring back is, as often, either
  -- recycled or queued to be sent.
  pub process_batch-Outcome :
      (c : Ctx) (batch : List ℕ)
      → IsSq k c.ring
      → IsPicked kernel out_at c batch
      → (process_batch kernel out_at c batch).0 ≡ pos 0
      → Outcome k c (batch_ids kernel out_at c batch) (process_batch kernel out_at c batch).1
  unfolding process_batch batch_ids IsPicked
  process_batch-Outcome c [] v picked ok = record { queued = []; back = []; done = none-Done v }
  process_batch-Outcome c (i ∷ batch) v (few, picked) ok =
      let cqe = c.ring.cq.cqes i in
      let step = process_cqe kernel out_at c cqe (pos 0) in
      elim (Bool-cases (is_nonzero step.0)) [
        | inl bad ↦
            let z : step.0 ≡ pos 0 = rw bad at ok in absurd (true≢false (sym bad ∙ ap is_nonzero z))
        | inr on ↦
            let o = process_cqe-Outcome c cqe (pos 0) v few (is_zero step.0 on) in
            rw on (
              append-Outcome o
                (process_batch-Outcome step.1 batch o.done.hands.valid picked (rw on at ok)))
      ]
