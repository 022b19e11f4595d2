-- ===== src/Udp/Rounds.antt =====
-- The loop of `main` in examples/io_uring-udp.c, round after round.
use liburing.Common.{ℕ, ◌≡◌, inr, false, List, [], ◌++◌}
use liburing.Common.Int.{neg, is_neg}
use liburing.Abi.Errno
use liburing.Ring.{Ring, Kernel}
use liburing.Submission.Pending.{Hands}
use liburing.Submit.{submit_and_wait}
use liburing.Wait.{peek_batch_cqe}
use liburing.Recvmsg.{RecvmsgOut}
use liburing.Udp.{Ctx, cqes, round}
use liburing.Udp.Batch.{batch_ids, IsPicked}

-- The batch of a round, and the context in which it is processed
abbrev pub batch_of : Kernel → Ctx → List ℕ
batch_of kernel c = (peek_batch_cqe kernel (submit_and_wait kernel c.ring 1).1 cqes).0

abbrev pub peeked : Kernel → Ctx → Ctx
peeked kernel c = record c {
  ring = (peek_batch_cqe kernel (submit_and_wait kernel c.ring 1).1 cqes).1;
}

-- Rounds that go on: what the buffers hold may be different in each, and the wait may be interrupted. `given` are
-- the buffers that the completions have brought back.
pub data Rounds (kernel : Kernel) (c : Ctx) : List ℕ → Ctx → Type 0 where
  start : Rounds kernel c [] c
  interrupted :
      {given : List ℕ} {c' c'' : Ctx} (out_at : ℕ → RecvmsgOut)
      → Rounds kernel c given c'
      → (submit_and_wait kernel c'.ring 1).0 ≡ neg Errno.eintr
      → round kernel out_at c' ≡ inr c''
      → Rounds kernel c given c''
  served :
      {given : List ℕ} {c' c'' : Ctx} (out_at : ℕ → RecvmsgOut)
      → Rounds kernel c given c'
      → is_neg (submit_and_wait kernel c'.ring 1).0 ≡ false
      → IsPicked kernel out_at (peeked kernel c') (batch_of kernel c')
      → round kernel out_at c' ≡ inr c''
      → Rounds kernel c
          (given ++ batch_ids kernel out_at (peeked kernel c') (batch_of kernel c'))
          c''
