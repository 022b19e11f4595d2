-- ===== src/Udp/Process.antt =====
-- `process_cqe` of examples/io_uring-udp.c: every buffer that comes back is recycled or sent.
use liburing.Common.{
  ℕ, ◌≡◌, ◌<◌, refl, sym, inl, inr, Bool-cases, Option-cases, true, not, ◌||◌, ltb, Option, none,
  some, if◌then◌else◌, has, List, [], ◌∷◌, ◌++◌, arith,
}
use mathlib.Core.Path.{subst}
use liburing.Common.Int.{ℤ, pos, neg, eqb, is_neg}
use liburing.Common.Window.{upd}
use liburing.Abi.Errno
use liburing.Sqe.{Sqe, Cqe}
use liburing.Sqe.Base.{sqe_set_data64}
use liburing.Ring.{Kernel}
use liburing.Submission.Inv.{IsSq}
use liburing.Submit.Hands.{IsTaker}
use liburing.Recvmsg.{RecvmsgOut, recvmsg_validate}
use liburing.Udp.{
  Ctx, buffers, ctx_get_sqe, get_buffer, recycle_buffer, recv_sqe, send_sqe, recv_found, reply,
  send_found, echo, received, recv_armed, buffer_of, f_buffer, msg_trunc,
}
use liburing.Udp.Supply.{ctx_get_sqe-Found}
use liburing.Udp.Account.{send_ids, Done, none-Done, recycle_buffer-Done, queue-Done, append-Done}

-- What has happened to the buffers `given`
pub record Outcome (k : ℕ) (c : Ctx) (given : List ℕ) (c' : Ctx) : Type 0 where
  pub queued : List Sqe
  pub back : List ℕ
  pub done : Done k c given queued back c'

pub append-Outcome :
    {k : ℕ} {c c' c'' : Ctx} {gs gs' : List ℕ}
    → Outcome k c gs c'
    → Outcome k c' gs' c''
    → Outcome k c (gs ++ gs') c''
append-Outcome o o' = record {
  queued = o.queued ++ o'.queued;
  back = o.back ++ o'.back;
  done = append-Done o.done o'.done;
}

-- The buffers that a completion brings back
abbrev pub ids_of : Cqe → List ℕ
ids_of cqe =
    if ltb cqe.user_data buffers
    then cqe.user_data ∷ []
    else if eqb cqe.res (neg Errno.enobufs)
    then []
    else buffer_of cqe ∷ []

not_zero : neg 1 ≡ pos 0 → ⊥
not_zero e = cc

Done-given :
    {k : ℕ} {c c' : Ctx} {gs gs' bs : List ℕ} {qs : List Sqe}
    → gs ≡ gs'
    → Done k c gs' qs bs c'
    → Done k c gs qs bs c'
Done-given {k} {c} {c'} {bs} {qs} e d = subst (λ g. Done k c g qs bs c') (sym e) d

module _ {k : ℕ} {kernel : Kernel} (taker : IsTaker k kernel) where
  pub recv_found-Outcome :
      (c : Ctx) (idx : ℤ) (p : Option ℕ × Ctx)
      → IsSq k c.ring
      → ctx_get_sqe kernel c ≡ p
      → (recv_found kernel idx p).0 ≡ pos 0
      → Outcome k c [] (recv_found kernel idx p).1
  unfolding recv_found sqe_set_data64
  recv_found-Outcome c idx (none, c') v e ok = cc
  recv_found-Outcome c idx (some i, c') v e ok =
      let s = recv_sqe c' idx (c'.ring.sq.sqes i) in
      record {
        queued = s ∷ [];
        back = [];
        done = queue-Done taker s c'.send (ctx_get_sqe-Found taker c v e);
      }

  send_found-Outcome :
      (c : Ctx) (cqe : Cqe) (fdidx : ℤ) (out : RecvmsgOut) (o : ℕ) (p : Option ℕ × Ctx)
      → IsSq k c.ring
      → buffer_of cqe < buffers
      → ctx_get_sqe kernel c ≡ p
      → (send_found kernel cqe fdidx out o p).0 ≡ pos 0
      → Outcome k c (buffer_of cqe ∷ []) (send_found kernel cqe fdidx out o p).1
  unfolding send_found sqe_set_data64
  send_found-Outcome c cqe fdidx out o (none, c') v few e ok = cc
  send_found-Outcome c cqe fdidx out o (some i, c') v few e ok =
      let s = send_sqe c' fdidx (buffer_of cqe) (c'.ring.sq.sqes i) in
      let low : ltb (buffer_of cqe) buffers ≡ true = ground arith in
      let ids' : buffer_of cqe ∷ [] ≡ send_ids (s ∷ []) = rw low refl in
      let done =
        queue-Done taker s (upd c'.send (buffer_of cqe) (reply c' cqe out o))
          (ctx_get_sqe-Found taker c v e) in
      record { queued = s ∷ []; back = []; done = Done-given ids' done }

  module _ (out_at : ℕ → RecvmsgOut) where
    received-Outcome :
        (c : Ctx) (cqe : Cqe) (fdidx : ℤ)
        → IsSq k c.ring
        → buffer_of cqe < buffers
        → (received kernel out_at c cqe fdidx).0 ≡ pos 0
        → Outcome k c (buffer_of cqe ∷ []) (received kernel out_at c cqe fdidx).1
    unfolding received echo
    received-Outcome c cqe fdidx v few ok =
        let idx = buffer_of cqe in
        let returned : Outcome k c (idx ∷ []) (recycle_buffer c idx) = record {
          queued = [];
          back = idx ∷ [];
          done = recycle_buffer-Done idx v;
        } in
        elim (Option-cases (recvmsg_validate (get_buffer c idx) cqe.res c.msg)) [
          | inl e ↦ absurd (not_zero (rw (e, received) at ok))
          | inr (o, e) ↦ elim (Bool-cases (ltb c.msg.msg_namelen (out_at o).namelen)) [
            | inl long ↦ rw (e, long, received) returned
            | inr short ↦ elim (Bool-cases (has (out_at o).flags msg_trunc)) [
              | inl cut ↦ rw (e, short, cut, received) returned
              | inr whole ↦
                  let ok' : (echo kernel c cqe fdidx (out_at o) o).0 ≡ pos 0 =
                    rw (e, short, whole, received) at ok in
                  rw (e, short, whole, received)
                    (send_found-Outcome c cqe fdidx (out_at o) o (ctx_get_sqe kernel c) v few refl
                      ok')
            ]
          ]
        ]

    pub recv_armed-Outcome :
        (c : Ctx) (cqe : Cqe) (fdidx : ℤ)
        → IsSq k c.ring
        → buffer_of cqe < buffers
        → (recv_armed kernel out_at c cqe fdidx).0 ≡ pos 0
        → Outcome k c
            (if eqb cqe.res (neg Errno.enobufs) then [] else buffer_of cqe ∷ [])
            (recv_armed kernel out_at c cqe fdidx).1
    unfolding recv_armed
    recv_armed-Outcome c cqe fdidx v few ok = elim (Bool-cases (eqb cqe.res (neg Errno.enobufs))) [
      | inl none_left ↦ rw none_left (record { queued = []; back = []; done = none-Done v })
      | inr got ↦ elim (Bool-cases (not (has cqe.flags f_buffer) || is_neg cqe.res)) [
        | inl bad ↦ absurd (not_zero (rw (got, bad) at ok))
        | inr good ↦ rw (got, good) (received-Outcome c cqe fdidx v few (rw (got, good) at ok))
      ]
    ]
