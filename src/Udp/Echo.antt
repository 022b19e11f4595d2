-- ===== src/Udp/Echo.antt =====
-- A datagram that examples/io_uring-udp.c has received goes back to its sender.
use liburing.Common.{
  ℕ, ◌+◌, ◌%◌, ◌^◌, ◌≡◌, ◌≢◌, ◌<◌, ◌≤◌, refl, ap, sym, ◌∙◌, inl, inr, Option-cases, true, false,
  ltb, some, has, [], ◌∷◌, ◌++◌, ne→==, eq→==, arith,
}
use mathlib.Core.Path.{ap₂}
use liburing.Common.Int.{ℤ, pos, neg, eqb, is_neg}
use liburing.Common.Window.{upd}
use liburing.Abi.Errno
use liburing.Abi.Op
use liburing.Abi.Sqe as Flag
use liburing.Sqe.{Sqe, Cqe}
use liburing.Sqe.Base.{prep_rw, sqe_set_data64}
use liburing.Sqe.Prep.Net.{prep_sendmsg}
use liburing.Ring.{Ring, Kernel}
use liburing.Submission.{get_sqe, sq_space_left}
use liburing.Submission.Inv.{IsSq, get_sqe-none}
use liburing.Submission.Pending.{pending, get_sqe-pending}
use liburing.Recvmsg.{RecvmsgOut, MsgHdr, out_size, recvmsg_validate, recvmsg_name, recvmsg_payload}
use liburing.Recvmsg.Bounds.{recvmsg_validate-payload}
use liburing.Udp.{
  Ctx, or_submit, ctx_get_sqe, get_buffer, send_sqe, reply, send_found, echo, received, recv_armed,
  process_cqe_recv, buffer_of, f_buffer, f_more, msg_trunc,
}

-- One SQE more waits: it sends, for buffer `idx`, a message whose name and payload are those in the `n` bytes
-- at `buf`.
pub record IsEchoed (c : Ctx) (fdidx : ℤ) (idx buf n : ℕ) (out : RecvmsgOut) (c' : Ctx)
    : Type 0 where
  pub sqe : Sqe
  pub last : pending c'.ring ≡ pending c.ring ++ sqe ∷ []
  pub sends : sqe.opcode ≡ Op.sendmsg
  pub to_socket : (sqe.fd ≡ fdidx) × (has sqe.flags Flag.fixed_file ≡ true)
  pub of_message : sqe.addr ≡ c.send_at idx
  pub comes_back : sqe.user_data ≡ idx
  pub name : ((c'.send idx).msg_name ≡ buf + out_size) × ((c'.send idx).msg_namelen ≡ out.namelen)
  pub named : (c'.send idx).msg_name + (c'.send idx).msg_namelen ≤ (c'.send idx).iov_base
  pub payload : (c'.send idx).iov_base ≡ buf + out_size + c.msg.msg_namelen + c.msg.msg_controllen
  pub whole : (c'.send idx).iov_base + (c'.send idx).iov_len ≡ buf + n
  pub others : (j : ℕ) → j ≢ idx → c'.send j ≡ c.send j
  pub pool : c'.buf_ring ≡ c.buf_ring

module _ (kernel : Kernel) (out_at : ℕ → RecvmsgOut) where
  -- With room in the ring an SQE is found at once.
  found :
      {k : ℕ} (c : Ctx)
      → IsSq k c.ring
      → sq_space_left c.ring ≢ 0
      → (i : ℕ) × (get_sqe c.ring ≡ (some i, (get_sqe c.ring).1))
  found c v room = elim (Option-cases (get_sqe c.ring).0) [
    | inl e ↦ absurd (room ((get_sqe-none v).0 e))
    | inr (i, e) ↦ (i, ap (λ o. (o, (get_sqe c.ring).1)) e)
  ]

  send_found-IsEchoed :
      {k : ℕ} (c : Ctx) (cqe : Cqe) (fdidx : ℤ) (n i : ℕ) (r' : Ring)
      → IsSq k c.ring
      → get_sqe c.ring ≡ (some i, r')
      → cqe.res ≡ pos n
      → get_buffer c (buffer_of cqe) + n < 2 ^ 64
      → n < 2 ^ 31
      → c.msg.msg_controllen + c.msg.msg_namelen + out_size ≤ n
      → (out_at (get_buffer c (buffer_of cqe))).namelen ≤ c.msg.msg_namelen
      → recvmsg_validate (get_buffer c (buffer_of cqe)) (pos n) c.msg
        ≡ some (get_buffer c (buffer_of cqe))
      → IsEchoed c fdidx
          (buffer_of cqe)
          (get_buffer c (buffer_of cqe))
          n
          (out_at (get_buffer c (buffer_of cqe)))
          (send_found kernel cqe fdidx
            (out_at (get_buffer c (buffer_of cqe)))
            (get_buffer c (buffer_of cqe))
            (some i, record c { ring = r' })).1
  unfolding send_found sqe_set_data64 prep_sendmsg prep_rw recvmsg_payload recvmsg_name has
  send_found-IsEchoed c cqe fdidx n i r' v got res fits small header short valid =
      let idx = buffer_of cqe in
      let buf = get_buffer c idx in
      let message = reply c cqe (out_at buf) buf in
      let stored : upd c.send idx message idx ≡ message = rw (eq→== idx idx refl) refl in
      let parts =
        recvmsg_validate-payload buf n c.msg fits small (omega (arith, header, small)) valid in
      record {
        sqe = send_sqe (record c { ring = r' }) fdidx idx (r'.sq.sqes i);
        last = get_sqe-pending v _ got;
        sends = refl;
        to_socket = (refl, refl);
        of_message = refl;
        comes_back = refl;
        name = rw stored (refl, refl);
        named = rw stored (omega (arith, short));
        payload = rw stored refl;
        whole = rw (stored, res) parts.2;
        others = λ j apart. rw (ne→== j idx apart) refl;
        pool = refl;
      }

  accepted :
      (buf n : ℕ) (msg : MsgHdr)
      → n < 2 ^ 31
      → msg.msg_controllen + msg.msg_namelen + out_size ≤ n
      → recvmsg_validate buf (pos n) msg ≡ some buf
  unfolding recvmsg_validate
  accepted buf n msg small header =
      let long : ltb (n % 2 ^ 64) ((msg.msg_controllen + msg.msg_namelen + out_size) % 2 ^ 64)
          ≡ false =
        ground arith in
      rw long refl

  received-echoes :
      (c : Ctx) (cqe : Cqe) (fdidx : ℤ) (buf n : ℕ)
      → buf ≡ get_buffer c (buffer_of cqe)
      → cqe.res ≡ pos n
      → recvmsg_validate buf (pos n) c.msg ≡ some buf
      → (out_at buf).namelen ≤ c.msg.msg_namelen
      → has (out_at buf).flags msg_trunc ≡ false
      → received kernel out_at c cqe fdidx ≡ echo kernel c cqe fdidx (out_at buf) buf
  unfolding received
  received-echoes c cqe fdidx buf n is res valid short whole =
      let short' : ltb c.msg.msg_namelen (out_at buf).namelen ≡ false = ground arith in
      let valid' : recvmsg_validate (get_buffer c (buffer_of cqe)) cqe.res c.msg ≡ some buf =
        ap₂ (λ b r. recvmsg_validate b r c.msg) (sym is) res ∙ valid in
      rw (valid', short', whole, received) refl

  process_cqe_recv-received :
      (c : Ctx) (cqe : Cqe) (fdidx : ℤ) (n : ℕ)
      → has cqe.flags f_more ≡ true
      → has cqe.flags f_buffer ≡ true
      → cqe.res ≡ pos n
      → process_cqe_recv kernel out_at c cqe fdidx ≡ received kernel out_at c cqe fdidx
  unfolding process_cqe_recv recv_armed
  process_cqe_recv-received c cqe fdidx n more buffer res =
      let some_left : eqb cqe.res (neg Errno.enobufs) ≡ false = rw res refl in
      let fine : is_neg cqe.res ≡ false = rw res refl in rw (more, some_left, buffer, fine) refl

  -- In io_uring-udp, where a multishot receive goes on and a buffer was picked, room for an SQE
  -- is left on a valid submission ring, and the buffer, of fewer than 2^31 bytes and ending
  -- below 2^64, holds the message header, a name that fits and a datagram that has not been cut:
  -- `process_cqe_recv` returns 0 and has queued one SQE that sends exactly the payload, from
  -- where it lies in the buffer, to the address from which it came, under the number of the
  -- buffer; other messages and the ring of buffers stay as they are.
  pub process_cqe_recv-IsEchoed :
      {k : ℕ} (c : Ctx) (cqe : Cqe) (fdidx : ℤ) (n : ℕ)
      → IsSq k c.ring
      → sq_space_left c.ring ≢ 0
      → has cqe.flags f_more ≡ true
      → has cqe.flags f_buffer ≡ true
      → cqe.res ≡ pos n
      → get_buffer c (buffer_of cqe) + n < 2 ^ 64
      → n < 2 ^ 31
      → c.msg.msg_controllen + c.msg.msg_namelen + out_size ≤ n
      → (out_at (get_buffer c (buffer_of cqe))).namelen ≤ c.msg.msg_namelen
      → has (out_at (get_buffer c (buffer_of cqe))).flags msg_trunc ≡ false
      → ((process_cqe_recv kernel out_at c cqe fdidx).0 ≡ pos 0)
        × IsEchoed c fdidx
            (buffer_of cqe)
            (get_buffer c (buffer_of cqe))
            n
            (out_at (get_buffer c (buffer_of cqe)))
            (process_cqe_recv kernel out_at c cqe fdidx).1
  unfolding echo ctx_get_sqe or_submit send_found
  process_cqe_recv-IsEchoed c cqe fdidx n v room more buffer res fits small header short whole =
      let buf = get_buffer c (buffer_of cqe) in
      let valid = accepted buf n c.msg small header in
      let (i, got) = found c v room in
      let r' = (get_sqe c.ring).1 in
      let there : ctx_get_sqe kernel c ≡ (some i, record c { ring = r' }) =
        rw (got, or_submit) refl in
      let same : process_cqe_recv kernel out_at c cqe fdidx
          ≡ send_found kernel cqe fdidx (out_at buf) buf (some i, record c { ring = r' }) =
        process_cqe_recv-received c cqe fdidx n more buffer res
        ∙ received-echoes c cqe fdidx buf n refl res valid short whole
        ∙ ap (send_found kernel cqe fdidx (out_at buf) buf) there in
      rw same (refl, send_found-IsEchoed c cqe fdidx n i r' v got res fits small header short valid)
