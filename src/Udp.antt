-- ===== src/Udp.antt =====
-- examples/io_uring-udp.c: a server that sends every datagram back, from buffers that the kernel picks. It is on the
-- library as modelled here: the rings, the helpers for SQEs, provided buffers and received messages.
pub mod Supply
pub mod Account
pub mod Process
pub mod Batch
pub mod Echo
pub mod Pool
pub mod Rounds
use liburing.Common.{
  ℕ, zero, suc, ◌+◌, ◌*◌, ◌%◌, ◌/◌, ◌^◌, Bool, true, false, not, ◌&&◌, ◌||◌, Option, none, some,
  List, [], ◌∷◌, length, ltb, ◌⊎◌, inl, inr, if◌then◌else◌, has, bit_or, shl32,
}
use liburing.Common.Int.{ℤ, pos, neg, is_neg, is_nonzero, eqb, s32, u64}
use liburing.Common.Window.{upd}
use liburing.Abi.Errno
use liburing.Abi.Sqe as Flag
use liburing.Sqe.{Sqe, Cqe}
use liburing.Sqe.Base.{sqe_set_data64}
use liburing.Sqe.Prep.Net.{prep_recvmsg_multishot, prep_sendmsg}
use liburing.Ring.{Ring, Kernel}
use liburing.Sys.{RegArg, Calls, Os}
use liburing.Submission.{get_sqe}
use liburing.Submission.Steps.{write_sqe}
use liburing.Submit.{submit, submit_and_wait}
use liburing.Completion.{cq_advance}
use liburing.Wait.{peek_batch_cqe}
use liburing.BufRing.{BufRing, buf_ring_mask, buf_ring_init, buf_ring_add, buf_ring_advance}
use liburing.Recvmsg.{
  RecvmsgOut, MsgHdr, recvmsg_validate, recvmsg_name, recvmsg_payload, recvmsg_payload_length,
}
use liburing.Register.Resources.{register_buf_ring}

abbrev pub qd : ℕ
qd = 64

abbrev pub cqes : ℕ
cqes = qd * 16

abbrev pub buffers : ℕ
buffers = cqes

-- `struct sendmsg_ctx`: the fields of `msg` and `iov` that are not always the same.
pub record SendmsgCtx : Type 0 where
  pub msg_namelen : ℕ
  pub msg_name : ℕ
  pub iov_base : ℕ
  pub iov_len : ℕ

-- `struct ctx`; what is only printed is left out. `msg_at` and `send_at` are the addresses of `msg` and of the
-- messages in `send`.
pub record Ctx : Type 0 where
  pub ring : Ring
  pub buf_ring : BufRing
  pub buffer_base : ℕ
  pub msg : MsgHdr
  pub msg_at : ℕ
  pub buf_shift : ℕ
  pub send : ℕ → SendmsgCtx
  pub send_at : ℕ → ℕ

abbrev pub buffer_size : Ctx → ℕ
buffer_size ctx = shl32 1 ctx.buf_shift

-- `idx << ctx->buf_shift` is an `int`.
unfoldable pub get_buffer : Ctx → (idx : ℕ) → ℕ
get_buffer ctx idx = (ctx.buffer_base + u64 (s32 (idx * 2 ^ ctx.buf_shift))) % 2 ^ 64

-- `buf_ring_size`
abbrev pub pool_size : Ctx → ℕ
pool_size ctx = (16 + buffer_size ctx) * buffers

-- The loop that adds all buffers: `n` of them, from the number `i` on.
unfoldable pub add_buffers : Ctx → (n i : ℕ) → BufRing → BufRing
add_buffers ctx zero i br = br
add_buffers ctx (suc n) i br =
    add_buffers ctx n (suc i)
      (buf_ring_add br (get_buffer ctx i) (buffer_size ctx) i (buf_ring_mask buffers) i)

-- `setup_buffer_pool`: `mapped` is what mmap returns, `none` for MAP_FAILED, and `br` what is there.
unfoldable pub setup_buffer_pool :
    Os → Calls → (mapped : Option ℕ) → BufRing → Ctx → ℤ × Ctx × Calls
setup_buffer_pool os t none br ctx = (neg 1, ctx, t)
setup_buffer_pool os t (some mapped) br ctx =
    let ctx' = record ctx { buf_ring = buf_ring_init br; buffer_base = mapped + 16 * buffers } in
    let (ret, t') = register_buf_ring os t ctx.ring (RegArg.buf_reg mapped buffers 0) in
    if is_nonzero ret then (ret, ctx', t') else (
      pos 0,
      record ctx' {
        buf_ring = buf_ring_advance (add_buffers ctx' buffers 0 ctx'.buf_ring) buffers;
      },
      t',
    )

-- `recycle_buffer`
unfoldable pub recycle_buffer : Ctx → (idx : ℕ) → Ctx
recycle_buffer ctx idx = record ctx {
  buf_ring =
      buf_ring_advance
        (buf_ring_add ctx.buf_ring (get_buffer ctx idx) (buffer_size ctx) idx
          (buf_ring_mask buffers) 0)
        1;
}

-- `process_cqe_send`
unfoldable pub process_cqe_send : Ctx → Cqe → ℤ × Ctx
process_cqe_send ctx cqe = (pos 0, recycle_buffer ctx cqe.user_data)

-- IORING_CQE_F_BUFFER and IORING_CQE_F_MORE
abbrev pub f_buffer : ℕ
f_buffer = 1

abbrev pub f_more : ℕ
f_more = 2

-- MSG_TRUNC
abbrev pub msg_trunc : ℕ
msg_trunc = 32

-- `cqe->flags >> 16`
abbrev pub buffer_of : Cqe → ℕ
buffer_of cqe = cqe.flags / 2 ^ 16

abbrev pub recv_sqe : Ctx → (idx : ℤ) → Sqe → Sqe
recv_sqe ctx idx s =
    let p = prep_recvmsg_multishot s idx ctx.msg_at msg_trunc in
    sqe_set_data64
      (record p {
        flags = bit_or (bit_or p.flags Flag.fixed_file) Flag.buffer_select;
        buf_index = 0;
      })
      (buffers + 1)

abbrev pub send_sqe : Ctx → (fdidx : ℤ) (idx : ℕ) → Sqe → Sqe
send_sqe ctx fdidx idx s =
    let p = sqe_set_data64 (prep_sendmsg s fdidx (ctx.send_at idx) 0) idx in
    record p { flags = bit_or p.flags Flag.fixed_file }

-- The message that is sent back, for a message in the buffer at `o`
abbrev pub reply : Ctx → Cqe → (out : RecvmsgOut) (o : ℕ) → SendmsgCtx
reply ctx cqe out o = record {
  msg_namelen = out.namelen;
  msg_name = recvmsg_name o;
  iov_base = recvmsg_payload o ctx.msg;
  iov_len = recvmsg_payload_length o cqe.res ctx.msg;
}

module _ (kernel : Kernel) where
  -- The second attempt of `get_sqe`, after it has submitted
  unfoldable pub or_submit : Option ℕ × Ring → Option ℕ × Ring
  or_submit (some i, r) = (some i, r)
  or_submit (none, r) = get_sqe (submit kernel r).1

  -- `get_sqe`: the SQE that it stores, `none` where it returns true.
  unfoldable pub ctx_get_sqe : Ctx → Option ℕ × Ctx
  unfolding or_submit
  ctx_get_sqe ctx = let (sqe, r) = or_submit (get_sqe ctx.ring) in (sqe, record ctx { ring = r })

  -- `add_recv` once `get_sqe` has returned
  unfoldable pub recv_found : (idx : ℤ) → Option ℕ × Ctx → ℤ × Ctx
  recv_found idx (none, ctx) = (neg 1, ctx)
  recv_found idx (some i, ctx) =
      (pos 0, record ctx { ring = write_sqe ctx.ring i (recv_sqe ctx idx (ctx.ring.sq.sqes i)) })

  -- `add_recv`
  unfoldable pub add_recv : Ctx → (idx : ℤ) → ℤ × Ctx
  unfolding recv_found
  add_recv ctx idx = recv_found idx (ctx_get_sqe ctx)

  -- `process_cqe_recv` once `get_sqe` has returned
  unfoldable pub send_found :
      Cqe → (fdidx : ℤ) → (out : RecvmsgOut) (o : ℕ) → Option ℕ × Ctx → ℤ × Ctx
  send_found cqe fdidx out o (none, ctx) = (neg 1, ctx)
  send_found cqe fdidx out o (some i, ctx) =
      let idx = buffer_of cqe in
      (
        pos 0,
        record ctx {
          ring = write_sqe ctx.ring i (send_sqe ctx fdidx idx (ctx.ring.sq.sqes i));
          send = upd ctx.send idx (reply ctx cqe out o);
        },
      )

  -- `process_cqe_recv` from `get_sqe` on
  unfoldable pub echo : Ctx → Cqe → (fdidx : ℤ) → (out : RecvmsgOut) (o : ℕ) → ℤ × Ctx
  unfolding send_found
  echo ctx cqe fdidx out o = send_found cqe fdidx out o (ctx_get_sqe ctx)

  module _ (out_at : ℕ → RecvmsgOut) where
    -- `process_cqe_recv` from the computation of `idx` on; `out_at` is what the memory holds at an address.
    unfoldable pub received : Ctx → Cqe → (fdidx : ℤ) → ℤ × Ctx
    received ctx cqe fdidx =
        elim (recvmsg_validate (get_buffer ctx (buffer_of cqe)) cqe.res ctx.msg) [
          | none ↦ (neg 1, ctx)
          | some o ↦
              if ltb ctx.msg.msg_namelen (out_at o).namelen
              then (pos 0, recycle_buffer ctx (buffer_of cqe))
              else if has (out_at o).flags msg_trunc
              then (pos 0, recycle_buffer ctx (buffer_of cqe))
              else echo ctx cqe fdidx (out_at o) o
        ]

    -- `process_cqe_recv` once the request to receive is there
    unfoldable pub recv_armed : Ctx → Cqe → (fdidx : ℤ) → ℤ × Ctx
    recv_armed ctx cqe fdidx =
        if eqb cqe.res (neg Errno.enobufs)
        then (pos 0, ctx)
        else if not (has cqe.flags f_buffer) || is_neg cqe.res
        then (neg 1, ctx)
        else received ctx cqe fdidx

    -- `process_cqe_recv`
    unfoldable pub process_cqe_recv : Ctx → Cqe → (fdidx : ℤ) → ℤ × Ctx
    process_cqe_recv ctx cqe fdidx =
        let (ret, ctx') = if has cqe.flags f_more then (pos 0, ctx) else add_recv ctx fdidx in
        if is_nonzero ret then (ret, ctx') else recv_armed ctx' cqe fdidx

    -- `process_cqe`
    unfoldable pub process_cqe : Ctx → Cqe → (fdidx : ℤ) → ℤ × Ctx
    process_cqe ctx cqe fdidx =
        if ltb cqe.user_data buffers
        then process_cqe_send ctx cqe
        else process_cqe_recv ctx cqe fdidx

    -- The loop over the batch in `main`, which leaves at the first result other than 0.
    unfoldable pub process_batch : Ctx → List ℕ → ℤ × Ctx
    process_batch ctx [] = (pos 0, ctx)
    process_batch ctx (i ∷ batch) =
        let (ret, ctx') = process_cqe ctx (ctx.ring.cq.cqes i) (pos 0) in
        if is_nonzero ret then (ret, ctx') else process_batch ctx' batch

    -- One round of the loop of `main`: `inl` is the result with which it is left.
    unfoldable pub round : Ctx → (ℤ × Ctx) ⊎ Ctx
    round ctx =
        let (ret, r) = submit_and_wait kernel ctx.ring 1 in
        if eqb ret (neg Errno.eintr)
        then inr (record ctx { ring = r })
        else if is_neg ret
        then inl (ret, record ctx { ring = r })
        else let (batch, r') = peek_batch_cqe kernel r cqes in
          let (ret', ctx') = process_batch (record ctx { ring = r' }) batch in
          if is_nonzero ret'
          then inl (ret', ctx')
          else inr (record ctx' { ring = cq_advance ctx'.ring (length batch) })
