-- ===== src/Tests/Udp.antt =====
-- The server of examples/io_uring-udp.c on a ring of four SQEs
use liburing.Common.{
  ℕ, ◌+◌, ◌*◌, ◌^◌, ◌≡◌, ◌≢◌, refl, true, false, has, arith, ◌==◌, if◌then◌else◌, [], ◌∷◌, some,
}
use liburing.Common.Int.{pos}
use liburing.Sqe.{Cqe}
use liburing.Sys.{Os, null}
use liburing.Register.{do_register, register_ret}
use liburing.Register.Resources.{register_buf_ring}
use liburing.Submission.{sq_ready, sq_space_left}
use liburing.Submission.Inv.{IsSq}
use liburing.Recvmsg.{RecvmsgOut}
use liburing.Completion.{cq_advance}
use liburing.Udp.{Ctx, get_buffer, setup_buffer_pool, process_cqe_recv, process_batch}
use liburing.Udp.Echo.{IsEchoed, process_cqe_recv-IsEchoed}
use liburing.Udp.Rounds.{peeked}
use liburing.Udp.Pool.{IsPool, setup_buffer_pool-IsPool}
use liburing.Tests.Data.{small, small_cq, takes_all}

-- A message of 50 bytes from an address of 16 bytes in buffer 5, and the completion of a reply from buffer 7
abbrev message : Cqe
message = record { user_data = 1025; res = pos 194; flags = 5 * 2 ^ 16 + 3 }

abbrev sent : Cqe
sent = record { user_data = 7; res = pos 10; flags = 0 }

abbrev out_at : ℕ → RecvmsgOut
out_at o = record { namelen = 16; controllen = 0; payloadlen = 50; flags = 0 }

abbrev ctx : Ctx
ctx = record {
  ring = record small { cq = record small_cq { cqes = λ i. if i == 0 then message else sent } };
  buf_ring = record { bufs = λ i. record { addr = 0; len = 0; bid = 0 }; tail = 3 };
  buffer_base = 2 ^ 20;
  msg = record { msg_namelen = 128; msg_controllen = 0 };
  msg_at = 100;
  buf_shift = 12;
  send = λ i. record { msg_namelen = 0; msg_name = 0; iov_base = 0; iov_len = 0 };
  send_at = λ i. 2 ^ 30 + i * 72;
}

ctx-IsSq : IsSq 2 ctx.ring
ctx-IsSq = omega arith

-- The round after which the message and the sent buffer have been dealt with
abbrev served_ctx : Ctx
served_ctx =
    let step = process_batch takes_all out_at (peeked takes_all ctx) (7 ∷ 0 ∷ []) in
    record step.1 { ring = cq_advance step.1.ring 2 }

ctx-room : sq_space_left ctx.ring ≢ 0
unfolding sq_space_left sq_ready
ctx-room = omega arith

ctx-buffer : get_buffer ctx 5 ≡ 1069056
unfolding get_buffer
ctx-buffer = refl

message-more : has message.flags 2 ≡ true
unfolding has
message-more = refl

message-buffer : has message.flags 1 ≡ true
unfolding has
message-buffer = refl

message-whole : has (out_at (get_buffer ctx 5)).flags 32 ≡ false
unfolding has
message-whole = refl

process_cqe_recv-IsEchoed_example :
    ((process_cqe_recv takes_all out_at ctx message (pos 0)).0 ≡ pos 0)
    × IsEchoed ctx
        (pos 0)
        5
        (get_buffer ctx 5)
        194
        (out_at (get_buffer ctx 5))
        (process_cqe_recv takes_all out_at ctx message (pos 0)).1
process_cqe_recv-IsEchoed_example =
    process_cqe_recv-IsEchoed takes_all out_at ctx message (pos 0) 194 ctx-IsSq ctx-room
      message-more message-buffer refl (omega (arith, ctx-buffer)) (omega arith) (omega arith)
      (omega arith) message-whole

-- io_uring_register(2) succeeds.
abbrev os : Os
os t call = record { ret = pos 0; arg = null; rlim_cur = 0 }

registered : (setup_buffer_pool os [] (some (2 ^ 20)) ctx.buf_ring ctx).0 ≡ pos 0
unfolding setup_buffer_pool register_buf_ring do_register register_ret
registered = refl

setup_buffer_pool-IsPool_example :
    IsPool (2 ^ 20) (setup_buffer_pool os [] (some (2 ^ 20)) ctx.buf_ring ctx).1
setup_buffer_pool-IsPool_example =
    setup_buffer_pool-IsPool os [] (2 ^ 20) ctx.buf_ring ctx (omega arith) (omega arith) registered
