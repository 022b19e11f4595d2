-- ===== src/Tests/Recvmsg.antt =====
-- A message of 128 bytes with two control messages, and a block from malloc.
use liburing.Common.{ℕ, ◌+◌, ◌*◌, ◌/◌, ◌≤◌, ◌≡◌, refl, [], arith}
use liburing.Common.Int.{pos}
use liburing.Recvmsg.{
  RecvmsgOut, MsgHdr, cmsg_size, recvmsg_validate, recvmsg_name, recvmsg_cmsg_firsthdr,
  recvmsg_cmsg_nexthdr, recvmsg_payload, recvmsg_payload_length,
}
use liburing.Recvmsg.Bounds.{Walk, start, step, Walk-bounds, recvmsg_validate-payload}
use liburing.Sys.Resources.{regions}
use liburing.Nolibc.{uring_malloc, uring_free}
use liburing.Nolibc.Heap.{uring_free-restores}
use liburing.Tests.Os.{map_os, map_os-IsFresh}

abbrev msgh : MsgHdr
msgh = record { msg_namelen = 16; msg_controllen = 32 }

abbrev out : RecvmsgOut
out = record { namelen = 16; controllen = 32; payloadlen = 64; flags = 0 }

abbrev align : ℕ → ℕ
align n = (n + 7) / 8 * 8

abbrev buffer : ℕ
buffer = 4096

-- Each control message is a header without data.
abbrev bare : ℕ → ℕ
bare cmsg = 16

recvmsg_validate-payload_example :
    (buffer ≡ 4096)
    × (recvmsg_name 4096 + 16 + 32 ≤ 4096 + 128)
    × (recvmsg_payload 4096 msgh + recvmsg_payload_length 4096 (pos 128) msgh ≡ 4096 + 128)
unfolding recvmsg_validate
recvmsg_validate-payload_example =
    recvmsg_validate-payload 4096 128 msgh (omega arith) (omega arith) (omega arith) refl

second : Walk align bare 4096 out msgh 4128 1 4144
unfolding recvmsg_cmsg_nexthdr recvmsg_cmsg_firsthdr recvmsg_name
second = step start refl

Walk-bounds_example : (4128 + cmsg_size * 1 ≤ 4144) × (4144 + cmsg_size ≤ 4128 + out.controllen)
unfolding recvmsg_cmsg_firsthdr recvmsg_name
Walk-bounds_example =
    Walk-bounds align bare (λ n lt. omega arith) (λ c. omega arith) 4096 out msgh refl second

uring_free-restores_example :
    regions 4096 map_os (
      uring_free
        (uring_malloc map_os (λ a. 0) 100 []).1
        (uring_malloc map_os (λ a. 0) 100 []).0
        (uring_malloc map_os (λ a. 0) 100 []).2)
    ≡ regions 4096 map_os []
uring_free-restores_example =
    uring_free-restores (map_os-IsFresh 4096) (λ a. 0) 100 []
      (uring_malloc map_os (λ a. 0) 100 []).1 refl
