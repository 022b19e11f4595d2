-- ===== src/Recvmsg.antt =====
-- The `io_uring_recvmsg_*` helpers of src/include/liburing.h, which find the parts of a message that a
-- multishot receive has put into a buffer. A pointer is its address: a buffer lies within the address
-- space, so that sums of addresses inside it do not wrap.
pub mod Bounds
use liburing.Common.{ℕ, ◌+◌, ◌%◌, ◌^◌, Bool, ◌||◌, Option, none, some, ltb, if◌then◌else◌, sub64}
use liburing.Common.Int.{ℤ, is_neg, u64}

-- `struct io_uring_recvmsg_out`
pub record RecvmsgOut : Type 0 where
  pub namelen : ℕ
  pub controllen : ℕ
  pub payloadlen : ℕ
  pub flags : ℕ

-- The fields of `struct msghdr` that the helpers read
pub record MsgHdr : Type 0 where
  pub msg_namelen : ℕ
  pub msg_controllen : ℕ

-- `sizeof(struct io_uring_recvmsg_out)`
abbrev pub out_size : ℕ
out_size = 16

-- `sizeof(struct cmsghdr)` where `size_t` has 64 bits
abbrev pub cmsg_size : ℕ
cmsg_size = 16

-- `io_uring_recvmsg_validate`
unfoldable pub recvmsg_validate : (buf : ℕ) (buf_len : ℤ) → MsgHdr → Option ℕ
recvmsg_validate buf buf_len msgh =
    let header = (msgh.msg_controllen + msgh.msg_namelen + out_size) % 2 ^ 64 in
    if is_neg buf_len || ltb (u64 buf_len) header then none else some buf

-- `io_uring_recvmsg_name`
unfoldable pub recvmsg_name : (o : ℕ) → ℕ
recvmsg_name o = o + out_size

-- `io_uring_recvmsg_cmsg_firsthdr`; `out` is what `*o` holds.
unfoldable pub recvmsg_cmsg_firsthdr : (o : ℕ) → RecvmsgOut → MsgHdr → Option ℕ
unfolding recvmsg_name
recvmsg_cmsg_firsthdr o out msgh =
    if ltb out.controllen cmsg_size then none else some (recvmsg_name o + msgh.msg_namelen)

-- A pointer, 0 for NULL.
abbrev pub pointer : Option ℕ → ℕ
pointer none = 0
pointer (some p) = p

-- `io_uring_recvmsg_cmsg_nexthdr`: `align` is CMSG_ALIGN of the C library, and `cmsg_len` is the field of
-- the header at an address.
module _ (align : ℕ → ℕ) (cmsg_len : ℕ → ℕ) (o : ℕ) (out : RecvmsgOut) (msgh : MsgHdr) where
  unfoldable pub recvmsg_cmsg_nexthdr : (cmsg : ℕ) → Option ℕ
  recvmsg_cmsg_nexthdr cmsg =
      let end = pointer (recvmsg_cmsg_firsthdr o out msgh) + out.controllen in
      let next = cmsg + align (cmsg_len cmsg) in
      if ltb (cmsg_len cmsg) cmsg_size
      then none
      else if ltb end (next + cmsg_size)
      then none
      else if ltb end (next + align (cmsg_len next))
      then none
      else some next

-- `io_uring_recvmsg_payload`
unfoldable pub recvmsg_payload : (o : ℕ) → MsgHdr → ℕ
unfolding recvmsg_name
recvmsg_payload o msgh = recvmsg_name o + msgh.msg_namelen + msgh.msg_controllen

-- `io_uring_recvmsg_payload_length`
unfoldable pub recvmsg_payload_length : (o : ℕ) (buf_len : ℤ) → MsgHdr → ℕ
unfolding recvmsg_payload
recvmsg_payload_length o buf_len msgh =
    sub64 ((o + u64 buf_len) % 2 ^ 64) (recvmsg_payload o msgh) % 2 ^ 32
