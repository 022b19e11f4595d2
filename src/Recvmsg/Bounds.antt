-- ===== src/Recvmsg/Bounds.antt =====
-- The parts of a received message lie in the buffer, and the walk through its control messages ends.
use liburing.Common.{
  ℕ, suc, ◌+◌, ◌*◌, ◌^◌, ◌%◌, ◌≤◌, ◌<◌, ◌≡◌, sym, inl, inr, some, ltb, Bool-cases, arith,
}
use mathlib.Core.Option.{some-injective, none-ne-some}
use liburing.Common.Int.{pos}
use liburing.Recvmsg.{
  RecvmsgOut, MsgHdr, out_size, cmsg_size, recvmsg_validate, recvmsg_name, recvmsg_cmsg_firsthdr,
  recvmsg_cmsg_nexthdr, recvmsg_payload, recvmsg_payload_length,
}

-- Where `io_uring_recvmsg_validate` accepts a buffer of fewer than 2^31 bytes that ends below
-- 2^64, and the lengths of the name and the control area do not wrap together, it returns the
-- buffer, name and control area end within it, and the payload has exactly the length that
-- `io_uring_recvmsg_payload_length` returns up to the buffer's end.
pub recvmsg_validate-payload :
    (buf n : ℕ) (msgh : MsgHdr) {o : ℕ}
    → buf + n < 2 ^ 64
    → n < 2 ^ 31
    → msgh.msg_controllen + msgh.msg_namelen + out_size < 2 ^ 64
    → recvmsg_validate buf (pos n) msgh ≡ some o
    → (o ≡ buf)
      × (recvmsg_name o + msgh.msg_namelen + msgh.msg_controllen ≤ buf + n)
      × (recvmsg_payload o msgh + recvmsg_payload_length o (pos n) msgh ≡ buf + n)
unfolding recvmsg_validate recvmsg_payload recvmsg_payload_length recvmsg_name
recvmsg_validate-payload buf n msgh {o} fits small whole valid =
    elim (Bool-cases
      (ltb (n % 2 ^ 64) ((msgh.msg_controllen + msgh.msg_namelen + out_size) % 2 ^ 64))) [
        | inl e ↦ absurd (none-ne-some o (rw e at valid))
        | inr e ↦
            let same : buf ≡ o = some-injective _ _ (rw e at valid) in
            (
              sym same,
              rw (sym same) (ground (arith, fits, small, whole, e)),
              rw (sym same) (ground (arith, fits, small, whole, e)),
            )
      ]

module _ (align : ℕ → ℕ) (cmsg_len : ℕ → ℕ) (o : ℕ) (out : RecvmsgOut) (msgh : MsgHdr) where
  -- Going from header to header, so many times
  pub data Walk (first : ℕ) : ℕ → ℕ → Type 0 where
    start : Walk first 0 first
    step :
        {n cmsg next : ℕ}
        → Walk first n cmsg
        → recvmsg_cmsg_nexthdr align cmsg_len o out msgh cmsg ≡ some next
        → Walk first (suc n) next

  -- The first header is in the control area.
  firsthdr-bounds :
      {first : ℕ} → recvmsg_cmsg_firsthdr o out msgh ≡ some first → cmsg_size ≤ out.controllen
  unfolding recvmsg_cmsg_firsthdr
  firsthdr-bounds {first} is_first = elim (Bool-cases (ltb out.controllen cmsg_size)) [
    | inl e ↦ absurd (none-ne-some first (rw e at is_first))
    | inr e ↦ ground (arith, e)
  ]

module _ (align : ℕ → ℕ) (cmsg_len : ℕ → ℕ) (rounds_up : (n : ℕ) → n < 2 ^ 32 → n ≤ align n)
    (short : (cmsg : ℕ) → cmsg_len cmsg < 2 ^ 32) (o : ℕ) (out : RecvmsgOut) (msgh : MsgHdr) where
  -- One step goes on by at least a header, and both the header and its data end in the control area.
  nexthdr-bounds :
      {first : ℕ} (cmsg next : ℕ)
      → recvmsg_cmsg_firsthdr o out msgh ≡ some first
      → recvmsg_cmsg_nexthdr align cmsg_len o out msgh cmsg ≡ some next
      → (cmsg + cmsg_size ≤ next)
        × (next + cmsg_size ≤ first + out.controllen)
        × (next + align (cmsg_len next) ≤ first + out.controllen)
  unfolding recvmsg_cmsg_nexthdr
  nexthdr-bounds {first} cmsg next is_first is_next =
      let there = cmsg + align (cmsg_len cmsg) in
      let end = first + out.controllen in
      let up = rounds_up (cmsg_len cmsg) (short cmsg) in
      elim (Bool-cases (ltb (cmsg_len cmsg) cmsg_size)) [
        | inl a ↦ absurd (none-ne-some next (rw (is_first, a) at is_next))
        | inr a ↦ elim (Bool-cases (ltb end (there + cmsg_size))) [
          | inl b ↦ absurd (none-ne-some next (rw (is_first, a, b) at is_next))
          | inr b ↦ elim (Bool-cases (ltb end (there + align (cmsg_len there)))) [
            | inl c ↦ absurd (none-ne-some next (rw (is_first, a, b, c) at is_next))
            | inr c ↦
                let same : there ≡ next = some-injective _ _ (rw (is_first, a, b, c) at is_next) in
                rw (sym same) (ground (arith, a, up), ground (arith, b), ground (arith, c))
          ]
        ]
      ]

  -- Where there is a first control message, lengths are below 2^32 and CMSG_ALIGN does not round
  -- those down: the header that `io_uring_recvmsg_cmsg_nexthdr` reaches in its n-th step lies at
  -- least n headers after the first one and ends within the control area, so that the walk ends
  -- after at most as many steps as headers fit.
  pub Walk-bounds :
      {first n cmsg : ℕ}
      → recvmsg_cmsg_firsthdr o out msgh ≡ some first
      → Walk align cmsg_len o out msgh first n cmsg
      → (first + cmsg_size * n ≤ cmsg) × (cmsg + cmsg_size ≤ first + out.controllen)
  Walk-bounds is_first start =
      (omega arith, omega (arith, firsthdr-bounds align cmsg_len o out msgh is_first))
  Walk-bounds {first} is_first (step {n} {cmsg} {next} walk is_next) =
      let before = Walk-bounds is_first walk in
      let (on, inside, whole) = nexthdr-bounds cmsg next is_first is_next in
      (omega (arith, before.0, on), inside)
