-- ===== src/Register/RingFd.antt =====
-- The ring's own descriptor: registering, unregistering and closing it (src/register.c).
pub mod Inv
pub mod Runs
use liburing.Common.{ℕ, ◌-◌, ◌^◌, ◌∷◌, Bool, true, false, not, if◌then◌else◌, has, bit_and, bit_or}
use liburing.Common.Int.{ℤ, pos, negsuc, neg, eqb, u32, u64, s32}
use liburing.Abi.Errno
use liburing.Abi.Feat
use liburing.Abi.IntFlag
use liburing.Abi.Register as Op
use liburing.Ring.{Ring}
use liburing.Sys.{RegArg, Call, Calls, Reply, Os}
use liburing.Register.{do_register}

-- `up.offset` of what the kernel has written
abbrev pub update_offset : RegArg → ℕ
update_offset (RegArg.rsrc_update offset payload) = offset
update_offset _ = 0

-- What a successful registration does to the ring.
abbrev pub registered : Ring → (offset : ℕ) → Ring
registered r offset = record r {
  enter_ring_fd = s32 offset;
  int_flags =
      if has r.features Feat.reg_reg_ring
      then bit_or (bit_or r.int_flags IntFlag.reg_ring) IntFlag.reg_reg_ring
      else bit_or r.int_flags IntFlag.reg_ring;
}

-- `int_flags &= ~(INT_FLAG_REG_RING | INT_FLAG_REG_REG_RING)`, on eight bits
abbrev pub unregistered : Ring → Ring
unregistered r = record r {
  enter_ring_fd = r.ring_fd;
  int_flags = bit_and r.int_flags (2 ^ 8 - 1 - bit_or IntFlag.reg_ring IntFlag.reg_reg_ring);
}

module _ (os : Os) (t : Calls) (r : Ring) where
  -- `io_uring_register_ring_fd`
  unfoldable pub register_ring_fd : ℤ × Ring × Calls
  unfolding do_register
  register_ring_fd =
      if has r.int_flags IntFlag.reg_ring
      then (neg Errno.eexist, r, t)
      else let up = RegArg.rsrc_update (2 ^ 32 - 1) (u64 r.ring_fd) in
        let (reply, t') = do_register os t r Op.register_ring_fds up 1 in
        (reply.ret, if eqb reply.ret (pos 1) then registered r (update_offset reply.arg) else r, t')

  -- `io_uring_unregister_ring_fd`
  unfoldable pub unregister_ring_fd : ℤ × Ring × Calls
  unfolding do_register
  unregister_ring_fd =
      if not (has r.int_flags IntFlag.reg_ring)
      then (neg Errno.einval, r, t)
      else let up = RegArg.rsrc_update (u32 r.enter_ring_fd) 0 in
        let (reply, t') = do_register os t r Op.unregister_ring_fds up 1 in
        (reply.ret, if eqb reply.ret (pos 1) then unregistered r else r, t')

  -- `io_uring_close_ring_fd`
  unfoldable pub close_ring_fd : ℤ × Ring × Calls
  close_ring_fd =
      if not (has r.features Feat.reg_reg_ring)
      then (neg Errno.eopnotsupp, r, t)
      else if not (has r.int_flags IntFlag.reg_ring)
      then (neg Errno.einval, r, t)
      else if eqb r.ring_fd (neg 1)
      then (neg Errno.ebadf, r, t)
      else (pos 1, record r { ring_fd = neg 1 }, Call.close r.ring_fd ∷ t)
