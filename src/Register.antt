-- ===== src/Register.antt =====
-- src/register.c: io_uring_register(2) and the calls around it. What the operating system answers is a parameter, which sees
-- the calls made before; each function returns the list of calls extended by its own, the last first.
pub mod Resources
pub mod RingFd
pub mod Retry
use liburing.Common.{
  ℕ, List, ◌∷◌, Bool, true, false, if◌then◌else◌, ltb, leb, ◌^◌, has, bit_or, add64,
}
use liburing.Common.Int.{ℤ, pos, neg, is_neg, is_nonzero}
use liburing.Abi.Register as Op
use liburing.Abi.IntFlag
use liburing.Ring.{Ring}
use liburing.Sys.{RegArg, Call, Calls, Reply, Os}

-- `do_register`
abbrev pub register_call : Ring → (opcode : ℕ) → RegArg → (nr_args : ℕ) → Call
register_call r opcode arg nr_args =
    if has r.int_flags IntFlag.reg_reg_ring
    then Call.register r.enter_ring_fd (bit_or opcode Op.use_registered_ring) arg nr_args
    else Call.register r.ring_fd opcode arg nr_args

module _ (os : Os) where
  unfoldable pub do_register : Calls → Ring → (opcode : ℕ) → RegArg → (nr_args : ℕ) → Reply × Calls
  do_register t r opcode arg nr_args =
      let call = register_call r opcode arg nr_args in (os t call, call ∷ t)

  -- The result alone, for the functions that read nothing back.
  unfoldable pub register_ret : Calls → Ring → (opcode : ℕ) → RegArg → (nr_args : ℕ) → ℤ × Calls
  unfolding do_register
  register_ret t r opcode arg nr_args =
      let (reply, t') = do_register t r opcode arg nr_args in (reply.ret, t')

  -- `increase_rlimit_nofile`
  unfoldable pub increase_rlimit_nofile : Calls → (nr : ℕ) → ℤ × Calls
  increase_rlimit_nofile t nr =
      let reply = os t Call.getrlimit in
      let t' : Calls = Call.getrlimit ∷ t in
      if is_neg reply.ret
      then (reply.ret, t')
      else if ltb reply.rlim_cur nr
      then (pos 0, Call.setrlimit (add64 reply.rlim_cur nr) ∷ t')
      else (pos 0, t')
