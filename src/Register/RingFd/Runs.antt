-- ===== src/Register/RingFd/Runs.antt =====
-- Registering, unregistering and closing the ring's descriptor in any order.
use liburing.Common.{
  ℕ, ◌^◌, ◌-◌, ◌≡◌, refl, true, false, arith, Bool, not, ◌&&◌, ◌⊎◌, has, has-bit_or, bit_or,
  Bool-cases, sym, ◌∙◌, inl, inr,
}
use liburing.Common.Int.{pos, u32, u64}
use liburing.Abi.IntFlag
use liburing.Abi.Register as Op
use liburing.Ring.{Ring}
use liburing.Sys.{RegArg, Calls, Os}
use liburing.Register.{register_call}
use liburing.Register.RingFd.{
  registered, unregistered, update_offset, register_ring_fd, unregister_ring_fd, close_ring_fd,
}
use liburing.Register.RingFd.Inv.{
  IsFd, unregistered-flags, register_ring_fd-IsFd, unregister_ring_fd-IsFd, close_ring_fd-IsFd,
}

-- Calls of the three functions, whatever was called and answered before each.
pub data FdRun (os : Os) (r : Ring) : Ring → Type 0 where
  start : FdRun os r r
  register : {s : Ring} (t : Calls) → FdRun os r s → FdRun os r (register_ring_fd os t s).1
  unregister : {s : Ring} (t : Calls) → FdRun os r s → FdRun os r (unregister_ring_fd os t s).1
  close : {s : Ring} (t : Calls) → FdRun os r s → FdRun os r (close_ring_fd os t s).1

-- `io_uring_register_ring_fd`, `io_uring_unregister_ring_fd` and `io_uring_close_ring_fd`,
-- called any number of times in any order, keep the descriptor's invariant, whatever the kernel
-- answers.
pub FdRun-IsFd : {os : Os} {r s : Ring} → IsFd r → FdRun os r s → IsFd s
FdRun-IsFd v start = v
FdRun-IsFd {os} v (register t run) = register_ring_fd-IsFd os t (FdRun-IsFd v run)
FdRun-IsFd {os} v (unregister t run) = unregister_ring_fd-IsFd os t (FdRun-IsFd v run)
FdRun-IsFd {os} v (close t run) = close_ring_fd-IsFd os t (FdRun-IsFd v run)

-- The descriptors and flags of two rings agree.
pub record IsSameFd (r s : Ring) : Type 0 where
  pub enter : s.enter_ring_fd ≡ r.enter_ring_fd
  pub own : s.ring_fd ≡ r.ring_fd
  pub reg : has s.int_flags IntFlag.reg_ring ≡ has r.int_flags IntFlag.reg_ring
  pub reg_reg : has s.int_flags IntFlag.reg_reg_ring ≡ has r.int_flags IntFlag.reg_reg_ring
  pub app_mem : has s.int_flags IntFlag.app_mem ≡ has r.int_flags IntFlag.app_mem

-- What a success of either function means
module _ (os : Os) (t : Calls) (r : Ring) where
  register_ring_fd-done :
      (register_ring_fd os t r).0 ≡ pos 1
      → (has r.int_flags IntFlag.reg_ring ≡ false)
        × ((offset : ℕ) × ((register_ring_fd os t r).1 ≡ registered r offset))
  unfolding register_ring_fd
  register_ring_fd-done done = elim (Bool-cases (has r.int_flags IntFlag.reg_ring)) [
    | inl e ↦ absurd (ground (arith, rw e at done))
    | inr e ↦
        let call =
          register_call r Op.register_ring_fds (RegArg.rsrc_update (2 ^ 32 - 1) (u64 r.ring_fd))
            1 in
        let ret : (os t call).ret ≡ pos 1 = rw e at done in
        (e, (update_offset (os t call).arg, rw (e, ret) refl))
  ]

  unregister_ring_fd-done :
      (unregister_ring_fd os t r).0 ≡ pos 1 → (unregister_ring_fd os t r).1 ≡ unregistered r
  unfolding unregister_ring_fd
  unregister_ring_fd-done done = elim (Bool-cases (has r.int_flags IntFlag.reg_ring)) [
    | inr e ↦ absurd (ground (arith, rw e at done))
    | inl e ↦
        let call =
          register_call r Op.unregister_ring_fds (RegArg.rsrc_update (u32 r.enter_ring_fd) 0) 1 in
        let ret : (os t call).ret ≡ pos 1 = rw e at done in rw (e, ret) refl
  ]

neither : {a b : Bool} → (a && not b) ≡ false → b ≡ false → a ≡ false
neither {a = true} {b} e f = absurd (ground (arith, e, f))
neither {a = false} e f = refl

registered_app_mem :
    (r : Ring) (offset : ℕ)
    → has (registered r offset).int_flags IntFlag.app_mem ≡ has r.int_flags IntFlag.app_mem
unfolding has
registered_app_mem r offset =
    ground (arith, has-bit_or r.int_flags 1 2, has-bit_or (bit_or r.int_flags 1) 2 2)

unregistered-registered :
    (r : Ring) (offset : ℕ)
    → IsFd r
    → has r.int_flags IntFlag.reg_ring ≡ false
    → r.enter_ring_fd ≡ r.ring_fd
    → IsSameFd r (unregistered (registered r offset))
unregistered-registered r offset v e same =
    let (clear, both, app) = unregistered-flags (registered r offset) in
    record {
      enter = sym same;
      own = refl;
      reg = clear ∙ sym e;
      reg_reg = both ∙ sym (neither v.above e);
      app_mem = app ∙ registered_app_mem r offset;
    }

-- Where a ring's descriptor is in order, `io_uring_register_ring_fd` returns 1 and then
-- `io_uring_unregister_ring_fd`, on the ring as the first has left it and after any system
-- calls, returns 1: the descriptors of the ring and its flags on them are what they were.
pub unregister_ring_fd-restores :
    (os : Os) (t t' : Calls) {r : Ring}
    → IsFd r
    → (register_ring_fd os t r).0 ≡ pos 1
    → (unregister_ring_fd os t' (register_ring_fd os t r).1).0 ≡ pos 1
    → IsSameFd r (unregister_ring_fd os t' (register_ring_fd os t r).1).1
unregister_ring_fd-restores os t t' {r} v made undone =
    let (e, (offset, known)) = register_ring_fd-done os t r made in
    let back = unregister_ring_fd-done os t' (register_ring_fd os t r).1 undone in
    rw (back, known) (unregistered-registered r offset v e (own_fd v.plain e))
  where
    own_fd :
        ((has r.int_flags IntFlag.reg_ring ≡ true) ⊎ (r.enter_ring_fd ≡ r.ring_fd))
        → has r.int_flags IntFlag.reg_ring ≡ false
        → r.enter_ring_fd ≡ r.ring_fd
    own_fd (inl set) e = cc
    own_fd (inr same) e = same
