-- ===== src/Register/RingFd/Inv.antt =====
-- The ring's descriptor through registering, unregistering and closing.
use liburing.Common.{
  ℕ, ◌^◌, ◌-◌, ◌∷◌, ◌≡◌, refl, true, false, ◌||◌, arith, Bool, not, ◌&&◌, ◌⊎◌, has, bit_or,
  has-bit_or, has-bit_and, Bool-cases, ap, sym, ◌∙◌, inl, inr,
}
use liburing.Common.Int.{ℤ, pos, neg, eqb, u32, u64}
use liburing.Abi.Feat
use liburing.Abi.IntFlag
use liburing.Abi.Register as Op
use liburing.Ring.{Ring}
use liburing.Sys.{RegArg, Call, Calls, Os}
use liburing.Register.{register_call}
use liburing.Register.RingFd.{
  registered, unregistered, register_ring_fd, unregister_ring_fd, close_ring_fd,
}

-- Without a registered descriptor the ring is entered by its own one; the library's second flag comes
-- with the first, and wherever the kernel has the feature.
pub record IsFd (r : Ring) : Type 0 where
  pub plain : (has r.int_flags IntFlag.reg_ring ≡ true) ⊎ (r.enter_ring_fd ≡ r.ring_fd)
  pub above :
      (has r.int_flags IntFlag.reg_reg_ring && not (has r.int_flags IntFlag.reg_ring)) ≡ false
  pub feature :
      (has r.int_flags IntFlag.reg_ring
        && has r.features Feat.reg_reg_ring
        && not (has r.int_flags IntFlag.reg_reg_ring))
      ≡ false

all_three : {a b c : Bool} → a ≡ true → b ≡ true → (a && b && not c) ≡ false → c ≡ true
all_three {c = true} ea eb e = refl
all_three {c = false} ea eb e = ground (arith, ea, eb)

and-false : (b : Bool) → (b && false) ≡ false
and-false true = refl
and-false false = refl

absorbed : (a b : Bool) → (a && not (b || a)) ≡ false
absorbed true true = refl
absorbed true false = refl
absorbed false b = refl

module _ (r : Ring) where
  pub registered-flags :
      (offset : ℕ)
      → (has (registered r offset).int_flags IntFlag.reg_ring ≡ true)
        × (has (registered r offset).int_flags IntFlag.reg_reg_ring
            ≡ (has r.int_flags IntFlag.reg_reg_ring || has r.features Feat.reg_reg_ring))
  unfolding has
  registered-flags offset = ground (
    arith,
    has-bit_or r.int_flags 1 0,
    has-bit_or r.int_flags 1 1,
    has-bit_or (bit_or r.int_flags 1) 2 0,
    has-bit_or (bit_or r.int_flags 1) 2 1,
  )

  pub unregistered-flags :
      (has (unregistered r).int_flags IntFlag.reg_ring ≡ false)
      × (has (unregistered r).int_flags IntFlag.reg_reg_ring ≡ false)
      × (has (unregistered r).int_flags IntFlag.app_mem ≡ has r.int_flags IntFlag.app_mem)
  unfolding has
  unregistered-flags = ground (
    arith,
    has-bit_and r.int_flags 252 0,
    has-bit_and r.int_flags 252 1,
    has-bit_and r.int_flags 252 2,
  )

module _ (r : Ring) where
  registered-IsFd : IsFd r → (offset : ℕ) → IsFd (registered r offset)
  registered-IsFd v offset =
      let (set, both) = registered-flags r offset in
      record {
        plain = inl set;
        above = rw set (and-false _);
        feature = rw (set, both) (absorbed (has r.features Feat.reg_reg_ring) _);
      }

  unregistered-IsFd : IsFd (unregistered r)
  unregistered-IsFd =
      let (clear, both, _) = unregistered-flags r in
      record {
        plain = inr refl;
        above = ap (λ b. b && not (has (unregistered r).int_flags IntFlag.reg_ring)) both;
        feature =
            ap
              (λ b.
                b
                && has r.features Feat.reg_reg_ring
                && not (has (unregistered r).int_flags IntFlag.reg_reg_ring))
              clear;
      }

  closed-IsFd :
      IsFd r → has r.int_flags IntFlag.reg_ring ≡ true → IsFd (record r { ring_fd = neg 1 })
  closed-IsFd v e = record { plain = inl e; above = v.above; feature = v.feature }

module _ (os : Os) (t : Calls) {r : Ring} (v : IsFd r) where
  -- `io_uring_register_ring_fd` keeps the descriptor's invariant, whatever the kernel answers.
  pub register_ring_fd-IsFd : IsFd (register_ring_fd os t r).1
  unfolding register_ring_fd
  register_ring_fd-IsFd = elim (Bool-cases (has r.int_flags IntFlag.reg_ring)) [
    | inl e ↦ rw e v
    | inr e ↦
        elim (Bool-cases (
          eqb
            (os t (
              register_call r Op.register_ring_fds (RegArg.rsrc_update (2 ^ 32 - 1) (u64 r.ring_fd))
                1)).ret
            (pos 1))) [ inl g ↦ rw (e, g) (registered-IsFd r v _) | inr g ↦ rw (e, g) v ]
  ]

  -- `io_uring_unregister_ring_fd` keeps the descriptor's invariant, whatever the kernel answers.
  pub unregister_ring_fd-IsFd : IsFd (unregister_ring_fd os t r).1
  unfolding unregister_ring_fd
  unregister_ring_fd-IsFd = elim (Bool-cases (has r.int_flags IntFlag.reg_ring)) [
    | inr e ↦ rw e v
    | inl e ↦
        elim (Bool-cases (
          eqb
            (os t (
              register_call r Op.unregister_ring_fds (RegArg.rsrc_update (u32 r.enter_ring_fd) 0)
                1)).ret
            (pos 1))) [ inl g ↦ rw (e, g) (unregistered-IsFd r) | inr g ↦ rw (e, g) v ]
  ]

  -- `io_uring_close_ring_fd` keeps the descriptor's invariant, whether it succeeds or fails.
  pub close_ring_fd-IsFd : IsFd (close_ring_fd os t r).1
  unfolding close_ring_fd
  close_ring_fd-IsFd = elim (Bool-cases (has r.features Feat.reg_reg_ring)) [
    | inr a ↦ rw a v
    | inl a ↦ elim (Bool-cases (has r.int_flags IntFlag.reg_ring)) [
      | inr e ↦ rw (a, e) v
      | inl e ↦ elim (Bool-cases (eqb r.ring_fd (neg 1))) [
        | inl g ↦ rw (a, e, g) v
        | inr g ↦ rw (a, e, g) (closed-IsFd r v e)
      ]
    ]
  ]

  -- From a ring whose descriptor is in order, where `io_uring_close_ring_fd` returns 1 it has
  -- closed the ring's own descriptor and forgotten it, and a later `do_register` goes through
  -- the registered one.
  pub close_reaches :
      {r' : Ring} {t' : Calls} (opcode : ℕ) (arg : RegArg) (nr_args : ℕ)
      → close_ring_fd os t r ≡ (pos 1, r', t')
      → (t' ≡ Call.close r.ring_fd ∷ t)
        × (r'.ring_fd ≡ neg 1)
        × (register_call r' opcode arg nr_args
            ≡ Call.register r.enter_ring_fd (bit_or opcode Op.use_registered_ring) arg nr_args)
  unfolding close_ring_fd
  close_reaches {r'} {t'} opcode arg nr_args e =
      elim (Bool-cases (has r.features Feat.reg_reg_ring)) [
        | inr a ↦ absurd (ground (arith, rw a at e))
        | inl a ↦ elim (Bool-cases (has r.int_flags IntFlag.reg_ring)) [
          | inr b ↦ absurd (ground (arith, rw (a, b) at e))
          | inl b ↦ elim (Bool-cases (eqb r.ring_fd (neg 1))) [
            | inl c ↦ absurd (ground (arith, rw (a, b, c) at e))
            | inr c ↦
                let f = rw (a, b, c) at e in
                let ring = ap (λ (x : ℤ × Ring × Calls). x.1) f in
                (
                  sym (ap (λ (x : ℤ × Ring × Calls). x.2) f),
                  sym (ap (λ (x : Ring). x.ring_fd) ring),
                  ap (λ x. register_call x opcode arg nr_args) (sym ring)
                      ∙ rw
                          (let c : has r.int_flags IntFlag.reg_reg_ring ≡ true =
                              all_three b a v.feature in
                            c)
                          refl,
                )
          ]
        ]
      ]
