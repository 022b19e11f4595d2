-- ===== src/Setup/Provided/Balance.antt =====
-- What making and freeing a ring of provided buffers leaves mapped.
use liburing.Common.{
  ℕ, ◌≡◌, ◌≢◌, refl, ap, ◌∙◌, ◌⊎◌, inl, inr, true, ◌∷◌, Option, none, some, Bool-cases, ne→==, has,
  bit_or, arith,
}
use liburing.Common.Int.{ℤ, pos, negsuc, is_nonzero, wrap}
use liburing.Abi.IntFlag
use liburing.Abi.Register as Op
use liburing.Ring.{Ring}
use liburing.BufRing.{BufRing, buf_ring_init}
use liburing.Sys.{RegArg, Calls, Os, is_err, mapped_at}
use liburing.Sys.Resources.{
  regions, unmapped, unmapped-same, IsFresh, ptr_err-neg, nonzero_of_neg, munmap-regions,
  register-regions,
}
use liburing.Register.{register_call, register_ret, do_register}
use liburing.Register.Resources.{register_buf_ring, unregister_buf_ring}
use liburing.Setup.Map.Balance.{region, word-lt, regions-failed, regions-mapped}
use liburing.Setup.Provided.{buf_bytes, buf_map, br_setup, setup_buf_ring, free_buf_ring}

-- How making the ring ends: with an error, no ring, and nothing mapped, or with a ring that is mapped and empty.
pub record BufOutcome (page : ℕ) (os : Os) (nentries : ℕ) (t : Calls) (ret : ℤ) (br : ℕ)
    (ring : Option BufRing) (t' : Calls) : Type 0 where
  pub ends :
      ((is_nonzero ret ≡ true)
        × (br ≡ 0)
        × (ring ≡ none)
        × (regions page os t' ≡ regions page os t))
      ⊎ ((ret ≡ pos 0)
          × (br ≢ 0)
          × ((b : BufRing) × (ring ≡ some b) × (b.tail ≡ 0))
          × (regions page os t' ≡ region br (buf_bytes nentries) ∷ regions page os t))

module _ (page : ℕ) (os : Os) (r : Ring) where
  -- A call through `do_register` maps nothing.
  register_call-regions :
      (opcode : ℕ) (arg : RegArg) (nr : ℕ) (t : Calls)
      → regions page os (register_call r opcode arg nr ∷ t) ≡ regions page os t
  register_call-regions opcode arg nr t = elim (Bool-cases (has r.int_flags IntFlag.reg_reg_ring)) [
    | inl e ↦
        rw e
          (register-regions page os r.enter_ring_fd (bit_or opcode Op.use_registered_ring) arg nr t)
    | inr e ↦ rw e (register-regions page os r.ring_fd opcode arg nr t)
  ]

  register_buf_ring-regions :
      (t : Calls) (reg : RegArg)
      → regions page os (register_buf_ring os t r reg).1 ≡ regions page os t
  unfolding register_buf_ring register_ret do_register
  register_buf_ring-regions t reg = register_call-regions Op.register_pbuf_ring reg 1 t

  unregister_buf_ring-regions :
      (t : Calls) (bgid : ℤ)
      → regions page os (unregister_buf_ring os t r bgid).1 ≡ regions page os t
  unfolding unregister_buf_ring register_ret do_register
  unregister_buf_ring-regions t bgid =
      register_call-regions Op.unregister_pbuf_ring (RegArg.buf_reg 0 0 (wrap 16 bgid)) 1 t

failed_not : (z : ℤ) → is_nonzero z ≡ true → z ≡ pos 0 → ⊥
failed_not (pos n) h e = ground (arith, h, e)
failed_not (negsuc n) h e = cc

module _ {page : ℕ} {os : Os} (fresh : IsFresh page os) (r : Ring) (nentries : ℕ) (bgid : ℤ) where
  -- On an operating system that maps at fresh addresses, `io_uring_setup_buf_ring` either stores
  -- an error, returns NULL and leaves mapped what was mapped before, or stores 0 and returns a
  -- ring with tail 0, whose memory is the only new mapping.
  pub setup_buf_ring-BufOutcome :
      (at : ℕ → BufRing) (t : Calls)
      → BufOutcome page os nentries t
          (setup_buf_ring os r nentries bgid at t).0
          (setup_buf_ring os r nentries bgid at t).1
          (setup_buf_ring os r nentries bgid at t).2
          (setup_buf_ring os r nentries bgid at t).3
  unfolding setup_buf_ring br_setup buf_ring_init
  setup_buf_ring-BufOutcome at t =
      let br = mapped_at os t (buf_map nentries) in
      let t' : Calls = buf_map nentries ∷ t in
      let reg = RegArg.buf_reg br nentries (wrap 16 bgid) in
      let registered = register_buf_ring os t' r reg in
      elim (Bool-cases (is_err br)) [
        | inl bad ↦ rw bad (record {
          ends = inl (
            nonzero_of_neg _ (ptr_err-neg br (word-lt os t (buf_map nentries)) bad),
            refl,
            refl,
            regions-failed page os t _ _ _ _ bad,
          );
        })
        | inr good ↦
            let more =
              register_buf_ring-regions page os r t' reg ∙ regions-mapped page os t _ _ _ _ good in
            let some_br = fresh.nonzero t _ _ _ _ good in
            elim (Bool-cases (is_nonzero registered.0)) [
              | inl fails ↦
                  rw (good, fails)
                    (record {
                      ends = inl (
                        fails,
                        refl,
                        refl,
                        munmap-regions page os br (buf_bytes nentries) registered.1
                            ∙ ap (unmapped page br (buf_bytes nentries)) more
                            ∙ unmapped-same page br (buf_bytes nentries) (regions page os t),
                      );
                    })
              | inr works ↦
                  rw (good, works, ne→== br 0 some_br)
                    (record { ends = inr (refl, some_br, (_, refl, refl), more) })
            ]
      ]

  -- On an operating system that maps at fresh addresses, where `io_uring_setup_buf_ring` stores
  -- 0 and `io_uring_free_buf_ring` returns 0 for the ring that it has made, what is mapped is
  -- what was mapped before.
  pub free_buf_ring-restores :
      (at : ℕ → BufRing) (t : Calls)
      → (setup_buf_ring os r nentries bgid at t).0 ≡ pos 0
      → (free_buf_ring os r nentries bgid
          (setup_buf_ring os r nentries bgid at t).1
          (setup_buf_ring os r nentries bgid at t).3).0
        ≡ pos 0
      → regions page os
          (free_buf_ring os r nentries bgid
            (setup_buf_ring os r nentries bgid at t).1
            (setup_buf_ring os r nentries bgid at t).3).1
        ≡ regions page os t
  unfolding free_buf_ring
  free_buf_ring-restores at t made freed =
      let (ret, br, ring, t') = setup_buf_ring os r nentries bgid at t in
      let unregistered = unregister_buf_ring os t' r bgid in
      elim (setup_buf_ring-BufOutcome at t).ends [
        | inl (bad, null, no_ring, rest) ↦ absurd (failed_not (ret) bad made)
        | inr (good, there, made_ring, rs) ↦ elim (Bool-cases (is_nonzero unregistered.0)) [
          | inl fails ↦ absurd (failed_not unregistered.0 fails (rw fails at freed))
          | inr works ↦ rw works (
              munmap-regions page os br (buf_bytes nentries) unregistered.1
              ∙ ap (unmapped page br (buf_bytes nentries))
                  (unregister_buf_ring-regions page os r t' bgid ∙ rs)
              ∙ unmapped-same page br (buf_bytes nentries) (regions page os t))
        ]
      ]
