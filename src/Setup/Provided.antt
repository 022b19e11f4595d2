-- ===== src/Setup/Provided.antt =====
-- src/setup.c: making and freeing a ring of provided buffers.
pub mod Balance
use liburing.Common.{
  ℕ, ◌*◌, ◌%◌, ◌^◌, ◌==◌, Bool, Option, none, some, List, ◌∷◌, if◌then◌else◌, bit_or,
}
use liburing.Common.Int.{ℤ, pos, neg, is_nonzero, wrap, u64}
use liburing.Ring.{Ring}
use liburing.Sys.{RegArg, Call, Calls, Os, MapKind, is_err, ptr_err, mapped_at}
use liburing.Register.Resources.{register_buf_ring, unregister_buf_ring}
use liburing.BufRing.{BufRing, buf_ring_init}

-- `struct io_uring_buf` has 16 bytes.
abbrev pub buf_bytes : (nentries : ℕ) → ℕ
buf_bytes nentries = nentries * 16

abbrev pub buf_map : (nentries : ℕ) → Call
buf_map nentries = Call.mmap (buf_bytes nentries) MapKind.private_anonymous (neg 1) 0

module _ (os : Os) (r : Ring) (nentries : ℕ) (bgid : ℤ) where
  -- `br_setup`, where the application makes the memory: what it stores in `*ret`, and the pointer that it
  -- returns, 0 for NULL. `reg.bgid` is 16 bits wide.
  unfoldable pub br_setup : Calls → ℤ × ℕ × Calls
  br_setup t =
      let br = mapped_at os t (buf_map nentries) in
      let t' = buf_map nentries ∷ t in
      let (lret, t'') = register_buf_ring os t' r (RegArg.buf_reg br nentries (wrap 16 bgid)) in
      if is_err br
      then (ptr_err br, 0, t')
      else if is_nonzero lret
      then (lret, 0, Call.munmap br (buf_bytes nentries) ∷ t'')
      else (pos 0, br, t'')

  -- The mapping of the kernel's memory for the buffer group; `bgid` is extended with its sign.
  abbrev pub pbuf_map : Call
  pbuf_map =
      let off = bit_or (2 ^ 31) (u64 bgid * 2 ^ 16 % 2 ^ 64) in
      Call.mmap (buf_bytes nentries) MapKind.shared_populate r.ring_fd off

  -- `br_setup` for HPPA, where the kernel makes the memory
  unfoldable pub br_setup_hppa : Calls → ℤ × ℕ × Calls
  br_setup_hppa t =
      let (lret, t') = register_buf_ring os t r (RegArg.buf_reg_mmap nentries (wrap 16 bgid)) in
      let br = mapped_at os t' pbuf_map in
      if is_nonzero lret
      then (lret, 0, t')
      else if is_err br
      then (ptr_err br, 0, pbuf_map ∷ t')
      else (pos 0, br, pbuf_map ∷ t')

  -- `io_uring_setup_buf_ring`; `at` is what the memory at a pointer holds.
  unfoldable pub setup_buf_ring : (at : ℕ → BufRing) → Calls → ℤ × ℕ × Option BufRing × Calls
  setup_buf_ring at t =
      let (ret, br, t') = br_setup t in
      (ret, br, if br == 0 then none else some (buf_ring_init (at br)), t')

  -- `io_uring_free_buf_ring`
  unfoldable pub free_buf_ring : (br : ℕ) → Calls → ℤ × Calls
  free_buf_ring br t =
      let (ret, t') = unregister_buf_ring os t r bgid in
      if is_nonzero ret then (ret, t') else (pos 0, Call.munmap br (buf_bytes nentries) ∷ t')
