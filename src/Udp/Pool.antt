-- ===== src/Udp/Pool.antt =====
-- The buffers of examples/io_uring-udp.c: where they lie, and that the kernel holds them all at the start.
use liburing.Common.{
  ℕ, zero, suc, ◌+◌, ◌*◌, ◌%◌, ◌^◌, ◌≡◌, ◌<◌, ◌≤◌, refl, ap, sym, ◌∙◌, inl, inr, Bool-cases, true,
  ltb, some, List, [], ◌∷◌, length, arith,
}
use mathlib.Core.Path.{subst}
use mathlib.Core.Bool.{true≢false}
use native.Mathlib.Nat.{mul-le-mul, mul-le-mul_right, pow-le-pow_right}
use liburing.Common.Int.{pos, is_nonzero, s32, u64}
use liburing.Sys.{RegArg, Calls, Os}
use liburing.Register.Resources.{register_buf_ring}
use liburing.BufRing.{Buf, BufRing, buf_ring_mask, buf_ring_init, buf_ring_advance}
use liburing.BufRing.Available.{held}
use liburing.BufRing.Fifo.{contents, add_all, buf_ring_fifo}
use liburing.Udp.{Ctx, buffers, buffer_size, pool_size, get_buffer, add_buffers, setup_buffer_pool}

-- `n` buffers of the pool, from the number `i` on
unfoldable pub pool_from : (addr : ℕ → ℕ) (len n i : ℕ) → List Buf
pool_from addr len zero i = []
pool_from addr len (suc n) i =
    record { addr = addr i; len = len; bid = i } ∷ pool_from addr len n (suc i)

length-pool_from : (addr : ℕ → ℕ) (len n i : ℕ) → length (pool_from addr len n i) ≡ n
unfolding pool_from
length-pool_from addr len zero i = refl
length-pool_from addr len (suc n) i = ap suc (length-pool_from addr len n (suc i))

add_buffers-all :
    (ctx : Ctx) (n i : ℕ) (br : BufRing)
    → add_buffers ctx n i br
      ≡ add_all br (buf_ring_mask buffers) i (pool_from (get_buffer ctx) (buffer_size ctx) n i)
unfolding add_buffers pool_from
add_buffers-all ctx zero i br = refl
add_buffers-all ctx (suc n) i br = add_buffers-all ctx n (suc i) _

-- A ring of buffers in which all of a pool stand in order
abbrev pub IsFull : (addr : ℕ → ℕ) (len n : ℕ) → BufRing → Type 0
IsFull addr len n br = (held br 0 ≡ n) × (contents br.bufs n 0 n ≡ pool_from addr len n 0)

filled :
    (k : ℕ) (addr : ℕ → ℕ) (len : ℕ) (br : BufRing)
    → k ≤ 15
    → IsFull addr len (2 ^ k) (
        buf_ring_advance
          (add_all (buf_ring_init br) (buf_ring_mask (2 ^ k)) 0 (pool_from addr len (2 ^ k) 0))
          (2 ^ k))
unfolding buf_ring_init held
filled k addr len br narrow =
    let bs = pool_from addr len (2 ^ k) 0 in
    let count = length-pool_from addr len (2 ^ k) 0 in
    let br' = add_all (buf_ring_init br) (buf_ring_mask (2 ^ k)) 0 bs in
    let (number, order) =
      buf_ring_fifo k narrow (buf_ring_init br) 0 (omega arith) (omega arith) bs
        (omega (arith, count)) in
    let number' : held (buf_ring_advance br' (length bs)) 0 ≡ length bs = omega (arith, number) in
    subst
      (λ m.
        (held (buf_ring_advance br' m) 0 ≡ m)
        × (contents (buf_ring_advance br' m).bufs (2 ^ k) 0 m ≡ bs))
      count
      (
        number',
        ap (contents (buf_ring_advance br' (length bs)).bufs (2 ^ k) 0) (sym number') ∙ order,
      )

int_offset :
    (base x : ℕ) → x < 2 ^ 31 → base + x < 2 ^ 64 → (base + u64 (s32 x)) % 2 ^ 64 ≡ base + x
int_offset base x small fits =
    let word : x % 2 ^ 32 ≡ x = omega (arith, small) in
    let low : ltb x (2 ^ 31) ≡ true = ground arith in rw (word, low) (omega (arith, small, fits))

module _ (ctx : Ctx) (small : ctx.buf_shift ≤ 21)
    (fits : ctx.buffer_base + buffers * buffer_size ctx < 2 ^ 64) (idx : ℕ)
    (lt : idx < buffers) where
  size-eq : buffer_size ctx ≡ 2 ^ ctx.buf_shift
  size-eq =
      let size : 2 ^ ctx.buf_shift ≤ 2 ^ 21 = pow-le-pow_right {n = 2} (omega arith) small in
      omega (arith, size)

  next-le : idx * buffer_size ctx + buffer_size ctx ≤ buffers * buffer_size ctx
  next-le =
      let le : suc idx * buffer_size ctx ≤ buffers * buffer_size ctx =
        mul-le-mul_right (buffer_size ctx) (omega (arith, lt)) in
      let split : suc idx * buffer_size ctx ≡ idx * buffer_size ctx + buffer_size ctx =
        omega arith in
      omega (arith, le, split)

  get_buffer-eq : get_buffer ctx idx ≡ ctx.buffer_base + idx * buffer_size ctx
  unfolding get_buffer
  get_buffer-eq =
      let size : 2 ^ ctx.buf_shift ≤ 2 ^ 21 = pow-le-pow_right {n = 2} (omega arith) small in
      let most : idx * 2 ^ ctx.buf_shift ≤ 1023 * 2 ^ 21 =
        mul-le-mul {n₂ = 1023} (omega (arith, lt)) size in
      let same : idx * buffer_size ctx ≡ idx * 2 ^ ctx.buf_shift = ap (λ s. idx * s) size-eq in
      int_offset ctx.buffer_base (idx * 2 ^ ctx.buf_shift) (omega (arith, most))
        (omega (arith, next-le, fits, same))
      ∙ ap (λ x. ctx.buffer_base + x) (sym same)

-- What `setup_buffer_pool` leaves: a ring of all buffers, which lie one after the other behind it in the mapping.
pub record IsPool (mapped : ℕ) (ctx : Ctx) : Type 0 where
  pub full : IsFull (get_buffer ctx) (buffer_size ctx) buffers ctx.buf_ring
  pub behind :
      (idx : ℕ) → idx < buffers → get_buffer ctx idx ≡ mapped + 16 * buffers + idx * buffer_size ctx
  pub inside :
      (idx : ℕ) → idx < buffers → get_buffer ctx idx + buffer_size ctx ≤ mapped + pool_size ctx

-- For buffers of at most 2^21 bytes and a mapping that ends below 2^64, where
-- `setup_buffer_pool` of io_uring-udp returns 0 the ring of buffers holds all 1024 buffers in
-- order, each under its number, at its place behind the ring and inside the mapping.
pub setup_buffer_pool-IsPool :
    (os : Os) (t : Calls) (mapped : ℕ) (br : BufRing) (ctx : Ctx)
    → ctx.buf_shift ≤ 21
    → mapped + pool_size ctx < 2 ^ 64
    → (setup_buffer_pool os t (some mapped) br ctx).0 ≡ pos 0
    → IsPool mapped (setup_buffer_pool os t (some mapped) br ctx).1
unfolding setup_buffer_pool get_buffer
setup_buffer_pool-IsPool os t mapped br ctx small fits ok =
    let ret = (register_buf_ring os t ctx.ring (RegArg.buf_reg mapped buffers 0)).0 in
    elim (Bool-cases (is_nonzero ret)) [
      | inl bad ↦
          let z : ret ≡ pos 0 = rw bad at ok in absurd (true≢false (sym bad ∙ ap is_nonzero z))
      | inr fine ↦
          let ctx' : Ctx = record ctx {
            buf_ring = buf_ring_init br;
            buffer_base = mapped + 16 * buffers;
          } in
          let fits' : ctx'.buffer_base + buffers * buffer_size ctx' < 2 ^ 64 =
            omega (arith, fits) in
          rw fine record {
            full =
                subst
                  (λ r.
                    IsFull (get_buffer ctx') (buffer_size ctx') buffers
                      (buf_ring_advance r buffers))
                  (sym (add_buffers-all ctx' buffers 0 (buf_ring_init br)))
                  (filled 10 (get_buffer ctx') (buffer_size ctx') br (omega arith));
            behind = λ idx lt. get_buffer-eq ctx' small fits' idx lt;
            inside = λ idx lt.
                omega
                  (arith, get_buffer-eq ctx' small fits' idx lt, next-le ctx' small fits' idx lt);
          }
    ]
