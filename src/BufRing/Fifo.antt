-- ===== src/BufRing/Fifo.antt =====
-- Buffers added at the offsets 0, 1, … from the tail and then published are the next ones that the
-- kernel takes, in that order, and the buffers that it holds already are left alone.
use liburing.Common.{
  ℕ, bit_and, zero, suc, ◌+◌, ◌-◌, ◌%◌, ◌^◌, ◌≤◌, ◌<◌, ◌≡◌, ◌≢◌, refl, sym, ap, ◌∙◌, arith, List,
  [], ◌∷◌, ◌++◌, length, pow-dvd-pow, add-mod-ne_mod,
}
use mathlib.Core.Path.{ap₂}
use native.Mathlib.Nat.{mod-mod_of_dvd, pow-le-pow_right}
use liburing.Common.Bits.{bit_and-mask, pow-pos}
use liburing.Common.Window.{upd}
use liburing.BufRing.Available.{held}
use liburing.BufRing.{Buf, BufRing, buf_ring_mask, buf_ring_add, buf_ring_advance}

-- The `n` buffers from counter `h` on, of an array of `m`
abbrev pub contents : (ℕ → Buf) → (m h n : ℕ) → List Buf
contents f m h zero = []
contents f m h (suc n) = f (h % m) ∷ contents f m (suc h) n

-- `io_uring_buf_ring_add` for each of a list of buffers, counting the offset up from `at`
abbrev pub add_all : BufRing → (mask at : ℕ) → List Buf → BufRing
add_all br mask at [] = br
add_all br mask at (b ∷ bs) = add_all (buf_ring_add br b.addr b.len b.bid mask at) mask (suc at) bs

contents-upd :
    (f : ℕ → Buf) (m : ℕ) (b : Buf) (i h n : ℕ)
    → ((j : ℕ) → j < n → (h + j) % m ≢ i)
    → contents (upd f i b) m h n ≡ contents f m h n
contents-upd f m b i h zero out = refl
contents-upd f m b i h (suc n) out =
    let here : h % m ≢ i =
      λ e. out 0 (omega arith) (ap (λ x. x % m) (let z : h + 0 ≡ h = omega arith in z) ∙ e) in
    ap₂ ◌∷◌ (ground (arith, here)) (
      contents-upd f m b i (suc h) n λ j lt e.
        out (suc j) (omega arith)
          (ap (λ x. x % m) (let s : h + suc j ≡ suc h + j = omega arith in s) ∙ e))

upd-same : (f : ℕ → Buf) (i : ℕ) (v : Buf) (j : ℕ) → j ≡ i → upd f i v j ≡ v
upd-same f i v j e = ground (arith, e)

contents-snoc :
    (f : ℕ → Buf) (m h n : ℕ) → contents f m h (suc n) ≡ contents f m h n ++ f ((h + n) % m) ∷ []
contents-snoc f m h zero = ap (λ x. f (x % m) ∷ []) (omega arith)
contents-snoc f m h (suc n) =
    ap (λ l. f (h % m) ∷ l)
      (contents-snoc f m (suc h) n
        ∙ ap (λ x. contents f m (suc h) n ++ f (x % m) ∷ []) (omega arith))

append_nil : (l : List Buf) → l ++ [] ≡ l
append_nil [] = refl
append_nil (b ∷ l) = ap (λ t. b ∷ t) (append_nil l)

append_snoc : (l : List Buf) (b : Buf) (bs : List Buf) → (l ++ b ∷ []) ++ bs ≡ l ++ b ∷ bs
append_snoc [] b bs = refl
append_snoc (c ∷ l) b bs = ap (λ t. c ∷ t) (append_snoc l b bs)

add_all-tail : (br : BufRing) (mask at : ℕ) (bs : List Buf) → (add_all br mask at bs).tail ≡ br.tail
unfolding buf_ring_add
add_all-tail br mask at [] = refl
add_all-tail br mask at (b ∷ bs) =
    add_all-tail (buf_ring_add br b.addr b.len b.bid mask at) mask (suc at) bs

-- `n` buffers of an array of `2^k` are held from counter `h` on, and the tail is at the place after them.
module _ (k h n : ℕ) (narrow : k ≤ 15) where
  added :
      (bs : List Buf) (br : BufRing) (at : ℕ)
      → ((j : ℕ) → (br.tail + j) % 2 ^ k ≡ (h + n + j) % 2 ^ k)
      → n + at + length bs ≤ 2 ^ k
      → contents (add_all br (2 ^ k - 1) at bs).bufs (2 ^ k) h (n + at + length bs)
        ≡ contents br.bufs (2 ^ k) h (n + at) ++ bs
  unfolding buf_ring_add
  added [] br at place room =
      ap (λ x. contents br.bufs (2 ^ k) h x) (omega arith) ∙ sym (append_nil _)
  added (b ∷ bs) br at place room =
      let to = bit_and (br.tail + at) (2 ^ k - 1) in
      let here : to ≡ (h + (n + at)) % 2 ^ k =
        bit_and-mask k (br.tail + at) ∙ place at ∙ ap (λ x. x % 2 ^ k) (omega arith) in
      let apart : (j : ℕ) → j < n + at → (h + j) % 2 ^ k ≢ to = λ j lt e.
        add-mod-ne_mod (2 ^ k) (h + j) (n + at - j) (omega arith) (omega (arith, room)) (
          ap (λ x. x % 2 ^ k) (let s : h + j + (n + at - j) ≡ h + (n + at) = omega arith in s)
          ∙ sym here
          ∙ sym e) in
      let br' = buf_ring_add br b.addr b.len b.bid (2 ^ k - 1) at in
      let step : contents br'.bufs (2 ^ k) h (n + suc at)
          ≡ contents br.bufs (2 ^ k) h (n + at) ++ b ∷ [] =
        ap (λ x. contents br'.bufs (2 ^ k) h x)
          (let e : n + suc at ≡ suc (n + at) = omega arith in e)
        ∙ contents-snoc br'.bufs (2 ^ k) h (n + at)
        ∙ ap₂ ◌++◌ (contents-upd br.bufs (2 ^ k) b to h (n + at) apart)
            (ap (λ x. x ∷ []) (upd-same br.bufs to b _ (sym here))) in
      ap (λ x. contents (add_all br' (2 ^ k - 1) (suc at) bs).bufs (2 ^ k) h x)
        (let e : n + at + suc (length bs) ≡ n + suc at + length bs = omega arith in e)
      ∙ added bs br' (suc at) place (omega (arith, room))
      ∙ ap (λ l. l ++ bs) step
      ∙ append_snoc _ b bs

-- The counters run modulo `2^16`, which is a multiple of the size.
module _ (k : ℕ) (narrow : k ≤ 15) (br : BufRing) (h : ℕ) (small : br.tail < 2 ^ 16)
    (below : h < 2 ^ 16) where
  held-place : (j : ℕ) → (br.tail + j) % 2 ^ k ≡ (h + held br h + j) % 2 ^ k
  unfolding held
  held-place j =
      let whole = pow-dvd-pow k 16 (omega arith) in
      sym (mod-mod_of_dvd (2 ^ k) (br.tail + j) whole)
      ∙ ap (λ x. x % 2 ^ k)
          (let e : (br.tail + j) % 2 ^ 16 ≡ (h + held br h + j) % 2 ^ 16 = omega arith in e)
      ∙ mod-mod_of_dvd (2 ^ k) (h + held br h + j) whole

  -- Buffers added with `io_uring_buf_ring_add` at the offsets 0, 1, … to a ring of `2^k` entries
  -- (`k` at most 15) that has room for them, and published with one `io_uring_buf_ring_advance`:
  -- from the kernel's head on, the ring holds what it held before and then the new buffers in
  -- the order of the calls.
  pub buf_ring_fifo :
      (bs : List Buf)
      → held br h + length bs ≤ 2 ^ k
      → let br' = buf_ring_advance (add_all br (buf_ring_mask (2 ^ k)) 0 bs) (length bs) in
        (held br' h ≡ held br h + length bs)
        × (contents br'.bufs (2 ^ k) h (held br' h) ≡ contents br.bufs (2 ^ k) h (held br h) ++ bs)
  unfolding buf_ring_advance buf_ring_mask held
  buf_ring_fifo bs room =
      let size : 2 ^ k ≤ 2 ^ 15 = pow-le-pow_right {n = 2} (omega arith) narrow in
      let mask : buf_ring_mask (2 ^ k) ≡ 2 ^ k - 1 = omega (arith, size, pow-pos k) in
      let all = add_all br (buf_ring_mask (2 ^ k)) 0 bs in
      let count : held (buf_ring_advance all (length bs)) h ≡ held br h + length bs =
        omega (arith, size, add_all-tail br (buf_ring_mask (2 ^ k)) 0 bs) in
      (
        count,
        ap (λ x. contents all.bufs (2 ^ k) h x)
              (let e : held (buf_ring_advance all (length bs)) h ≡ held br h + 0 + length bs =
                  omega (arith, count) in
                e)
            ∙ ap
                (λ mask. contents (add_all br mask 0 bs).bufs (2 ^ k) h (held br h + 0 + length bs))
                mask
            ∙ added k h (held br h) narrow bs br 0 held-place
                (let e : held br h + 0 + length bs ≤ 2 ^ k = omega (arith, room) in e)
            ∙ ap (λ x. contents br.bufs (2 ^ k) h x ++ bs)
                (let e : held br h + 0 ≡ held br h = omega arith in e),
      )
