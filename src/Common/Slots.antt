-- ===== src/Common/Slots.antt =====
-- The place of a running 32-bit counter in an array of `2^k` entries of one or two units each:
-- `(i & mask) << shift`.
use Prim.Native.Nat.{ℕ, zero, suc, ◌+◌, ◌-◌, ◌*◌, ◌%◌, ◌^◌, ◌≤◌, ◌<◌, ◌∣◌, bit_and}
use mathlib.Core.Path.{◌≡◌, refl, sym, ◌∙◌, ap}
use mathlib.Core.Logic.{◌≢◌, ◌⊎◌, inl, inr}
use native.Mathlib.Omega.{arith}
use native.Mathlib.Decide.{dec_le, dec_lt}
use native.Mathlib.Nat.{
  pow-suc, pow-le-pow_right, dvd_refl, dvd-mul_right_of_dvd, mod-mod_of_dvd, mod-lt, mod-eq_of_lt,
  mod-eq-sub-mod, mod-add-mod,
}
use liburing.Common.Bits.{bit_and-mask, pow-pos}
use liburing.Common.Words.{add32}

-- `x << s` on `unsigned`
abbrev pub shl32 : ℕ → ℕ → ℕ
shl32 x s = x * 2 ^ s % 2 ^ 32

unfoldable pub slot : ℕ → ℕ → ℕ → ℕ
slot mask shift i = shl32 (bit_and i mask) shift

pub pow-dvd-pow : (k n : ℕ) → k ≤ n → 2 ^ k ∣ 2 ^ n
pow-dvd-pow k zero h = rw (let e : k ≡ 0 = omega arith in e) (dvd_refl 1)
pow-dvd-pow k (suc n) h = elim (dec_le k n) [
  | yes below ↦ rw pow-suc (dvd-mul_right_of_dvd (2 ^ k) (pow-dvd-pow k n below) 2)
  | no top ↦ rw (let e : k ≡ suc n = omega arith in e) (dvd_refl (2 ^ suc n))
]

-- The wrap of the counter does not disturb the place.
pub add32-mod : (k a b : ℕ) → k ≤ 32 → add32 a b % 2 ^ k ≡ (a + b) % 2 ^ k
add32-mod k a b h = mod-mod_of_dvd (2 ^ k) (a + b) (pow-dvd-pow k 32 h)

-- Fewer than `m` steps do not come back to the same place.
pub add-mod-ne_mod : (m x d : ℕ) → 0 < d → d < m → (x + d) % m ≢ x % m
add-mod-ne_mod m x d pd lt e = elim (dec_lt (x % m + d) m) [
  | yes low ↦ omega (arith, mod-add-mod x m d, mod-eq_of_lt low)
  | no high ↦ omega (
    arith,
    mod-lt x {m = m} (omega arith),
    mod-add-mod x m d,
    mod-eq-sub-mod {n = x % m + d} {m = m} (omega arith),
    mod-eq_of_lt {n = x % m + d - m} {m = m} (omega (arith, mod-lt x {m = m} (omega arith))),
  )
]

unit_cases : (s : ℕ) → s ≤ 1 → (2 ^ s ≡ 1) ⊎ (2 ^ s ≡ 2)
unit_cases zero h = inl refl
unit_cases (suc zero) h = inr refl
unit_cases (suc (suc s)) h = absurd (omega arith)

unshift : (s : ℕ) → s ≤ 1 → (a b : ℕ) → a * 2 ^ s ≡ b * 2 ^ s → a ≡ b
unshift zero h a b e = omega arith
unshift (suc zero) h a b e = omega arith
unshift (suc (suc s)) h a b e = absurd (omega arith)

module _ (k shift : ℕ) (narrow : k ≤ 31) (unit : shift ≤ 1) where
  pub pow-narrow : 2 ^ k ≤ 2 ^ 31
  pow-narrow = pow-le-pow_right {n = 2} (omega arith) narrow

  -- No bit is shifted out.
  pub slot-eq : (i : ℕ) → slot (2 ^ k - 1) shift i ≡ i % 2 ^ k * 2 ^ shift
  unfolding slot
  slot-eq i = elim (unit_cases shift unit) [
    | inl e ↦ rw (e, bit_and-mask) (mod-eq_of_lt (omega (arith, mod-lt i (pow-pos k), pow-narrow)))
    | inr e ↦ rw (e, bit_and-mask) (mod-eq_of_lt (omega (arith, mod-lt i (pow-pos k), pow-narrow)))
  ]

  pub slot-lt : (i : ℕ) → slot (2 ^ k - 1) shift i < 2 ^ k * 2 ^ shift
  slot-lt i = elim (unit_cases shift unit) [
    | inl e ↦
        omega
          (arith, slot-eq i, mod-lt i (pow-pos k), ap (λ t. 2 ^ k * t) e, ap (λ t. i % 2 ^ k * t) e)
    | inr e ↦
        omega
          (arith, slot-eq i, mod-lt i (pow-pos k), ap (λ t. 2 ^ k * t) e, ap (λ t. i % 2 ^ k * t) e)
  ]

  pub slot-ne :
      (x d : ℕ) → 0 < d → d < 2 ^ k → slot (2 ^ k - 1) shift (add32 x d) ≢ slot (2 ^ k - 1) shift x
  slot-ne x d pd lt e = add-mod-ne_mod (2 ^ k) x d pd lt (
      sym (add32-mod k x d (omega arith))
      ∙ unshift shift unit _ _ (sym (slot-eq (add32 x d)) ∙ e ∙ slot-eq x))
