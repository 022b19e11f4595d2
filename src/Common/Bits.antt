-- ===== src/Common/Bits.antt =====
-- Laws of `&` and `|` at variables: each binary digit of the result comes from the two digits.
use Prim.Native.Nat.{ℕ, zero, suc, ◌+◌, ◌-◌, ◌*◌, ◌/◌, ◌%◌, ◌^◌, ◌≤◌, ◌<◌, min, max}
use Prim.Native.Nat.{bit_and, bit_or, digits, bit_and-bitwise, bit_or-bitwise}
use mathlib.Core.Path.{◌≡◌, refl, ◌∙◌, ap}
use native.Mathlib.Omega.{arith}
use native.Mathlib.Nat.{pow-suc, div-add-mod, mod-lt, mod-eq_of_lt, mul-add-mod_self_left}

-- Digit `i` of `a`, 0 or 1.
abbrev pub bit : ℕ → ℕ → ℕ
bit a zero = a % 2
bit a (suc i) = bit (a / 2) i

abbrev and_run : ℕ → ℕ → ℕ → ℕ
and_run n a b = digits (λ _. zero) min n a b

abbrev or_run : ℕ → ℕ → ℕ → ℕ
or_run n a b = digits (λ x. x) max n a b

-- Any count of digits from `a` on gives the same result.
and_run_lem : (n m a b : ℕ) → a ≤ n → a ≤ m → and_run n a b ≡ and_run m a b
and_run_lem zero zero a b p q = refl
and_run_lem zero (suc m) zero b p q = refl
and_run_lem (suc n) zero zero b p q = refl
and_run_lem (suc n) (suc m) zero b p q = refl
and_run_lem (suc n) (suc m) (suc a) b p q =
    ap (λ t. t * 2 + min (suc a % 2) (b % 2))
      (and_run_lem n m (suc a / 2) (b / 2) (omega arith) (omega arith))
and_run_lem _ _ (suc a) b p q = absurd (omega arith)

or_run_lem : (n m a b : ℕ) → a ≤ n → a ≤ m → or_run n a b ≡ or_run m a b
or_run_lem zero zero a b p q = refl
or_run_lem zero (suc m) zero b p q = refl
or_run_lem (suc n) zero zero b p q = refl
or_run_lem (suc n) (suc m) zero b p q = refl
or_run_lem (suc n) (suc m) (suc a) b p q =
    ap (λ t. t * 2 + max (suc a % 2) (b % 2))
      (or_run_lem n m (suc a / 2) (b / 2) (omega arith) (omega arith))
or_run_lem _ _ (suc a) b p q = absurd (omega arith)

-- The lowest digit and the rest.
bit_and-halves : (a b : ℕ) → bit_and a b ≡ bit_and (a / 2) (b / 2) * 2 + min (a % 2) (b % 2)
bit_and-halves zero b = omega (arith, bit_and-bitwise 0 b, bit_and-bitwise 0 (b / 2))
bit_and-halves (suc a) b = omega (
  arith,
  bit_and-bitwise (suc a) b,
  bit_and-bitwise (suc a / 2) (b / 2),
  and_run_lem a (suc a / 2) (suc a / 2) (b / 2) (omega arith) (omega arith),
)

bit_or-halves : (a b : ℕ) → bit_or a b ≡ bit_or (a / 2) (b / 2) * 2 + max (a % 2) (b % 2)
bit_or-halves zero b = omega (arith, bit_or-bitwise 0 b, bit_or-bitwise 0 (b / 2))
bit_or-halves (suc a) b = omega (
  arith,
  bit_or-bitwise (suc a) b,
  bit_or-bitwise (suc a / 2) (b / 2),
  or_run_lem a (suc a / 2) (suc a / 2) (b / 2) (omega arith) (omega arith),
)

half-bit_and : (a b : ℕ) → bit_and a b / 2 ≡ bit_and (a / 2) (b / 2)
half-bit_and a b = omega (arith, bit_and-halves a b)

half-bit_or : (a b : ℕ) → bit_or a b / 2 ≡ bit_or (a / 2) (b / 2)
half-bit_or a b = omega (arith, bit_or-halves a b)

pub bit-bit_and : (a b i : ℕ) → bit (bit_and a b) i ≡ min (bit a i) (bit b i)
bit-bit_and a b zero = omega (arith, bit_and-halves a b)
bit-bit_and a b (suc i) = ap (λ t. bit t i) (half-bit_and a b) ∙ bit-bit_and (a / 2) (b / 2) i

pub bit-bit_or : (a b i : ℕ) → bit (bit_or a b) i ≡ max (bit a i) (bit b i)
bit-bit_or a b zero = omega (arith, bit_or-halves a b)
bit-bit_or a b (suc i) = ap (λ t. bit t i) (half-bit_or a b) ∙ bit-bit_or (a / 2) (b / 2) i

pub bit-le : (a i : ℕ) → bit a i ≤ 1
bit-le a zero = omega arith
bit-le a (suc i) = bit-le (a / 2) i

bit_and-zero_run : (n a : ℕ) → a ≤ n → bit_and a 0 ≡ 0
bit_and-zero_run zero zero h = bit_and-bitwise 0 0
bit_and-zero_run zero (suc a) h = absurd (omega arith)
bit_and-zero_run (suc n) zero h = bit_and-bitwise 0 0
bit_and-zero_run (suc n) (suc a) h =
    omega (arith, bit_and-halves (suc a) 0, bit_and-zero_run n (suc a / 2) (omega arith))

pub bit_and-zero : (a : ℕ) → bit_and a 0 ≡ 0
bit_and-zero a = bit_and-zero_run a a (omega arith)

half-pow : (k : ℕ) → 2 ^ suc k / 2 ≡ 2 ^ k
half-pow k = omega (arith, pow-suc 2 k)

half-mask : (k : ℕ) → (2 ^ suc k - 1) / 2 ≡ 2 ^ k - 1
half-mask k = omega (arith, pow-suc 2 k)

pub pow-pos : (k : ℕ) → 1 ≤ 2 ^ k
pow-pos zero = omega arith
pow-pos (suc k) = omega (arith, pow-suc 2 k, pow-pos k)

pub bit-mask : (k i : ℕ) → i < k → bit (2 ^ k - 1) i ≡ 1
bit-mask zero i h = absurd (omega arith)
bit-mask (suc k) zero h = omega (arith, pow-suc 2 k, pow-pos k)
bit-mask (suc k) (suc i) h = ap (λ t. bit t i) (half-mask k) ∙ bit-mask k i (omega arith)

mod-pow_suc : (k a : ℕ) → a % 2 ^ suc k ≡ (a / 2) % 2 ^ k * 2 + a % 2
mod-pow_suc k a =
    ap (λ t. t % 2 ^ suc k) split
    ∙ mul-add-mod_self_left (2 ^ suc k) q (r * 2 + a % 2)
    ∙ mod-eq_of_lt (omega (arith, pow-suc 2 k, mod-lt (a / 2) (pow-pos k)))
  where
    q : ℕ
    q = a / 2 / 2 ^ k

    r : ℕ
    r = a / 2 % 2 ^ k

    split : a ≡ 2 ^ suc k * q + (r * 2 + a % 2)
    split = omega (arith, div-add-mod (a / 2) (2 ^ k), ap (λ t. t * (a / 2 / 2 ^ k)) (pow-suc 2 k))

-- `a & (1 << k)`
pub bit_and-pow : (k a : ℕ) → bit_and a (2 ^ k) ≡ bit a k * 2 ^ k
bit_and-pow zero a = omega (arith, bit_and-halves a 1, bit_and-zero (a / 2))
bit_and-pow (suc k) a = omega (
  arith,
  pow-suc 2 k,
  bit_and-halves a (2 ^ suc k),
  ap (λ m. bit_and (a / 2) m) (half-pow k),
  ap (λ t. bit (a / 2) k * t) (pow-suc 2 k),
  bit_and-pow k (a / 2),
)

-- `a & (2^k - 1)`
pub bit_and-mask : (k a : ℕ) → bit_and a (2 ^ k - 1) ≡ a % 2 ^ k
bit_and-mask zero a = omega (arith, bit_and-zero a)
bit_and-mask (suc k) a = omega (
  arith,
  pow-suc 2 k,
  pow-pos k,
  bit_and-halves a (2 ^ suc k - 1),
  ap (λ m. bit_and (a / 2) m) (half-mask k),
  bit_and-mask k (a / 2),
  mod-pow_suc k a,
)
