-- ===== src/Common/Flags.antt =====
-- Flag words: `w & m` as a condition, and how `|=` and `&= ~` change it.
use Prim.Native.Nat.{ℕ, ◌*◌, ◌^◌, ◌≤◌, bit_and, bit_or}
use mathlib.Core.Path.{◌≡◌}
use mathlib.Core.Bool.{Bool, ◌&&◌, ◌||◌, not}
use native.Mathlib.Omega.{arith}
use liburing.Common.Tests.{◌==◌}
use liburing.Common.Bits.{bit, bit_and-pow, bit-bit_and, bit-bit_or, bit-le, pow-pos}

-- `w & m` where C takes it for a condition.
unfoldable pub has : ℕ → ℕ → Bool
has w m = not (bit_and w m == 0)

positive : (b p : ℕ) → b ≤ 1 → 1 ≤ p → not (b * p == 0) ≡ (b == 1)
positive b p h k = grind arith

-- A test of one flag reads one digit.
pub has-bit : (w k : ℕ) → has w (2 ^ k) ≡ (bit w k == 1)
unfolding has
has-bit w k = ground (arith, bit_and-pow k w, positive (bit w k) (2 ^ k), bit-le w k, pow-pos k)

pub has-bit_or : (w v k : ℕ) → has (bit_or w v) (2 ^ k) ≡ (has w (2 ^ k) || has v (2 ^ k))
has-bit_or w v k = ground (
  arith,
  has-bit (bit_or w v) k,
  has-bit w k,
  has-bit v k,
  bit-bit_or w v k,
  bit-le w k,
  bit-le v k,
)

pub has-bit_and : (w v k : ℕ) → has (bit_and w v) (2 ^ k) ≡ (has w (2 ^ k) && has v (2 ^ k))
has-bit_and w v k = ground (
  arith,
  has-bit (bit_and w v) k,
  has-bit w k,
  has-bit v k,
  bit-bit_and w v k,
  bit-le w k,
  bit-le v k,
)
