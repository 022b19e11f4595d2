-- ===== src/Common/Words.antt =====
-- Unsigned words with their wrap-around.
use Prim.Native.Nat.{ℕ, ◌+◌, ◌-◌, ◌*◌, ◌%◌, ◌^◌, ◌<◌}
use mathlib.Core.Path.{◌≡◌}
use native.Mathlib.Omega.{arith}

-- `unsigned` (32 bits)
abbrev pub add32 : ℕ → ℕ → ℕ
add32 a b = (a + b) % 2 ^ 32

abbrev pub sub32 : ℕ → ℕ → ℕ
sub32 a b = (a + 2 ^ 32 - b) % 2 ^ 32

abbrev pub mul32 : ℕ → ℕ → ℕ
mul32 a b = a * b % 2 ^ 32

-- `size_t` and `unsigned long` (64 bits)
abbrev pub add64 : ℕ → ℕ → ℕ
add64 a b = (a + b) % 2 ^ 64

abbrev pub sub64 : ℕ → ℕ → ℕ
sub64 a b = (a + 2 ^ 64 - b) % 2 ^ 64

abbrev pub mul64 : ℕ → ℕ → ℕ
mul64 a b = a * b % 2 ^ 64

-- The distance from `a` to a later index undoes the step, across the wrap.
pub sub32-add32 : (a n : ℕ) → a < 2 ^ 32 → n < 2 ^ 32 → sub32 (add32 a n) a ≡ n
sub32-add32 a n ha hn = omega arith

pub add32-sub32 : (a b : ℕ) → a < 2 ^ 32 → b < 2 ^ 32 → add32 a (sub32 b a) ≡ b
add32-sub32 a b ha hb = omega arith

pub add32_assoc : (a b c : ℕ) → add32 (add32 a b) c ≡ add32 a (b + c)
add32_assoc a b c = omega arith
