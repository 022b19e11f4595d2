-- ===== src/Common/Window.antt =====
-- The entries of a ring from counter `h` on, and what a write does to them.
use Prim.Native.Nat.{ℕ, zero, suc, ◌+◌, ◌<◌, ◌^◌}
use mathlib.Core.Path.{◌≡◌, refl, ◌∙◌, ap, ap₂}
use mathlib.Core.Logic.{◌≢◌}
use mathlib.Core.List.{List, [], ◌∷◌, ◌++◌}
use native.Mathlib.Omega.{arith}
use liburing.Common.Tests.{◌==◌, if◌then◌else◌}
use liburing.Common.Lists.{length}
use liburing.Common.Words.{add32}

module _ {ℓ} {A : Type ℓ} where
  -- `f[i] = v`
  abbrev pub upd : (ℕ → A) → ℕ → A → ℕ → A
  upd f i v j = if j == i then v else f j

  module _ (place : ℕ → ℕ) where
    abbrev pub window : (ℕ → A) → ℕ → ℕ → List A
    window f h zero = []
    window f h (suc n) = f (place h) ∷ window f (add32 h 1) n

    pub length-window : (f : ℕ → A) (h n : ℕ) → length (window f h n) ≡ n
    length-window f h zero = refl
    length-window f h (suc n) = ap suc (length-window f (add32 h 1) n)

    pub window-snoc :
        (f : ℕ → A) (h n : ℕ)
        → h < 2 ^ 32
        → window f h (suc n) ≡ window f h n ++ f (place (add32 h n)) ∷ []
    window-snoc f h zero b = ap (λ i. f (place i) ∷ []) (omega arith)
    window-snoc f h (suc n) b =
        ap (λ l. f (place h) ∷ l)
          (window-snoc f (add32 h 1) n (omega arith)
            ∙ ap (λ i. window f (add32 h 1) n ++ f (place i) ∷ []) (omega arith))

    pub window-upd :
        (f : ℕ → A) (i : ℕ) (v : A) (h n : ℕ)
        → h < 2 ^ 32
        → ((j : ℕ) → j < n → place (add32 h j) ≢ i)
        → window (upd f i v) h n ≡ window f h n
    window-upd f i v h zero b out = refl
    window-upd f i v h (suc n) b out = ap₂ ◌∷◌ (ground (arith, out 0)) (
        window-upd f i v (add32 h 1) n (omega arith) λ j lt.
          rw (let e : add32 (add32 h 1) j ≡ add32 h (suc j) = omega arith in e)
            (out (suc j) (omega arith)))

    pub window-append :
        (f : ℕ → A) (h n m : ℕ)
        → h < 2 ^ 32
        → window f h (n + m) ≡ window f h n ++ window f (add32 h n) m
    window-append f h zero m b =
        rw (let e : zero + m ≡ m = omega arith in e) (ap (λ i. window f i m) (omega arith))
    window-append f h (suc n) m b = rw (let e : suc n + m ≡ suc (n + m) = omega arith in e) (
        ap (λ l. f (place h) ∷ l)
          (window-append f (add32 h 1) n m (omega arith)
            ∙ ap (λ i. window f (add32 h 1) n ++ window f i m) (omega arith)))
