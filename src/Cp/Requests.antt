-- ===== src/Cp/Requests.antt =====
-- Sums and predicates over a list from which an entry is taken.
use liburing.Common.{ℕ, zero, suc, ◌+◌, ◌≡◌, ap, sym, ◌⊎◌, inl, inr, some, List, [], ◌∷◌, arith}
use mathlib.Core.Option.{some-injective, none-ne-some}
use mathlib.Core.Path.{subst}
use liburing.Cp.{nth, removed}

module _ {A : Type 0} where
  abbrev pub total : (A → ℕ) → List A → ℕ
  total w [] = 0
  total w (x ∷ xs) = let rest = total w xs in w x + rest

  abbrev pub All : (A → Type 0) → List A → Type 0
  All P [] = Unit
  All P (x ∷ xs) = P x × All P xs

  abbrev pub Any : (A → Type 0) → List A → Type 0
  Any P [] = ⊥
  Any P (x ∷ xs) = P x ⊎ Any P xs

  pub total-removed :
      (w : A → ℕ) (i : ℕ) (xs : List A) {x : A}
      → nth i xs ≡ some x
      → w x + total w (removed i xs) ≡ total w xs
  total-removed w i [] {x} e = absurd (none-ne-some x e)
  total-removed w zero (y ∷ xs) {x} e = ap (λ z. w z + total w xs) (sym (some-injective y x e))
  total-removed w (suc i) (y ∷ xs) {x} e = omega (arith, total-removed w i xs e)

  pub All-nth : (P : A → Type 0) (i : ℕ) (xs : List A) {x : A} → nth i xs ≡ some x → All P xs → P x
  All-nth P i [] {x} e h = absurd (none-ne-some x e)
  All-nth P zero (y ∷ xs) {x} e (p, ps) = subst P (some-injective y x e) p
  All-nth P (suc i) (y ∷ xs) e (p, ps) = All-nth P i xs e ps

  pub All-removed : (P : A → Type 0) (i : ℕ) (xs : List A) → All P xs → All P (removed i xs)
  All-removed P i [] h = tt
  All-removed P zero (y ∷ xs) (p, ps) = ps
  All-removed P (suc i) (y ∷ xs) (p, ps) = (p, All-removed P i xs ps)

  pub All-map : (P Q : A → Type 0) → ((x : A) → P x → Q x) → (xs : List A) → All P xs → All Q xs
  All-map P Q f [] h = tt
  All-map P Q f (x ∷ xs) (p, ps) = (f x p, All-map P Q f xs ps)

  pub Any-removed :
      (P : A → Type 0) (i : ℕ) (xs : List A) {x : A}
      → nth i xs ≡ some x
      → Any P xs
      → P x ⊎ Any P (removed i xs)
  Any-removed P i [] e h = elim h [ ]
  Any-removed P zero (y ∷ xs) {x} e (inl p) = inl (subst P (some-injective y x e) p)
  Any-removed P zero (y ∷ xs) e (inr ps) = inr ps
  Any-removed P (suc i) (y ∷ xs) e (inl p) = inr (inl p)
  Any-removed P (suc i) (y ∷ xs) e (inr ps) = elim (Any-removed P i xs e ps) [
    | inl q ↦ inl q
    | inr qs ↦ inr (inr qs)
  ]
