-- ===== src/Setup/Entries.antt =====
-- The sizes that `get_sq_cq_entries` computes, and the memory that `rings_size` asks for.
use liburing.Common.{
  ℕ, zero, suc, ◌+◌, ◌*◌, ◌/◌, ◌%◌, ◌^◌, ◌≤◌, ◌<◌, ◌≡◌, ◌≢◌, refl, ap, sym, ◌∙◌, inl, inr, arith,
  Option, none, some, Bool-cases, Option-cases, ◌==◌, ==_iff, ltb, has, sub32, mul32, shl32, min,
}
use native.Mathlib.Nat.{pow-suc, pow-le-pow_right}
use native.Mathlib.Decide.{dec_lt}
use liburing.Abi.Setup as Flag
use liburing.Setup.{
  kern_max_entries, kern_max_cq_entries, digit_count, fls, roundup_pow2, clamped, with_cq, with_sq,
  get_sq_cq_entries,
}

digit_count-le : (n x : ℕ) → digit_count n x ≤ n
unfolding digit_count
digit_count-le zero x = omega arith
digit_count-le (suc n) x = ground (arith, digit_count-le n (x / 2))

digit_count-zero : (n : ℕ) → digit_count n 0 ≡ 0
unfolding digit_count
digit_count-zero zero = refl
digit_count-zero (suc n) = refl

pub digit_count-lt : (n x : ℕ) → x < 2 ^ n → x < 2 ^ digit_count n x
unfolding digit_count
digit_count-lt zero x h = h
digit_count-lt (suc n) x h = elim (Bool-cases (x == 0)) [
  | inl z ↦ rw z (let e : x ≡ 0 = (==_iff x 0).0 z in omega (arith, e))
  | inr ne ↦ rw ne (
      omega (
        arith,
        digit_count-lt n (x / 2) (omega (arith, pow-suc 2 n)),
        pow-suc 2 (digit_count n (x / 2)),
      ))
]

digit_count-tight : (n x : ℕ) → x < 2 ^ n → x ≢ 0 → 2 ^ digit_count n x ≤ 2 * x
unfolding digit_count
digit_count-tight zero x h ne = absurd (omega arith)
digit_count-tight (suc n) x h ne = elim (Bool-cases (x == 0)) [
  | inl z ↦ absurd (ne ((==_iff x 0).0 z))
  | inr more ↦ rw more (elim (Bool-cases (x / 2 == 0)) [
    | inl z ↦
        let e : x / 2 ≡ 0 = (==_iff (x / 2) 0).0 z in
        rw (e, digit_count-zero n) (omega (arith, e, ne))
    | inr two ↦
        let half_ne : x / 2 ≢ 0 = λ e. ground (arith, two, e) in
        omega (
          arith,
          digit_count-tight n (x / 2) (omega (arith, pow-suc 2 n)) half_ne,
          pow-suc 2 (digit_count n (x / 2)),
        )
  ])
]

-- For a size that fits, `roundup_pow2` is the least power of two that is not below it.
record Rounded (depth size : ℕ) : Type 0 where
  pub exponent : ℕ
  pub power : size ≡ 2 ^ exponent
  pub enough : depth ≤ size
  pub tight : size < 2 * depth
  pub small : exponent ≤ 31

pub fls-digit_count : (x : ℕ) → fls x ≡ digit_count 32 x
unfolding fls
fls-digit_count x = elim (Bool-cases (x == 0)) [
  | inl z ↦
      let e : x ≡ 0 = (==_iff x 0).0 z in rw z (sym (ap (digit_count 32) e ∙ digit_count-zero 32))
  | inr more ↦ rw more refl
]

exponent_lt : (a b : ℕ) → 2 ^ a < 2 ^ b → a < b
exponent_lt a b h = elim (dec_lt a b) [
  | yes lt ↦ lt
  | no ge ↦
      absurd
        (omega (arith, h, pow-le-pow_right {n = 2} (omega arith) {i = b} {j = a} (omega arith)))
]

rounded_digits :
    (x : ℕ)
    → x < 2 ^ 31
    → (x < 2 ^ digit_count 32 x)
      × (2 ^ digit_count 32 x ≤ 2 * x + 1)
      × (2 ^ digit_count 32 x < 2 ^ 32)
rounded_digits x fits = elim (Bool-cases (x == 0)) [
  | inl z ↦
      let e : x ≡ 0 = (==_iff x 0).0 z in
      let one : 2 ^ digit_count 32 x ≡ 1 =
        ap (λ t. 2 ^ digit_count 32 t) e ∙ ap (λ t. 2 ^ t) (digit_count-zero 32) in
      (omega arith, omega arith, omega arith)
  | inr more ↦
      let tight = digit_count-tight 32 x (omega arith) (λ e. ground (arith, more, e)) in
      (digit_count-lt 32 x (omega arith), omega (arith, tight), omega (arith, tight))
]

roundup_pow2-Rounded : (depth : ℕ) → 1 ≤ depth → depth ≤ 2 ^ 31 → Rounded depth (roundup_pow2 depth)
unfolding roundup_pow2
roundup_pow2-Rounded depth positive fits =
    let x = sub32 depth 1 in
    let (low, high, word) = rounded_digits x (omega arith) in
    let same : roundup_pow2 depth ≡ 2 ^ digit_count 32 x =
      ap (λ n. shl32 1 n) (fls-digit_count x)
      ∙ (let e : 1 * 2 ^ digit_count 32 x % 2 ^ 32 ≡ 2 ^ digit_count 32 x = omega (arith, word) in
          e) in
    record {
      exponent = digit_count 32 x;
      power = same;
      enough = omega (arith, same, low);
      tight = omega (arith, same, high);
      small = (let e : digit_count 32 x < 32 = exponent_lt _ _ word in omega (arith, e));
    }

-- A size within the limits, as far as the limits allow it.
record Within (limit entries n : ℕ) : Type 0 where
  pub positive : 1 ≤ n
  pub below : n ≤ limit
  pub asked : n ≤ entries
  pub enough : min entries limit ≤ n

clamped-Within :
    (limit flags entries : ℕ) {n : ℕ}
    → 1 ≤ limit
    → clamped limit flags entries ≡ some n
    → Within limit entries n
unfolding clamped
clamped-Within limit flags entries {n} pos_limit e = elim (Bool-cases (entries == 0)) [
  | inl z ↦ absurd (ground (arith, rw z at e))
  | inr some_entries ↦ elim (Bool-cases (ltb limit entries)) [
    | inl over ↦ elim (Bool-cases (has flags Flag.clamp)) [
      | inl c ↦
          let e' = rw (some_entries, over, c) at e in
          let same : limit ≡ n = cc in
          record {
            positive = omega arith;
            below = omega arith;
            asked = ground arith;
            enough = omega arith;
          }
      | inr c ↦ absurd (ground (arith, rw (some_entries, over, c) at e))
    ]
    | inr fits ↦
        let e' = rw (some_entries, fits) at e in
        let same : entries ≡ n = cc in
        record {
          positive = ground arith;
          below = ground arith;
          asked = omega arith;
          enough = omega arith;
        }
  ]
]

-- What the sizes of a new ring satisfy.
pub record Sizes (entries sq cq : ℕ) : Type 0 where
  pub sq_power : (j : ℕ) × (sq ≡ 2 ^ j) × (j ≤ 15)
  pub cq_power : (j : ℕ) × (cq ≡ 2 ^ j) × (j ≤ 16)
  pub enough : min entries kern_max_entries ≤ sq
  pub tight : sq < 2 * entries
  pub ordered : sq ≤ cq

-- Where the completion ring has a size of its own.
with_cq-inr :
    (sq : ℕ) (o : Option ℕ) {sq' cq' : ℕ}
    → with_cq sq o ≡ inr (sq', cq')
    → (sq ≡ sq') × (sq ≤ cq') × ((c : ℕ) × (o ≡ some c) × (roundup_pow2 c ≡ cq'))
unfolding with_cq
with_cq-inr sq none e = cc
with_cq-inr sq (some c) {sq'} {cq'} e = elim (Bool-cases (ltb (roundup_pow2 c) sq)) [
  | inl low ↦ absurd (ground (arith, rw low at e))
  | inr high ↦
      let e' = rw high at e in
      let first : sq ≡ sq' = cc in
      let second : roundup_pow2 c ≡ cq' = cc in (first, ground (arith, second), (c, refl, second))
]

-- Where `entries` passes its check as `n`.
with_sq-Sizes :
    (entries flags cq_entries n : ℕ) {sq cq : ℕ}
    → Within kern_max_entries entries n
    → with_sq flags cq_entries (some n) ≡ inr (sq, cq)
    → Sizes entries sq cq
unfolding with_sq
with_sq-Sizes entries flags cq_entries n {sq} {cq} w e =
    let s = roundup_pow2-Rounded n w.positive (omega (arith, w.below)) in
    let j15 : s.exponent < 16 = exponent_lt _ _ (omega (arith, s.power, s.tight, w.below)) in
    elim (Bool-cases (has flags Flag.cqsize)) [
      | inl own ↦
          let (first, ordered, (c, checked, second)) =
            with_cq-inr (roundup_pow2 n) (clamped kern_max_cq_entries flags cq_entries)
              (rw own at e) in
          let v = clamped-Within kern_max_cq_entries flags cq_entries (omega arith) checked in
          let t = roundup_pow2-Rounded c v.positive (omega (arith, v.below)) in
          let i16 : t.exponent < 17 = exponent_lt _ _ (omega (arith, t.power, t.tight, v.below)) in
          record {
            sq_power = (s.exponent, sym first ∙ s.power, omega (arith, j15));
            cq_power = (t.exponent, sym second ∙ t.power, omega (arith, i16));
            enough = omega (arith, first, s.enough, w.enough);
            tight = omega (arith, first, s.tight, w.asked);
            ordered = omega (arith, first, ordered);
          }
      | inr twice ↦
          let e' = rw twice at e in
          let first : roundup_pow2 n ≡ sq = cc in
          let second : mul32 2 (roundup_pow2 n) ≡ cq = cc in
          let double : 2 * roundup_pow2 n ≡ cq = omega (arith, second, s.tight, w.below) in
          record {
            sq_power = (s.exponent, sym first ∙ s.power, omega (arith, j15));
            cq_power = (
              suc s.exponent,
              omega (arith, double, s.power, pow-suc 2 s.exponent),
              omega (arith, j15),
            );
            enough = omega (arith, first, s.enough, w.enough);
            tight = omega (arith, first, s.tight, w.asked);
            ordered = omega (arith, first, double);
          }
    ]

-- Where `get_sq_cq_entries` succeeds, both sizes are powers of two, of at most 2^15 and 2^16;
-- the submission ring has at least the entries asked for, cut to 32768, and less than twice as
-- many, and the completion ring is not smaller.
pub get_sq_cq_entries-Sizes :
    (entries flags cq_entries : ℕ) {sq cq : ℕ}
    → get_sq_cq_entries entries flags cq_entries ≡ inr (sq, cq)
    → Sizes entries sq cq
unfolding get_sq_cq_entries
get_sq_cq_entries-Sizes entries flags cq_entries {sq} {cq} e =
    elim (Option-cases (clamped kern_max_entries flags entries)) [
      | inl refused ↦ absurd (refuses (rw refused at e))
      | inr (n, passed) ↦
          with_sq-Sizes entries flags cq_entries n
            (clamped-Within kern_max_entries flags entries (omega arith) passed) (rw passed at e)
    ]
  where
    refuses : with_sq flags cq_entries none ≡ inr (sq, cq) → ⊥
    refuses h = unfold with_sq in cc
