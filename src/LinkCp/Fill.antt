-- ===== src/LinkCp/Fill.antt =====
-- The loop of examples/link-cp.c that queues pairs, and what the requests write.
use liburing.Common.{
  ℕ, zero, suc, ◌+◌, ◌*◌, ◌==◌, ◌&&◌, ◌≡◌, ◌≢◌, ◌≤◌, ◌<◌, refl, ap, ◌∙◌, ◌⊎◌, inl, inr, true,
  Bool-cases, Option-cases, some, List, [], ◌∷◌, ◌++◌, length, length-append, ltb, leb,
  if◌then◌else◌, arith,
}
use mathlib.Core.Path.{subst}
use mathlib.Core.Option.{some-injective, none-ne-some}
use liburing.LinkCp.{
  Copy, Request, qd, pair, with_pair, queue_rw_pair, queued, this_size, queue_pairs,
}

-- How many of the requests write the byte `x`
abbrev pub hits : ℕ → List Request → ℕ
hits x [] = 0
hits x (r ∷ rs) =
    let rest = hits x rs in
    (if r.is_write && leb r.io.offset x && ltb x (r.io.offset + r.io.iov_len) then 1 else 0) + rest

pub hits-append : (x : ℕ) (rs ss : List Request) → hits x (rs ++ ss) ≡ hits x rs + hits x ss
hits-append x [] ss = omega arith
hits-append x (r ∷ rs) ss = omega (arith, hits-append x rs ss)

-- Every request is counted, and each byte of the file up to `offset` is written by a request in the ring or by one
-- of `written`.
pub record Copying (total : ℕ) (written : List Request) (c : Copy) : Type 0 where
  pub counted : c.inflight ≡ length c.prepared + length c.submitted
  pub place : c.offset + c.insize ≡ total
  pub kept : (x : ℕ) → x < c.offset → 1 ≤ hits x c.prepared + hits x c.submitted + hits x written

pub none_there : (x : ℕ) (l : List Request) → length l ≡ 0 → hits x l ≡ 0
none_there x [] e = refl
none_there x (r ∷ l) e = absurd (omega (arith, e))

pub queue_rw_pair-added :
    (c c' : Copy) (size offset : ℕ)
    → queue_rw_pair c size offset ≡ some c'
    → with_pair c size offset ≡ c'
unfolding queue_rw_pair
queue_rw_pair-added c c' size offset e = elim (Bool-cases (ltb (length c.prepared + 1) qd)) [
  | inl room ↦ some-injective _ _ (rw room at e)
  | inr full ↦ absurd (none-ne-some c' (rw full at e))
]

-- The byte of a new pair
pub new_hit :
    (at offset size x : ℕ)
    → offset ≤ x
    → x < offset + size
    → hits x (pair (record { at = at; offset = offset; iov_len = size })) ≡ 1
new_hit at offset size x low high =
    let l : leb offset x ≡ true = ground arith in
    let h : ltb x (offset + size) ≡ true = ground arith in rw (l, h) refl

this_size-le : (c : Copy) → this_size c ≤ c.insize
this_size-le c = ground arith

module _ (total : ℕ) (written : List Request) where
  queued-Copying :
      (c : Copy) (size : ℕ)
      → size ≤ c.insize
      → Copying total written c
      → Copying total written (queued size (with_pair c size c.offset))
  queued-Copying c size le v = record {
    counted = omega (
      arith,
      v.counted,
      length-append c.prepared
          (pair (record { at = c.allocated; offset = c.offset; iov_len = size })),
    );
    place = omega (arith, v.place, le);
    kept = λ x lt.
        let new = pair (record { at = c.allocated; offset = c.offset; iov_len = size }) in
        let more = hits-append x c.prepared new in
        elim (Bool-cases (ltb x c.offset)) [
          | inl old ↦ let below : x < c.offset = ground arith in omega (arith, more, v.kept x below)
          | inr fresh ↦
              let from : c.offset ≤ x = ground arith in
              omega (arith, more, new_hit c.allocated c.offset size x from lt)
        ];
  }

  -- What the inner loop does in `n` rounds
  pub record Filled (n : ℕ) (c c' : Copy) : Type 0 where
    pub copying : Copying total written c'
    pub grown : c.inflight ≤ c'.inflight
    pub full : qd ≤ c.inflight + 2 * n → (c'.insize ≡ 0) ⊎ (qd ≤ c'.inflight)
    pub started : c.insize ≢ 0 → c.inflight < qd → 1 ≤ n → c.inflight + 2 ≤ c'.inflight

  pub queue_pairs-Filled :
      (n : ℕ) (c c' : Copy) → Copying total written c → queue_pairs n c ≡ some c' → Filled n c c'
  unfolding queue_pairs
  queue_pairs-Filled zero c c' v e = subst (Filled 0 c) (some-injective _ _ e) (record {
    copying = v;
    grown = omega arith;
    full = λ le. inr (omega (arith, le));
    started = λ x y z. absurd (omega (arith, z));
  })
  queue_pairs-Filled (suc n) c c' v e = elim (Bool-cases (c.insize == 0)) [
    | inl over ↦
        let z : c.insize ≡ 0 = ground arith in
        subst (Filled (suc n) c) (some-injective _ _ (rw over at e)) (record {
          copying = v;
          grown = omega arith;
          full = λ le. inl z;
          started = λ x y w. absurd (x z);
        })
    | inr left ↦ elim (Bool-cases (ltb c.inflight qd)) [
      | inr many ↦
          let z : qd ≤ c.inflight = ground arith in
          subst (Filled (suc n) c) (some-injective _ _ (rw (left, many) at e)) (record {
            copying = v;
            grown = omega arith;
            full = λ le. inr z;
            started = λ x y w. absurd (omega (arith, z, y));
          })
      | inl few ↦ elim (Option-cases (queue_rw_pair c (this_size c) c.offset)) [
        | inl crash ↦ absurd (none-ne-some c' (rw (left, few, crash) at e))
        | inr (next, got) ↦
            let size = this_size c in
            let round = queued size (with_pair c size c.offset) in
            let rest : queue_pairs n (queued size next) ≡ some c' = rw (left, few, got) at e in
            let same = queue_rw_pair-added c next size c.offset got in
            let h =
              queue_pairs-Filled n round c' (queued-Copying c size (this_size-le c) v)
                (ap (λ d. queue_pairs n (queued size d)) same ∙ rest) in
            let grown : c.inflight + 2 ≤ c'.inflight = h.grown in
            record {
              copying = h.copying;
              grown = omega (arith, grown);
              full = λ le. h.full (omega (arith, le));
              started = λ x y w. grown;
            }
      ]
    ]
  ]
