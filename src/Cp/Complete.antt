-- ===== src/Cp/Complete.antt =====
-- A completion of examples/io_uring-cp.c: what the kernel has moved keeps the invariant.
use liburing.Common.{
  ℕ, zero, suc, ◌+◌, ◌-◌, ◌*◌, ◌^◌, ◌<◌, ◌≤◌, ◌≡◌, refl, ap, sym, ◌∙◌, ◌⊎◌, inl, inr, true, false,
  some, List, [], ◌∷◌, length, ltb, leb, if◌then◌else◌, sub64, Bool-cases, arith,
}
use liburing.Common.Int.{ℤ}
use mathlib.Core.Bool.{true≢false}
use mathlib.Core.Option.{none-ne-some}
use native.Mathlib.Decide.{dec_lt}
use liburing.Cp.{
  bs, IoData, Copy, nth, removed, moved, adjusted, to_write, request_after, copy_after, moved_bytes,
}
use liburing.Cp.Requests.{total, Any, total-removed, All-nth, All-removed, All-map, Any-removed}
use liburing.Cp.Inv.{IsGood, Grows, IsGood-Grows, InvOf, Covers, is_read, is_write, read_len, work}

moved-within :
    (dst : ℕ → ℕ) (at_dst : ℕ) (src : ℕ → ℕ) (at_src n x : ℕ)
    → at_dst ≤ x
    → x < at_dst + n
    → moved dst at_dst src at_src n x ≡ src (at_src + (x - at_dst))
moved-within dst at_dst src at_src n x le lt =
    let a : leb at_dst x ≡ true = ground arith in
    let b : ltb x (at_dst + n) ≡ true = ground arith in rw (a, b) refl

moved-outside :
    (dst : ℕ → ℕ) (at_dst : ℕ) (src : ℕ → ℕ) (at_src n x : ℕ)
    → (x < at_dst) ⊎ (at_dst + n ≤ x)
    → moved dst at_dst src at_src n x ≡ dst x
moved-outside dst at_dst src at_src n x (inl lt) =
    let a : leb at_dst x ≡ false = ground arith in rw a refl
moved-outside dst at_dst src at_src n x (inr le) =
    let b : ltb x (at_dst + n) ≡ false = ground arith in
    elim (Bool-cases (leb at_dst x)) [ inl a ↦ rw (a, b) refl | inr a ↦ rw a refl ]

side : (a n x : ℕ) → ((a ≤ x) × (x < a + n)) ⊎ ((x < a) ⊎ (a + n ≤ x))
side a n x = omega arith

module _ {infile out : ℕ → ℕ} {d : IoData} (g : IsGood infile out d) (n : ℕ)
    (le : n ≤ d.iov_len) where
  -- A write puts bytes of the input where they belong.
  pub write-copies :
      d.read ≡ false
      → (x : ℕ) → d.offset ≤ x
      → x < d.offset + n
      → moved out d.offset d.buf d.iov_base n x ≡ infile x
  write-copies w x from to =
      let inside : d.iov_base + (x - d.offset) < (if d.read then d.iov_base else d.first_len) =
        rw w (omega (arith, from, to, le, g.progress)) in
      let there : d.first_offset + (d.iov_base + (x - d.offset)) ≡ x =
        omega (arith, from, g.place) in
      moved-within out d.offset d.buf d.iov_base n x from to
      ∙ g.filled (d.iov_base + (x - d.offset)) inside
      ∙ ap infile there

  pub write-Grows : d.read ≡ false → Grows infile out (moved out d.offset d.buf d.iov_base n)
  write-Grows w x e = elim (side d.offset n x) [
    | inl (from, to) ↦ write-copies w x from to
    | inr off ↦ moved-outside out d.offset d.buf d.iov_base n x off ∙ e
  ]

  read-fills :
      d.read ≡ true
      → (i : ℕ) → i < d.iov_base + n
      → moved d.buf d.iov_base infile d.offset n i ≡ infile (d.first_offset + i)
  read-fills e i lt = elim (dec_lt i d.iov_base) [
    | yes old ↦ moved-outside d.buf d.iov_base infile d.offset n i (inl old) ∙ g.filled i (rw e old)
    | no new ↦
        let there : d.offset + (i - d.iov_base) ≡ d.first_offset + i =
          omega (arith, g.place, new) in
        moved-within d.buf d.iov_base infile d.offset n i (omega (arith, new)) lt ∙ ap infile there
  ]

  -- The request goes on from where the kernel has left it.
  pub after-IsGood : IsGood infile (if d.read then out else moved out d.offset d.buf d.iov_base n) (
      adjusted n
        (if d.read then record d { buf = moved d.buf d.iov_base infile d.offset n } else d))
  after-IsGood = elim (Bool-cases d.read) [
    | inl e ↦ rw e record {
      some_bytes = g.some_bytes;
      few_bytes = g.few_bytes;
      progress = omega (arith, le, g.progress, g.few_bytes);
      place = omega (arith, g.place);
      filled = λ i lt. read-fills e i lt;
      written = λ w. absurd (true≢false w);
    }
    | inr e ↦ rw e record {
      some_bytes = g.some_bytes;
      few_bytes = g.few_bytes;
      progress = omega (arith, le, g.progress, g.few_bytes);
      place = omega (arith, g.place);
      filled = λ i lt. g.filled i (rw e lt);
      written = λ w i lt. elim (dec_lt i d.iov_base) [
        | yes old ↦ write-Grows e (d.first_offset + i) (g.written e i old)
        | no new ↦
            write-copies e (d.first_offset + i) (omega (arith, g.place, new))
              (omega (arith, g.place, lt))
      ];
    }
  ]

pub length-removed :
    {A : Type 0} (k : ℕ) (xs : List A) {x : A} → nth k xs ≡ some x → k ≤ length (removed k xs)
length-removed k [] {x} e = absurd (none-ne-some x e)
length-removed zero (y ∷ xs) e = omega arith
length-removed (suc k) (y ∷ xs) e = omega (arith, length-removed k xs e)

module _ {infile : ℕ → ℕ} {size b b' : ℕ} {c : Copy} (v : InvOf infile size b c c.requests) (i : ℕ)
    (res : ℤ) {d : IoData} (e : nth (c.queued + i) c.requests ≡ some d)
    (le : moved_bytes res ≤ d.iov_len) (pay : b ≤ b' + moved_bytes res) where
  -- The request that has completed, adjusted, stands for itself among the others.
  pub completed-InvOf :
      InvOf infile size b' (copy_after infile i res d c) (
        adjusted (moved_bytes res) (request_after infile res d) ∷ removed (c.queued + i) c.requests)
  completed-InvOf =
      let k = c.queued + i in
      let ys = removed k c.requests in
      let g : IsGood infile c.out d = All-nth (IsGood infile c.out) k c.requests e v.good in
      let n = moved_bytes res in
      let goods = All-removed (IsGood infile c.out) k c.requests v.good in
      let small : d.iov_len ≤ bs = omega (arith, g.progress, g.few_bytes) in
      elim (Bool-cases d.read) [
        | inl r ↦
            let lens : d.first_len + total read_len ys ≡ total read_len c.requests =
              rw r at (total-removed read_len k c.requests e) in
            let reads : 1 + total is_read ys ≡ total is_read c.requests =
              rw r at (total-removed is_read k c.requests e) in
            let writes : 0 + total is_write ys ≡ total is_write c.requests =
              rw r at (total-removed is_write k c.requests e) in
            let works : d.iov_len + d.first_len + total work ys ≡ total work c.requests =
              rw r at (total-removed work k c.requests e) in
            rw r record {
              sizes = v.sizes;
              left = omega (arith, v.left, lens);
              left_le = v.left_le;
              reads = omega (arith, v.reads, reads);
              writes = omega (arith, v.writes, writes);
              few = v.few;
              good = (rw r at (after-IsGood g n le), goods);
              covered = λ j lt. over (v.covered j lt);
              spent = omega (arith, v.spent, pay, works, le, small);
            }
        | inr r ↦
            let lens : 0 + total read_len ys ≡ total read_len c.requests =
              rw r at (total-removed read_len k c.requests e) in
            let reads : 0 + total is_read ys ≡ total is_read c.requests =
              rw r at (total-removed is_read k c.requests e) in
            let writes : 1 + total is_write ys ≡ total is_write c.requests =
              rw r at (total-removed is_write k c.requests e) in
            let works : d.iov_len + total work ys ≡ total work c.requests =
              rw r at (total-removed work k c.requests e) in
            let grows = write-Grows g n le r in
            let out' = moved c.out d.offset d.buf d.iov_base n in
            rw r record {
              sizes = v.sizes;
              left = omega (arith, v.left, lens);
              left_le = v.left_le;
              reads = omega (arith, v.reads, reads);
              writes = omega (arith, v.writes, writes);
              few = v.few;
              good = (
                rw r at (after-IsGood g n le),
                All-map (IsGood infile c.out) (IsGood infile out') (λ x p. IsGood-Grows grows p) ys
                    goods,
              );
              covered = λ j lt. elim (over (v.covered j lt)) [
                | inl there ↦ inl (grows j there)
                | inr held ↦ inr held
              ];
              spent = omega (arith, v.spent, pay, works, le, small);
            }
      ]
    where
      over :
          {P : Type 0} {j : ℕ}
          → P ⊎ Any (Covers j) c.requests
          → P ⊎ (Covers j d ⊎ Any (Covers j) (removed (c.queued + i) c.requests))
      over (inl there) = inl there
      over {P} {j} (inr held) = inr (Any-removed (Covers j) (c.queued + i) c.requests e held)

module _ {infile : ℕ → ℕ} {size b : ℕ} {c : Copy} {ys : List IoData} (n : ℕ) (d : IoData)
    (x : InvOf infile size b c (adjusted n d ∷ ys)) (full : sub64 d.iov_len n ≡ 0)
    (fits : size < 2 ^ 63) where
  -- The write of all that a request has read takes its place.
  pub read-InvOf :
      d.read ≡ true
      → InvOf infile size b
          (record c {
            write_left = sub64 c.write_left d.first_len;
            reads = sub64 c.reads 1;
            writes = c.writes + 1;
          })
          (to_write d ∷ ys)
  read-InvOf r =
      let (p, ps) = x.good in
      let all : (d.iov_base + n) + sub64 d.iov_len n ≡ d.first_len = p.progress in
      let left : c.write_left ≡ c.insize + (d.first_len + total read_len ys) = rw r at x.left in
      let reads : c.reads ≡ 1 + total is_read ys = rw r at x.reads in
      let writes : c.writes ≡ 0 + total is_write ys = rw r at x.writes in
      let spent : 2 * c.insize + ((sub64 d.iov_len n + d.first_len) + total work ys) ≤ b =
        rw r at x.spent in
      let filled : ((i : ℕ) → i < d.iov_base + n → d.buf i ≡ infile (d.first_offset + i)) =
        rw r at p.filled in
      record {
        sizes = x.sizes;
        left = omega (arith, left, x.left_le, fits);
        left_le = omega (arith, left, x.left_le, fits);
        reads = omega (arith, reads, x.few);
        writes = omega (arith, writes);
        few = omega (arith, reads, x.few);
        good = (
          record {
            some_bytes = p.some_bytes;
            few_bytes = p.few_bytes;
            progress = omega arith;
            place = omega arith;
            filled = λ i lt. filled i (omega (arith, all, full, lt));
            written = λ w i lt. absurd (omega (arith, lt));
          },
          ps,
        );
        covered = x.covered;
        spent = omega (arith, spent);
      }

  -- A request all of which is written is forgotten.
  pub written-InvOf :
      d.read ≡ false → InvOf infile size b (record c { writes = sub64 c.writes 1 }) ys
  written-InvOf r =
      let (p, ps) = x.good in
      let all : (d.iov_base + n) + sub64 d.iov_len n ≡ d.first_len = p.progress in
      let left : c.write_left ≡ c.insize + (0 + total read_len ys) = rw r at x.left in
      let reads : c.reads ≡ 0 + total is_read ys = rw r at x.reads in
      let writes : c.writes ≡ 1 + total is_write ys = rw r at x.writes in
      let spent : 2 * c.insize + (sub64 d.iov_len n + total work ys) ≤ b = rw r at x.spent in
      record {
        sizes = x.sizes;
        left = omega (arith, left);
        left_le = x.left_le;
        reads = omega (arith, reads);
        writes = omega (arith, writes, x.few);
        few = omega (arith, writes, x.few);
        good = ps;
        covered = λ j lt. elim (x.covered j lt) [
          | inl there ↦ inl there
          | inr (inl (from, to)) ↦
              let at_j : d.first_offset + (j - d.first_offset) ≡ j = omega (arith, from) in
              let inside : j - d.first_offset < d.iov_base + n =
                omega (arith, from, to, all, full) in
              inl (ap c.out (sym at_j) ∙ p.written r (j - d.first_offset) inside ∙ ap infile at_j)
          | inr (inr held) ↦ inr held
        ];
        spent = omega (arith, spent);
      }
