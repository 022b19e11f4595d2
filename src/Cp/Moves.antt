-- ===== src/Cp/Moves.antt =====
-- The parts of `copy_file` of examples/io_uring-cp.c keep its invariant, from one wait or peek to the next.
use liburing.Common.{
  ℕ, zero, suc, ◌+◌, ◌-◌, ◌^◌, ◌<◌, ◌≤◌, ◌≡◌, refl, ◌⊎◌, inl, inr, Bool, false, ◌&&◌, Option, none,
  some, List, ◌∷◌, length, ◌==◌, eq→==, leb, min, sub64, Bool-cases, Option-cases, arith,
}
use liburing.Common.Int.{ℤ, pos, is_neg, u64}
use mathlib.Core.Bool.{true≢false}
use native.Mathlib.Decide.{dec_lt}
use liburing.Cp.{
  qd, bs, IoData, Copy, At, new_read, adjusted, to_write, submit, queue_prepped, queue_read,
  next_read, queue_reads, to_drain, inner_first, outer, inner_next, requeue, finish,
}
use liburing.Cp.Requests.{total, All}
use liburing.Cp.Inv.{InvOf, Inv, Copied, IsBusy, is_read, is_write, nothing_left, length-total}
use liburing.Cp.Complete.{read-InvOf, written-InvOf}

-- What holds where `copy_file` stands; a return of 1 has the reason `F`.
unfoldable pub GoodAt : (infile : ℕ → ℕ) (size : ℕ) (F : Type 0) (budget : ℕ) → At → Type 0
GoodAt infile size F b (At.wait c) = Inv infile size b c × (1 ≤ c.write_left)
GoodAt infile size F b (At.peek c) = Inv infile size b c × (1 ≤ c.write_left)
GoodAt infile size F b (At.drain c) =
    Inv infile size b c × ((c.insize ≡ 0) × ((c.write_left ≡ 0) × (1 ≤ c.writes)))
GoodAt infile size F b (At.done ret c) =
    ((ret ≡ pos 0) × Copied infile size c) ⊎ ((ret ≡ pos 1) × F)
GoodAt infile size F b (At.abort c) = ⊥
GoodAt infile size F b (At.spin c) = ⊥

InvOf-with :
    {infile : ℕ → ℕ} {size b : ℕ} {c : Copy} {xs : List IoData} (ys : List IoData) (q : ℕ)
    → InvOf infile size b c xs
    → InvOf infile size b (record c { requests = ys; queued = q }) xs
InvOf-with ys q v = record {
  sizes = v.sizes;
  left = v.left;
  left_le = v.left_le;
  reads = v.reads;
  writes = v.writes;
  few = v.few;
  good = v.good;
  covered = v.covered;
  spent = v.spent;
}

queue_prepped-some :
    (d : IoData) (c : Copy)
    → leb qd c.queued ≡ false
    → queue_prepped d c ≡ some (record c { requests = d ∷ c.requests; queued = c.queued + 1 })
unfolding queue_prepped
queue_prepped-some d c e = rw e refl

module _ (infile : ℕ → ℕ) (size b : ℕ) (F : Type 0) (fits : size < 2 ^ 63) where
  pub to_drain-Good :
      (c : Copy)
      → Inv infile size b c
      → c.insize ≡ 0
      → c.write_left ≡ 0
      → GoodAt infile size F b (to_drain c)
  unfolding to_drain GoodAt
  to_drain-Good c v none_in none_left = elim (Bool-cases (c.writes == 0)) [
    | inl e ↦
        let written : c.writes ≡ 0 = ground arith in
        rw e (inl (refl, nothing_left v.holds none_in none_left written))
    | inr e ↦
        let unwritten : 1 ≤ c.writes = ground arith in rw e (v, (none_in, (none_left, unwritten)))
  ]

  pub inner_first-Good : (c : Copy) → Inv infile size b c → GoodAt infile size F b (inner_first c)
  unfolding inner_first GoodAt
  inner_first-Good c v = elim (Bool-cases (c.write_left == 0)) [
    | inl e ↦
        let none_left : c.write_left ≡ 0 = ground arith in
        let none_in : c.insize ≡ 0 = omega (arith, v.holds.left, none_left) in
        rw (e, eq→== c.insize 0 none_in) (to_drain-Good c v none_in none_left)
    | inr e ↦ let some_left : 1 ≤ c.write_left = ground arith in rw e (v, some_left)
  ]

  read_queued-Inv :
      (c : Copy)
      → Inv infile size b c
      → 1 ≤ c.insize
      → c.reads + c.writes < qd
      → Inv infile size b (record c {
        insize = sub64 c.insize (min c.insize bs);
        offset = c.offset + min c.insize bs;
        reads = c.reads + 1;
        requests = new_read (min c.insize bs) c.offset ∷ c.requests;
        queued = c.queued + 1;
      })
  read_queued-Inv c v in' few =
      let w = v.holds in
      let n : ℕ = min c.insize bs in
      let n_le : n ≤ c.insize = ground arith in
      let n_bs : n ≤ bs = ground arith in
      let n_pos : 1 ≤ n = ground arith in
      record {
        holds = record {
          sizes = omega (arith, w.sizes, n_le, fits);
          left = omega (arith, w.left, w.sizes, n_le, fits);
          left_le = w.left_le;
          reads = omega (arith, w.reads);
          writes = omega (arith, w.writes);
          few = omega (arith, few);
          good = (
            record {
              some_bytes = n_pos;
              few_bytes = n_bs;
              progress = omega arith;
              place = omega arith;
              filled = λ i lt. absurd (omega (arith, lt));
              written = λ r. absurd (true≢false r);
            },
            w.good,
          );
          covered = λ j lt. elim (dec_lt j c.offset) [
            | yes old ↦ elim (w.covered j old) [ inl there ↦ inl there | inr held ↦ inr (inr held) ]
            | no new ↦ inr (inl (omega (arith, new), lt))
          ];
          spent = omega (arith, w.spent, w.sizes, n_le, fits);
        };
        room = omega (arith, v.room);
        busy = (n_pos, v.busy);
      }

  module _ (alloc : Copy → Bool) (enter : Copy → ℤ)
      (fine : (c : Copy) → is_neg (enter c) ≡ false) where
    submit-queued : (c : Copy) → submit enter c ≡ record c { queued = c.queued - u64 (enter c) }
    unfolding submit
    submit-queued c = rw (fine c) refl

    submit-Inv : (c : Copy) → Inv infile size b c → Inv infile size b (submit enter c)
    submit-Inv c v = rw (submit-queued c) record {
      holds = InvOf-with c.requests (c.queued - u64 (enter c)) v.holds;
      room = omega (arith, v.room);
      busy = v.busy;
    }

    -- A round that is left has changed nothing.
    AfterRead : Copy → Option Copy → Type 0
    AfterRead c none = Unit
    AfterRead c (some c') = Inv infile size b c'

    next_read-Inv : (c : Copy) → Inv infile size b c → AfterRead c (next_read alloc c)
    unfolding next_read queue_read AfterRead
    next_read-Inv c v = elim (Bool-cases (c.insize == 0)) [
      | inl e ↦ rw (e, next_read) tt
      | inr some_in ↦ elim (Bool-cases (leb qd (c.reads + c.writes))) [
        | inl e ↦ rw (some_in, e, next_read) tt
        | inr free ↦ elim (Bool-cases (alloc c)) [
          | inr e ↦ rw (some_in, free, e, next_read, queue_read) tt
          | inl got ↦ elim (Bool-cases (leb qd c.queued)) [
            | inl e ↦ rw (some_in, free, got, e, next_read, queue_read) tt
            | inr room ↦
                let in' : 1 ≤ c.insize = ground arith in
                let few : c.reads + c.writes < qd = ground arith in
                rw (some_in, free, got, room, next_read, queue_read) (read_queued-Inv c v in' few)
          ]
        ]
      ]
    ]

    queue_reads-Inv :
        (rounds : ℕ) (c : Copy)
        → Inv infile size b c
        → Inv infile size b (queue_reads alloc rounds c)
    unfolding queue_reads AfterRead
    queue_reads-Inv zero c v = v
    queue_reads-Inv (suc rounds) c v = elim (Option-cases (next_read alloc c)) [
      | inl e ↦ rw (e, queue_reads) v
      | inr (c', e) ↦
          let v' : Inv infile size b c' = rw e at (next_read-Inv c v) in
          rw (e, queue_reads) (queue_reads-Inv rounds c' v')
    ]

    pub outer-Good : (c : Copy) → Inv infile size b c → GoodAt infile size F b (outer alloc enter c)
    unfolding outer
    outer-Good c v =
        let c' = queue_reads alloc qd c in
        let v' = queue_reads-Inv qd c v in
        elim (Bool-cases (c.insize == 0 && c.write_left == 0)) [
          | inl e ↦
              let nothing : (c.insize ≡ 0) × (c.write_left ≡ 0) = ground arith in
              rw e (to_drain-Good c v nothing.0 nothing.1)
          | inr e ↦ elim (Bool-cases (c'.reads == c.reads)) [
            | inl same ↦ rw (e, same) (inner_first-Good c' v')
            | inr more ↦
                rw (e, more, fine c') (inner_first-Good (submit enter c') (submit-Inv c' v'))
          ]
        ]

    pub inner_next-Good :
        (c : Copy) → Inv infile size b c → GoodAt infile size F b (inner_next alloc enter c)
    unfolding inner_next GoodAt
    inner_next-Good c v = elim (Bool-cases (c.write_left == 0)) [
      | inl e ↦ rw e (outer-Good c v)
      | inr e ↦ let some_left : 1 ≤ c.write_left = ground arith in rw e (v, some_left)
    ]

    module _ (c : Copy) (d : IoData) (v : InvOf infile size b c (d ∷ c.requests))
        (room : c.queued ≤ length c.requests) (busy : All IsBusy c.requests) where
      not_full : leb qd c.queued ≡ false
      not_full =
          let len : suc (length c.requests)
              ≡ total is_read (d ∷ c.requests) + total is_write (d ∷ c.requests) =
            length-total (d ∷ c.requests) in
          let lt : c.queued < qd = omega (arith, len, v.reads, v.writes, v.few, room) in
          ground arith

      pub requeue-Good : IsBusy d → GoodAt infile size F b (requeue alloc enter d c)
      unfolding requeue
      requeue-Good p =
          let c' : Copy = record c { requests = d ∷ c.requests; queued = c.queued + 1 } in
          let v' : Inv infile size b c' = record {
            holds = InvOf-with (d ∷ c.requests) (c.queued + 1) v;
            room = omega (arith, room);
            busy = (p, busy);
          } in
          rw (queue_prepped-some d c not_full, requeue)
            (inner_next-Good (submit enter c') (submit-Inv c' v'))

    pub finish-Good :
        (n : ℕ) (c : Copy) (d : IoData)
        → InvOf infile size b c (adjusted n d ∷ c.requests)
        → c.queued ≤ length c.requests
        → All IsBusy c.requests
        → sub64 d.iov_len n ≡ 0
        → GoodAt infile size F b (finish alloc enter d c)
    unfolding finish
    finish-Good n c d x room busy full = elim (Bool-cases d.read) [
      | inl r ↦
          let c1 : Copy = record c { requests = to_write d ∷ c.requests; queued = c.queued + 1 } in
          let prepped = queue_prepped-some (to_write d) c (not_full c (adjusted n d) x room busy) in
          let c2 : Copy = record c {
            requests = to_write d ∷ c.requests;
            queued = c.queued + 1 - u64 (enter c1);
            write_left = sub64 c.write_left d.first_len;
            reads = sub64 c.reads 1;
            writes = c.writes + 1;
          } in
          let v : Inv infile size b c2 = record {
            holds =
                InvOf-with (to_write d ∷ c.requests) (c.queued + 1 - u64 (enter c1))
                  (read-InvOf n d x full fits r);
            room = omega (arith, room);
            busy = (x.good.0.some_bytes, busy);
          } in
          rw (r, prepped, submit-queued c1) (inner_next-Good c2 v)
      | inr r ↦
          let c' : Copy = record c { writes = sub64 c.writes 1 } in
          rw r (
            inner_next-Good c'
              (record { holds = written-InvOf n d x full fits r; room = room; busy = busy }))
    ]
