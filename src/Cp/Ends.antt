-- ===== src/Cp/Ends.antt =====
-- What `copy_file` of examples/io_uring-cp.c returns, and what it has copied then.
use liburing.Common.{
  Bool-cases, ℕ, ◌+◌, ◌*◌, ◌^◌, ◌<◌, ◌≤◌, ◌≡◌, ◌≢◌, refl, inl, inr, ap, Bool, true, false, List, [],
  ◌∷◌, arith,
}
use liburing.Common.Int.{ℤ, pos, is_neg, u64}
use mathlib.Core.Path.{subst}
use mathlib.Core.Bool.{false≢true}
use liburing.Cp.{IoData, Copy, At, Event, step, run, copy_file}
use liburing.Cp.Requests.{total}
use liburing.Cp.Inv.{Inv, Copied, work, read_len, length-work, length-total}
use liburing.Cp.Moves.{GoodAt, outer-Good}
use liburing.Cp.Runs.{IsLegal, bytes, all_bytes, step-Good}

module _ (infile : ℕ → ℕ) (alloc : Copy → Bool) (enter : Copy → ℤ) where
  -- Each event is legal where it comes.
  unfoldable pub IsRun : (failing : Bool) → At → List Event → Type 0
  IsRun failing a [] = Unit
  IsRun failing a (e ∷ es) = IsLegal failing a e × IsRun failing (step infile alloc enter a e) es

abbrev Good : (infile : ℕ → ℕ) (size : ℕ) (failing : Bool) → ℕ → At → Type 0
Good infile size failing = GoodAt infile size (failing ≡ true)

module _ (infile : ℕ → ℕ) (size : ℕ) (failing : Bool) (fits : size < 2 ^ 63) (alloc : Copy → Bool)
    (enter : Copy → ℤ) (fine : (c : Copy) → is_neg (enter c) ≡ false) where
  run-Good :
      (b : ℕ) (a : At) (es : List Event)
      → Good infile size failing (b + all_bytes es) a
      → IsRun infile alloc enter failing a es
      → Good infile size failing b (run infile alloc enter a es)
  unfolding run IsRun
  run-Good b a [] g legal = subst (λ x. GoodAt infile size (failing ≡ true) x a) (omega arith) g
  run-Good b a (e ∷ es) g (legal, rest) =
      let sum : b + (bytes e + all_bytes es) ≡ b + all_bytes es + bytes e = omega arith in
      let g' : Good infile size failing (b + all_bytes es + bytes e) a =
        subst (λ x. GoodAt infile size (failing ≡ true) x a) sum g in
      run-Good b (step infile alloc enter a e) es
        (step-Good infile size failing fits alloc enter fine (b + all_bytes es) a e g' legal) rest

  copy_file-Good :
      (out : ℕ → ℕ) (b : ℕ)
      → 2 * size ≤ b
      → Good infile size failing b (copy_file alloc enter out size)
  unfolding copy_file
  copy_file-Good out b le =
      let c : Copy = record {
        insize = size;
        write_left = size;
        offset = 0;
        reads = 0;
        writes = 0;
        requests = [];
        queued = 0;
        out = out;
      } in
      outer-Good infile size b (failing ≡ true) fits alloc enter fine c record {
        holds = record {
          sizes = omega arith;
          left = omega arith;
          left_le = omega arith;
          reads = refl;
          writes = refl;
          few = omega arith;
          good = tt;
          covered = λ j lt. absurd (omega (arith, lt));
          spent = omega (arith, le);
        };
        room = omega arith;
        busy = tt;
      }

read_len-work : (xs : List IoData) → total read_len xs ≤ total work xs
read_len-work [] = omega arith
read_len-work (d ∷ xs) = elim (Bool-cases d.read) [
  | inl e ↦ let rest = read_len-work xs in rw e (omega (arith, rest))
  | inr e ↦ let rest = read_len-work xs in rw e (omega (arith, rest))
]

unread : {infile : ℕ → ℕ} {size : ℕ} {c : Copy} → Inv infile size 0 c → ¬ (1 ≤ c.write_left)
unread {infile} {size} {c} v left =
    omega (arith, v.holds.spent, v.holds.left, left, read_len-work c.requests)

Returns : (infile : ℕ → ℕ) (size : ℕ) → At → Type 0
Returns infile size a = (c : Copy) × ((a ≡ At.done (pos 0) c) × Copied infile size c)

no_work : (infile : ℕ → ℕ) (size : ℕ) (a : At) → Good infile size false 0 a → Returns infile size a
unfolding GoodAt Returns
no_work infile size (At.wait c) (v, left) = absurd (unread v left)
no_work infile size (At.peek c) (v, left) = absurd (unread v left)
no_work infile size (At.drain c) (v, (none_in, (none_left, some_writes))) = absurd (
    omega (
      arith,
      v.holds.spent,
      v.holds.writes,
      some_writes,
      length-work c.requests v.busy,
      length-total c.requests,
    ))
no_work infile size (At.done ret c) (inl (zero_ret, all)) =
    (c, (ap (λ r. At.done r c) zero_ret, all))
no_work infile size (At.done ret c) (inr (_, may)) = absurd (false≢true may)
no_work infile size (At.abort c) g = elim g [ ]
no_work infile size (At.spin c) g = elim g [ ]

module _ (infile : ℕ → ℕ) (size : ℕ) (alloc : Copy → Bool) (enter : Copy → ℤ) (out : ℕ → ℕ)
    (es : List Event) (fits : size < 2 ^ 63) (fine : (c : Copy) → is_neg (enter c) ≡ false) where
  -- For a file of fewer than 2^63 bytes, where io_uring_submit does not fail, each completion is
  -- of a request that was submitted and has not completed, and moves at most the bytes that it
  -- is asked for or fails, and in the last loop moves all of them or fails: where `copy_file`
  -- returns 0, every byte of the output is that of the input.
  pub copy_file-copies :
      IsRun infile alloc enter true (copy_file alloc enter out size) es
      → (c : Copy) → run infile alloc enter (copy_file alloc enter out size) es ≡ At.done (pos 0) c
      → (j : ℕ) → j < size
      → c.out j ≡ infile j
  unfolding GoodAt
  copy_file-copies legal c e =
      let start =
        copy_file-Good infile size true fits alloc enter fine out (2 * size + all_bytes es)
          (omega arith) in
      let g : Good infile size true (2 * size) (At.done (pos 0) c) =
        subst (Good infile size true (2 * size)) e (
          run-Good infile size true fits alloc enter fine (2 * size)
            (copy_file alloc enter out size) es start legal) in
      elim g [ inl (_, all) ↦ all | inr (is, _) ↦ absurd (omega (arith, ap u64 is)) ]

  -- For a file of fewer than 2^63 bytes, where io_uring_submit does not fail, no wait fails,
  -- each completion is of a request that was submitted and has not completed, moves at most the
  -- bytes that it is asked for or is to be tried again, and in the last loop moves all of them:
  -- once the completions have moved twice the bytes of the file, in whatever order and however
  -- short the reads and writes were, `copy_file` has returned 0, and every byte of the output is
  -- that of the input.
  pub copy_file-ends :
      IsRun infile alloc enter false (copy_file alloc enter out size) es
      → 2 * size ≤ all_bytes es
      → (c : Copy) × ((run infile alloc enter (copy_file alloc enter out size) es
            ≡ At.done (pos 0) c)
          × ((j : ℕ) → j < size → c.out j ≡ infile j))
  unfolding Returns
  copy_file-ends legal enough =
      let start =
        copy_file-Good infile size false fits alloc enter fine out (0 + all_bytes es)
          (omega (arith, enough)) in
      no_work infile size (run infile alloc enter (copy_file alloc enter out size) es) (
        run-Good infile size false fits alloc enter fine 0 (copy_file alloc enter out size) es start
          legal)

  -- Under the conditions of `copy_file-copies` no assertion of `queue_prepped` fails, and the
  -- main loop never goes round with nothing to wait for and something left to read.
  pub copy_file-never_aborts :
      IsRun infile alloc enter true (copy_file alloc enter out size) es
      → (c : Copy)
      → (run infile alloc enter (copy_file alloc enter out size) es ≢ At.abort c)
        × (run infile alloc enter (copy_file alloc enter out size) es ≢ At.spin c)
  unfolding GoodAt
  copy_file-never_aborts legal c =
      let start =
        copy_file-Good infile size true fits alloc enter fine out (2 * size + all_bytes es)
          (omega arith) in
      let g =
        run-Good infile size true fits alloc enter fine (2 * size) (copy_file alloc enter out size)
          es start legal in
      (
        λ e. subst (Good infile size true (2 * size)) e g,
        λ e. subst (Good infile size true (2 * size)) e g,
      )
