-- ===== src/Cp/Runs.antt =====
-- Runs of `copy_file` of examples/io_uring-cp.c on what the kernel may answer.
use liburing.Common.{
  ℕ, ◌+◌, ◌%◌, ◌^◌, ◌<◌, ◌≤◌, ◌≡◌, ◌≢◌, refl, sym, ◌∙◌, ◌⊎◌, inl, inr, Bool, true, false, some,
  List, [], ◌∷◌, length, ◌==◌, sub64, Bool-cases, arith,
}
use liburing.Common.Int.{ℤ, pos, negsuc, neg, is_neg, eqb}
use liburing.Abi.Errno
use mathlib.Core.Path.{subst}
use mathlib.Core.Bool.{true≢false}
use liburing.Cp.{
  bs, IoData, Copy, At, Event, nth, removed, adjusted, moved_bytes, request_after, copy_after,
  on_completion, handle, handle_last, step,
}
use liburing.Cp.Requests.{total, All, All-nth, All-removed, total-removed}
use liburing.Cp.Inv.{InvOf, Inv, IsBusy, IsGood, is_read, no_reads}
use liburing.Cp.Complete.{completed-InvOf, written-InvOf, length-removed}
use liburing.Cp.Moves.{GoodAt, to_drain-Good, outer-Good, requeue-Good, finish-Good}

-- A read or write moves no more bytes than it is asked for, is to be tried again, or fails where it may.
abbrev pub IsAnswer : (failing : Bool) → IoData → ℤ → Type 0
IsAnswer failing d res =
    (moved_bytes res ≤ d.iov_len)
    × ((is_neg res ≡ false) ⊎ ((eqb res (neg Errno.eagain) ≡ true) ⊎ (failing ≡ true)))

-- In the last loop a write moves all its bytes, or fails where it may.
abbrev pub IsLastAnswer : (failing : Bool) → IoData → ℤ → Type 0
IsLastAnswer failing d res =
    ((moved_bytes res ≡ d.iov_len) × (is_neg res ≡ false))
    ⊎ ((is_neg res ≡ true) × ((moved_bytes res ≡ 0) × (failing ≡ true)))

-- A wait is answered by one of the requests that have been submitted, by none, or by an error where it may.
unfoldable pub IsLegal : (failing : Bool) → At → Event → Type 0
IsLegal failing (At.wait c) (Event.completed i res) =
    (d : IoData) × ((nth (c.queued + i) c.requests ≡ some d) × IsAnswer failing d res)
IsLegal failing (At.peek c) (Event.completed i res) =
    (d : IoData) × ((nth (c.queued + i) c.requests ≡ some d) × IsAnswer failing d res)
IsLegal failing (At.drain c) (Event.completed i res) =
    (d : IoData) × ((nth (c.queued + i) c.requests ≡ some d) × IsLastAnswer failing d res)
IsLegal failing (At.done ret c) e = Unit
IsLegal failing a Event.failed = failing ≡ true
IsLegal failing a e = Unit

abbrev pub bytes : Event → ℕ
bytes (Event.completed i res) = moved_bytes res
bytes _ = 0

-- The bytes that a run reads and writes
abbrev pub all_bytes : List Event → ℕ
all_bytes [] = 0
all_bytes (e ∷ es) = let rest = all_bytes es in bytes e + rest

adjusted-zero : (d : IoData) → d.iov_len ≤ bs → adjusted 0 d ≡ d
adjusted-zero d le =
    let base : d.iov_base + 0 ≡ d.iov_base = omega arith in
    let len : sub64 d.iov_len 0 ≡ d.iov_len = omega (arith, le) in
    let place : d.offset + 0 ≡ d.offset = omega arith in rw (base, len, place) refl

last_le :
    (failing : Bool) (d : IoData) (res : ℤ)
    → IsLastAnswer failing d res
    → moved_bytes res ≤ d.iov_len
last_le failing d res (inl (whole, _)) = omega (arith, whole)
last_le failing d res (inr (_, (nothing, _))) = omega (arith, nothing)

on_completion-some :
    (infile : ℕ → ℕ) (next : IoData → ℤ → Copy → At) (stay : At) (i : ℕ) (res : ℤ) (c : Copy)
    {d : IoData}
    → nth (c.queued + i) c.requests ≡ some d
    → on_completion infile next stay i res c
      ≡ next (request_after infile res d) res (copy_after infile i res d c)
unfolding on_completion
on_completion-some infile next stay i res c e = rw (e, on_completion) refl

weaker : {infile : ℕ → ℕ} {size b : ℕ} {c : Copy} → Inv infile size (b + 0) c → Inv infile size b c
weaker {infile} {size} {b} {c} v = subst (λ x. Inv infile size x c) (omega arith) v

module _ (infile : ℕ → ℕ) (size : ℕ) (failing : Bool) (fits : size < 2 ^ 63) where
  abbrev pub Good : ℕ → At → Type 0
  Good = GoodAt infile size (failing ≡ true)

  module _ (alloc : Copy → Bool) (enter : Copy → ℤ)
      (fine : (c : Copy) → is_neg (enter c) ≡ false) where
    handle-Good :
        (b : ℕ) (c : Copy) (d : IoData) (res : ℤ)
        → InvOf infile size b c (adjusted (moved_bytes res) d ∷ c.requests)
        → c.queued ≤ length c.requests
        → All IsBusy c.requests
        → IsBusy d
        → d.iov_len ≤ bs
        → IsAnswer failing d res
        → Good b (handle alloc enter d res c)
    unfolding handle GoodAt
    handle-Good b c d (pos n) v room busy p le (lt, _) =
        let w : n % 2 ^ 64 ≡ n = omega (arith, lt, le) in
        elim (Bool-cases (n == d.iov_len)) [
          | inl e ↦
              let n_is : n ≡ d.iov_len = ground arith in
              rw (w, e)
                (finish-Good infile size b (failing ≡ true) fits alloc enter fine n c d v room busy
                  (omega (arith, n_is, le)))
          | inr e ↦
              let n_not : n ≢ d.iov_len = ground arith in
              rw (w, e)
                (requeue-Good infile size b (failing ≡ true) fits alloc enter fine c (adjusted n d)
                  v room busy (omega (arith, n_not, lt, le)))
        ]
    handle-Good b c d (negsuc m) v room busy p le (lt, why) = elim (Bool-cases (m == 10)) [
      | inl e ↦
          let v' : InvOf infile size b c (d ∷ c.requests) =
            subst (λ y. InvOf infile size b c (y ∷ c.requests)) (adjusted-zero d le) v in
          rw e
            (requeue-Good infile size b (failing ≡ true) fits alloc enter fine c d v' room busy p)
      | inr e ↦ elim why [
        | inl is ↦ absurd (true≢false is)
        | inr (inl again) ↦ absurd (true≢false (sym again ∙ e))
        | inr (inr may) ↦ rw e (inr (refl, may))
      ]
    ]

    module _ (b : ℕ) (c : Copy) (i : ℕ) (res : ℤ) (d : IoData)
        (v : Inv infile size (b + moved_bytes res) c) (e : nth (c.queued + i) c.requests ≡ some d)
        (le : moved_bytes res ≤ d.iov_len) where
      after : InvOf infile size b (copy_after infile i res d c) (
          adjusted (moved_bytes res) (request_after infile res d)
          ∷ removed (c.queued + i) c.requests)
      after = completed-InvOf v.holds i res e le (omega arith)

      room_after : c.queued ≤ length (removed (c.queued + i) c.requests)
      room_after = omega (arith, length-removed (c.queued + i) c.requests e)

      rest_after : All IsBusy (removed (c.queued + i) c.requests)
      rest_after = All-removed IsBusy (c.queued + i) c.requests v.busy

      len_after : (request_after infile res d).iov_len ≡ d.iov_len
      len_after = elim (Bool-cases d.read) [ inl r ↦ rw r refl | inr r ↦ rw r refl ]

      few_bytes : d.iov_len ≤ bs
      few_bytes =
          let g : IsGood infile c.out d =
            All-nth (IsGood infile c.out) (c.queued + i) c.requests e v.holds.good in
          omega (arith, g.progress, g.few_bytes)

      completed-Good :
          (stay : At)
          → IsAnswer failing d res
          → Good b (on_completion infile (handle alloc enter) stay i res c)
      completed-Good stay legal =
          let d' = request_after infile res d in
          let small : d'.iov_len ≤ bs = omega (arith, len_after, few_bytes) in
          let p : IsBusy d = All-nth IsBusy (c.queued + i) c.requests e v.busy in
          let p' : IsBusy d' = omega (arith, len_after, p) in
          let legal' : IsAnswer failing d' res = (omega (arith, len_after, le), legal.1) in
          rw (on_completion-some infile (handle alloc enter) stay i res c e) (
            handle-Good b (copy_after infile i res d c) d' res after room_after rest_after p' small
              legal')

      is_write : c.insize ≡ 0 → c.write_left ≡ 0 → d.read ≡ false
      is_write none_in none_left = elim (Bool-cases d.read) [
        | inr r ↦ r
        | inl r ↦
            let none : total is_read c.requests ≡ 0 =
              no_reads infile c.out c.requests v.holds.good
                (omega (arith, v.holds.left, none_in, none_left)) in
            let one : 1 + total is_read (removed (c.queued + i) c.requests)
                ≡ total is_read c.requests =
              rw r at (total-removed is_read (c.queued + i) c.requests e) in
            absurd (omega (arith, none, one))
      ]

      read_after : d.read ≡ false → (request_after infile res d).read ≡ false
      read_after r = rw r refl

      drained-Good :
          (stay : At)
          → c.insize ≡ 0
          → c.write_left ≡ 0
          → IsLastAnswer failing d res
          → Good b (on_completion infile handle_last stay i res c)
      unfolding handle_last GoodAt
      drained-Good stay none_in none_left (inl (whole, fine)) =
          let d' = request_after infile res d in
          let full : sub64 d'.iov_len (moved_bytes res) ≡ 0 =
            omega (arith, len_after, whole, few_bytes) in
          let r = read_after (is_write none_in none_left) in
          let c' : Copy = record (copy_after infile i res d c) { writes = sub64 c.writes 1 } in
          let w = written-InvOf (moved_bytes res) d' after full fits r in
          rw (on_completion-some infile handle_last stay i res c e, fine)
            (to_drain-Good infile size b (failing ≡ true) fits c'
              (record { holds = w; room = room_after; busy = rest_after }) none_in none_left)
      drained-Good stay none_in none_left (inr (is, (nothing, may))) =
          rw (on_completion-some infile handle_last stay i res c e, is) (inr (refl, may))

    pub step-Good :
        (b : ℕ) (a : At) (ev : Event)
        → Good (b + bytes ev) a
        → IsLegal failing a ev
        → Good b (step infile alloc enter a ev)
    unfolding step GoodAt IsLegal
    step-Good b (At.wait c) (Event.completed i res) (v, left) (d, (e, answer)) =
        completed-Good b c i res d v e answer.0 (At.wait c) answer
    step-Good b (At.wait c) Event.failed g may = inr (refl, may)
    step-Good b (At.wait c) Event.nothing (v, left) legal = (weaker v, left)
    step-Good b (At.peek c) (Event.completed i res) (v, left) (d, (e, answer)) =
        completed-Good b c i res d v e answer.0 (At.peek c) answer
    step-Good b (At.peek c) Event.failed g may = inr (refl, may)
    step-Good b (At.peek c) Event.nothing (v, left) legal =
        outer-Good infile size b (failing ≡ true) fits alloc enter fine c (weaker v)
    step-Good b (At.drain c) (Event.completed i res) (v, (none_in, (none_left, _)))
          (d, (e, answer)) =
        drained-Good b c i res d v e (last_le failing d res answer) (At.drain c) none_in none_left
          answer
    step-Good b (At.drain c) Event.failed g may = inr (refl, may)
    step-Good b (At.drain c) Event.nothing (v, rest) legal = (weaker v, rest)
    step-Good b (At.done ret c) ev g legal = g
    step-Good b (At.abort c) ev g legal = elim g [ ]
    step-Good b (At.spin c) ev g legal = elim g [ ]
