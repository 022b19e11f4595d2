-- ===== src/Udp/Account.antt =====
-- What examples/io_uring-udp.c does with the buffers that completions bring back.
use liburing.Common.{
  ℕ, ◌+◌, ◌*◌, shl32, ◌%◌, ◌^◌, ◌≡◌, refl, ap, sym, ◌∙◌, inl, inr, Bool-cases, ltb, ◌==◌,
  if◌then◌else◌, List, [], ◌∷◌, ◌++◌, arith,
}
use mathlib.Core.Path.{ap₂}
use liburing.Common.Int.{s32, u64}
use liburing.Sqe.{Sqe}
use liburing.Ring.{Kernel}
use liburing.Submit.Hands.{IsTaker}
use liburing.BufRing.{BufRing, buf_ring_add, buf_ring_advance, buf_ring_mask}
use liburing.Submission.Inv.{IsSq}
use liburing.Submission.Steps.{write_sqe}
use liburing.Submission.Pending.{Hands, none-Hands, append-Hands}
use liburing.Udp.{Ctx, SendmsgCtx, buffers, buffer_size, get_buffer, recycle_buffer}
use liburing.Udp.Supply.{Found}

abbrev pub count : ℕ → List ℕ → ℕ
count b [] = 0
count b (x ∷ xs) = let rest = count b xs in (if x == b then 1 else 0) + rest

pub count-append : (b : ℕ) (xs ys : List ℕ) → count b (xs ++ ys) ≡ count b xs + count b ys
count-append b [] ys = omega arith
count-append b (x ∷ xs) ys = omega (arith, count-append b xs ys)

-- The buffers that SQEs send from: those of the requests to receive carry another number.
abbrev pub send_ids : List Sqe → List ℕ
send_ids [] = []
send_ids (s ∷ ss) =
    let rest = send_ids ss in if ltb s.user_data buffers then s.user_data ∷ rest else rest

send_ids-append : (xs ys : List Sqe) → send_ids (xs ++ ys) ≡ send_ids xs ++ send_ids ys
send_ids-append [] ys = refl
send_ids-append (s ∷ xs) ys = elim (Bool-cases (ltb s.user_data buffers)) [
  | inl e ↦ rw e (ap (λ l. s.user_data ∷ l) (send_ids-append xs ys))
  | inr e ↦ rw e (send_ids-append xs ys)
]

-- Buffers given back to the kernel one by one
unfoldable pub recycle_all : (addr : ℕ → ℕ) (len : ℕ) → List ℕ → BufRing → BufRing
recycle_all addr len [] br = br
recycle_all addr len (idx ∷ ids) br =
    recycle_all addr len ids
      (buf_ring_advance (buf_ring_add br (addr idx) len idx (buf_ring_mask buffers) 0) 1)

recycle_all-append :
    (addr : ℕ → ℕ) (len : ℕ) (xs ys : List ℕ) (br : BufRing)
    → recycle_all addr len (xs ++ ys) br ≡ recycle_all addr len ys (recycle_all addr len xs br)
unfolding recycle_all
recycle_all-append addr len [] ys br = refl
recycle_all-append addr len (x ∷ xs) ys br =
    recycle_all-append addr len xs ys
      (buf_ring_advance (buf_ring_add br (addr x) len x (buf_ring_mask buffers) 0) 1)

-- From `c` to `c'` the buffers `given` have come back: some have been queued in SQEs to be sent, and those of
-- `back` are in the ring of buffers again.
pub record Done (k : ℕ) (c : Ctx) (given : List ℕ) (queued : List Sqe) (back : List ℕ) (c' : Ctx)
    : Type 0 where
  pub hands : Hands k c.ring queued c'.ring
  pub base : c'.buffer_base ≡ c.buffer_base
  pub shift : c'.buf_shift ≡ c.buf_shift
  pub recycled : c'.buf_ring ≡ recycle_all (get_buffer c) (buffer_size c) back c.buf_ring
  pub once : (b : ℕ) → count b given ≡ count b (send_ids queued) + count b back

pub none-Done : {k : ℕ} {c : Ctx} → IsSq k c.ring → Done k c [] [] [] c
unfolding recycle_all
none-Done v = record {
  hands = none-Hands v;
  base = refl;
  shift = refl;
  recycled = refl;
  once = λ b. omega arith;
}

pub recycle_buffer-Done :
    {k : ℕ} {c : Ctx} (idx : ℕ)
    → IsSq k c.ring
    → Done k c (idx ∷ []) [] (idx ∷ []) (recycle_buffer c idx)
unfolding recycle_all recycle_buffer
recycle_buffer-Done idx v = record {
  hands = none-Hands v;
  base = refl;
  shift = refl;
  recycled = refl;
  once = λ b. omega arith;
}

-- An SQE written where one has been found; the messages may change.
pub queue-Done :
    {k : ℕ} {kernel : Kernel} (taker : IsTaker k kernel) {c c' : Ctx} {i : ℕ} (s : Sqe)
    (send : ℕ → SendmsgCtx)
    → Found taker c c' i
    → Done k c
        (send_ids (s ∷ []))
        (s ∷ [])
        []
        (record c' { ring = write_sqe c'.ring i s; send = send })
unfolding recycle_all
queue-Done taker s send f = record {
  hands = f.hands s;
  base = ap (λ c. c.buffer_base) f.only_ring;
  shift = ap (λ c. c.buf_shift) f.only_ring;
  recycled = ap (λ c. c.buf_ring) f.only_ring;
  once = λ b. omega arith;
}

get_buffer-same :
    (c c' : Ctx)
    → c'.buffer_base ≡ c.buffer_base
    → c'.buf_shift ≡ c.buf_shift
    → get_buffer c' ≡ get_buffer c
unfolding get_buffer
get_buffer-same c c' base shift =
    let at : ℕ → ℕ → ℕ → ℕ = λ b s idx. (b + u64 (s32 (idx * 2 ^ s))) % 2 ^ 64 in ap₂ at base shift

pub append-Done :
    {k : ℕ} {c c' c'' : Ctx} {gs gs' bs bs' : List ℕ} {qs qs' : List Sqe}
    → Done k c gs qs bs c'
    → Done k c' gs' qs' bs' c''
    → Done k c (gs ++ gs') (qs ++ qs') (bs ++ bs') c''
append-Done {k} {c} {c'} {c''} {gs} {gs'} {bs} {bs'} {qs} {qs'} d d' = record {
  hands = append-Hands d.hands d'.hands;
  base = d'.base ∙ d.base;
  shift = d'.shift ∙ d.shift;
  recycled =
      d'.recycled
      ∙ ap (λ g. recycle_all g (buffer_size c') bs' c'.buf_ring)
          (get_buffer-same c c' d.base d.shift)
      ∙ ap (λ n. recycle_all (get_buffer c) (shl32 1 n) bs' c'.buf_ring) d.shift
      ∙ ap (λ br. recycle_all (get_buffer c) (buffer_size c) bs' br) d.recycled
      ∙ sym (recycle_all-append (get_buffer c) (buffer_size c) bs bs' c.buf_ring);
  once = λ b. omega (
    arith,
    count-append b gs gs',
    count-append b bs bs',
    ap (count b) (send_ids-append qs qs'),
    count-append b (send_ids qs) (send_ids qs'),
    d.once b,
    d'.once b,
  );
}
