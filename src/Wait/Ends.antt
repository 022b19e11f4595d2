-- ===== src/Wait/Ends.antt =====
-- The loop of `_io_uring_get_cqe` ends, if io_uring_enter(2) makes the progress that
-- man/io_uring_enter.2 describes and the kernel takes timeouts itself (IORING_FEAT_EXT_ARG).
use liburing.Common.{
  sub32, sym, ◌%◌, ℕ, zero, suc, ◌+◌, ◌<◌, ◌≤◌, ◌^◌, ◌≡◌, ◌≢◌, refl, Bool, true, false, not, ◌&&◌,
  ◌||◌, Option, some, arith, ltb, Bool-cases, Option-cases, inl, inr, ◌==◌, ==_iff, ap, ◌∙◌,
  has-bit_or, ◌⊎◌, if◌then◌else◌, has, bit_or,
}
use liburing.Common.Int.{ℤ, pos, negsuc, neg, is_nonzero}
use mathlib.Core.Path.{subst}
use liburing.Abi.Enter
use liburing.Abi.Setup
use liburing.Abi.Feat
use liburing.Abi.IntFlag
use liburing.Abi.Errno
use liburing.Ring.{Ring, Kernel, EnterCall, sys_enter2}
use liburing.Submission.{sq_ring_needs_enter}
use liburing.Submit.{enter_flags}
use liburing.Completion.{Peeked, cq_ready, cq_ring_needs_enter}
use liburing.Completion.Inv.{IsCq}
use liburing.Completion.Peek.{peek_cqes-Found}
use liburing.Wait.{
  GetData, Got, Locals, Round, first_err, is_none, enter_round, flags_round, get_cqe_round,
  get_cqe_loop, run_get_data,
}
use liburing.Wait.Plain.{Plain, Found-Plain}
use liburing.Wait.Sound.{IsSound}

-- The flushed SQEs that the kernel has not taken; `khead` is a word of 32 bits.
abbrev pub queue_length : Ring → ℕ
queue_length r = sub32 r.sq.ktail (r.sq.khead % 2 ^ 32)

-- A ring without IORING_SETUP_IOPOLL, where a call does not wait for as many completions as it is asked to, and
-- without IORING_SETUP_SQPOLL, where SQEs are taken outside of calls.
abbrev pub IsPassive : Ring → Type 0
IsPassive r = (has r.flags Setup.iopoll ≡ false) × (has r.flags Setup.sqpoll ≡ false)

-- What man/io_uring_enter.2 says of a call that succeeds on such a ring: it returns how many SQEs it has consumed,
-- which are at most those to submit, and none only if there were none to submit or the submission queue was empty.
-- With IORING_ENTER_GETEVENTS, and nothing to submit, it has waited for the completions that it was asked for, where
-- the ring has room for them.
pub record IsLive (k : ℕ) (kernel : Kernel) : Type 0 where
  pub at_most :
      (call : EnterCall) (r : Ring) (n : ℕ)
      → IsCq k r
      → IsPassive r
      → (sys_enter2 kernel call r).0 ≡ pos n
      → n ≤ call.to_submit
  pub consumed :
      (call : EnterCall) (r : Ring) (n : ℕ)
      → IsCq k r
      → IsPassive r
      → (sys_enter2 kernel call r).0 ≡ pos n
      → queue_length (sys_enter2 kernel call r).1 + n ≡ queue_length r
  pub some_taken :
      (call : EnterCall) (r : Ring) (n : ℕ)
      → IsCq k r
      → IsPassive r
      → (sys_enter2 kernel call r).0 ≡ pos n
      → call.to_submit ≢ 0
      → queue_length r ≢ 0
      → n ≢ 0
  pub waited :
      (call : EnterCall) (r : Ring)
      → IsCq k r
      → IsPassive r
      → has call.flags Enter.getevents ≡ true
      → call.to_submit ≡ 0
      → call.min_complete ≤ 2 ^ k
      → (sys_enter2 kernel call r).0 ≡ pos 0
      → call.min_complete ≤ cq_ready (sys_enter2 kernel call r).1

-- What the next round starts from.
record Goes (k : ℕ) (d : GetData) (l l' : Locals) : Type 0 where
  looped : l'.looped ≡ true
  less : (l'.submit < l.submit) ⊎ ((l'.submit ≡ 0) × (d.wait_nr ≤ cq_ready l'.ring))
  valid : IsCq k l'.ring
  features : l'.ring.features ≡ l.ring.features
  passive : IsPassive l'.ring
  queued : l'.submit ≤ queue_length l'.ring

abbrev AdvancesAt : ℕ → GetData → Locals → Round → Type 0
AdvancesAt k d l (Round.stop g) = Unit
AdvancesAt k d l (Round.again l') = Goes k d l l'

true_of_not : {b : Bool} → not b ≡ false → b ≡ true
true_of_not {b = true} e = refl
true_of_not {b = false} e = cc

enter_flags-getevents :
    (r : Ring) (flags : ℕ)
    → has flags Enter.getevents ≡ true
    → has (enter_flags r flags) Enter.getevents ≡ true
unfolding has
enter_flags-getevents r flags h = elim (Bool-cases (has r.int_flags IntFlag.reg_ring)) [
  | inl e ↦ rw e (ground (arith, has-bit_or flags Enter.registered_ring 0))
  | inr e ↦ rw e h
]

ℤ-cases : (z : ℤ) → ((n : ℕ) × (z ≡ pos n)) ⊎ ((n : ℕ) × (z ≡ negsuc n))
ℤ-cases (pos n) = inl (n, refl)
ℤ-cases (negsuc n) = inr (n, refl)

module _ {k : ℕ} {kernel : Kernel} (sound : IsSound k kernel) (live : IsLive k kernel) (d : GetData)
    (room : d.wait_nr ≤ 2 ^ k) where
  enter_round-Advances :
      (l : Locals) (r : Ring) (cqe : Option ℕ) (flags : ℕ)
      → IsCq k r
      → IsPassive r
      → l.submit ≤ queue_length r
      → r.features ≡ l.ring.features
      → (l.submit ≡ 0 → has (enter_flags r flags) Enter.getevents ≡ true)
      → AdvancesAt k d l (enter_round kernel d l r cqe flags)
  unfolding enter_round
  enter_round-Advances l r cqe flags v passive small same asks =
      let call : EnterCall = record {
        fd = r.enter_ring_fd;
        to_submit = l.submit;
        min_complete = d.wait_nr;
        flags = enter_flags r flags;
        arg = d.arg;
        sz = d.sz;
      } in
      elim (ℤ-cases (sys_enter2 kernel call r).0) [
        | inr (n, e) ↦ rw e tt
        | inl (n, e) ↦ elim (Bool-cases (not (is_none cqe))) [
          | inl t ↦ rw (e, t) tt
          | inr t ↦
              let most = live.at_most call r n v passive e in
              let taken = live.some_taken call r n v passive e in
              let rest = live.consumed call r n v passive e in
              rw (e, t)
                (record {
                  looped = refl;
                  less = elim (Bool-cases (l.submit == 0)) [
                    | inr some_left ↦
                        let left : l.submit ≢ 0 = ground arith in
                        let n_some : n ≢ 0 = taken left (λ z. left (omega (arith, small, z))) in
                        inl (ground (arith, n_some, most, left, small))
                    | inl z ↦
                        let none_left : l.submit ≡ 0 = (==_iff l.submit 0).0 z in
                        let nothing : n ≡ 0 = omega arith in
                        inr (
                          ground (arith, nothing),
                          live.waited call r v passive (asks none_left) none_left room
                              (e ∙ ap pos nothing),
                        )
                  ];
                  valid = sound.keeps call r v;
                  features = keeps_features call;
                  passive = keeps_flags call;
                  queued = ground (arith, rest, most, small);
                })
        ]
      ]
    where
      keeps_features : (call : EnterCall) → (sys_enter2 kernel call r).1.features ≡ l.ring.features
      keeps_features call = unfold sys_enter2 in same

      keeps_flags : (call : EnterCall) → IsPassive (sys_enter2 kernel call r).1
      keeps_flags call = unfold sys_enter2 in passive

  -- With nothing to submit the round enters the kernel only to wait.
  asks_to_wait :
      (r : Ring) (submit : ℕ) (waits : Bool)
      → (let flags = if waits then bit_or Enter.getevents d.get_flags else 0 in
          let (submits, flags') = sq_ring_needs_enter r submit flags in
          (waits || submits ≡ true)
          → submit ≡ 0
          → has (enter_flags r flags') Enter.getevents ≡ true)
  unfolding sq_ring_needs_enter has
  asks_to_wait r submit true t z = rw z (
      enter_flags-getevents r (bit_or Enter.getevents d.get_flags)
        (ground (arith, has-bit_or Enter.getevents d.get_flags 0)))
  asks_to_wait r submit false t z = absurd (ground (arith, rw z at t))

  flags_round-Advances :
      (l : Locals) (p : Peeked) (idle : Bool)
      → IsCq k p.ring
      → IsPassive p.ring
      → l.submit ≤ queue_length p.ring
      → p.ring.features ≡ l.ring.features
      → AdvancesAt k d l (flags_round kernel d l p idle)
  unfolding flags_round
  flags_round-Advances l p idle v passive small same =
      let waits = ltb p.available d.wait_nr || idle in
      let flags = if waits then bit_or Enter.getevents d.get_flags else 0 in
      let submits = (sq_ring_needs_enter p.ring l.submit flags).0 in
      elim (Bool-cases (not (waits || submits))) [
        | inl t ↦ rw t tt
        | inr t ↦ elim (Bool-cases (l.looped && d.has_ts)) [
          | inl u ↦ rw (t, u) tt
          | inr u ↦
              rw (t, u)
                (enter_round-Advances l p.ring p.cqe _ v passive small same
                  (asks_to_wait p.ring l.submit waits (true_of_not t)))
        ]
      ]

  get_cqe_round-Advances :
      (l : Locals) (p : Peeked)
      → IsCq k p.ring
      → IsPassive p.ring
      → l.submit ≤ queue_length p.ring
      → p.ring.features ≡ l.ring.features
      → AdvancesAt k d l (get_cqe_round kernel d l p)
  unfolding get_cqe_round
  get_cqe_round-Advances l p v passive small same = elim (Bool-cases (is_nonzero p.err)) [
    | inl bad ↦ rw bad tt
    | inr fine ↦
        let idle = is_none p.cqe && d.wait_nr == 0 && l.submit == 0 in
        elim (Bool-cases (idle && (l.looped || not (cq_ring_needs_enter p.ring)))) [
          | inl t ↦ rw (fine, t) tt
          | inr t ↦ rw (fine, t) (flags_round-Advances l p idle v passive small same)
        ]
  ]

  -- With nothing left to submit and enough completions at hand a later round stops.
  get_cqe_round-stops :
      (l : Locals) (p : Peeked)
      → Plain l.ring p
      → l.looped ≡ true
      → l.submit ≡ 0
      → d.wait_nr ≤ cq_ready l.ring
      → (g : Got) × (get_cqe_round kernel d l p ≡ Round.stop g)
  unfolding get_cqe_round flags_round sq_ring_needs_enter
  get_cqe_round-stops l p q looped done enough = elim (Option-cases p.cqe) [
    | inl e ↦
        let no_wait : d.wait_nr == 0 ≡ true = ground (arith, q.empty e, q.counted) in
        (
          record { err = first_err l.err (neg Errno.eagain); cqe = p.cqe; ring = p.ring },
          rw (q.no_err, e, no_wait, none_left, looped) refl,
        )
    | inr (i, e) ↦
        let no_wait : ltb p.available d.wait_nr ≡ false = ground (arith, q.counted) in
        (
          record { err = l.err; cqe = p.cqe; ring = p.ring },
          rw (q.no_err, e, no_wait, none_left) refl,
        )
  ]
    where
      none_left : l.submit == 0 ≡ true
      none_left = ground arith

  -- One round, whatever it does, and the rounds that follow it.
  get_cqe_loop-again :
      (fuel : ℕ) (l : Locals) (x : Round)
      → ((l' : Locals) → Goes k d l l' → (g : Got) × (get_cqe_loop kernel d fuel l' ≡ some g))
      → AdvancesAt k d l x
      → (g : Got) × (elim x [
        | Round.stop h ↦ some h
        | Round.again l' ↦ get_cqe_loop kernel d fuel l'
      ]
          ≡ some g)
  get_cqe_loop-again fuel l (Round.stop h) rest a = (h, refl)
  get_cqe_loop-again fuel l (Round.again l') rest a = rest l' a

  -- The last round.
  get_cqe_loop-last :
      (fuel : ℕ) (l : Locals)
      → IsCq k l.ring
      → has l.ring.features Feat.ext_arg ≡ true
      → l.looped ≡ true
      → l.submit ≡ 0
      → d.wait_nr ≤ cq_ready l.ring
      → (g : Got) × (get_cqe_loop kernel d (suc fuel) l ≡ some g)
  unfolding get_cqe_loop
  get_cqe_loop-last fuel l v ext looped done enough =
      let (p, seen, f) = peek_cqes-Found v in
      let (g, e) = get_cqe_round-stops l p (Found-Plain ext v f) looped done enough in
      (g, rw (seen, get_cqe_loop) (rw e))

  get_cqe_loop-some :
      (fuel : ℕ) (l : Locals)
      → IsCq k l.ring
      → has l.ring.features Feat.ext_arg ≡ true
      → IsPassive l.ring
      → l.submit ≤ queue_length l.ring
      → l.submit + 1 < fuel
      → (g : Got) × (get_cqe_loop kernel d fuel l ≡ some g)
  unfolding get_cqe_loop
  get_cqe_loop-some zero l v ext passive small enough = absurd (omega arith)
  get_cqe_loop-some (suc zero) l v ext passive small enough = absurd (omega arith)
  get_cqe_loop-some (suc (suc fuel)) l v ext passive small enough =
      let (p, seen, f) = peek_cqes-Found v in
      let q = Found-Plain ext v f in
      rw (seen, get_cqe_loop)
        (get_cqe_loop-again (suc fuel) l (get_cqe_round kernel d l p)
          (λ l' goes. elim goes.less [
            | inl lt ↦
                get_cqe_loop-some (suc fuel) l' goes.valid (rw goes.features ext) goes.passive
                  goes.queued (omega arith)
            | inr (z, enough') ↦
                get_cqe_loop-last fuel l' goes.valid (rw goes.features ext) goes.looped z enough'
          ])
          (get_cqe_round-Advances l p f.valid (subst IsPassive (sym f.only) passive)
            (subst (λ r. l.submit ≤ queue_length r) (sym f.only) small) q.same_features))

-- On a valid ring without IORING_SETUP_IOPOLL and IORING_SETUP_SQPOLL whose kernel takes
-- timeouts itself, with at least as many SQEs flushed as there are to submit and no more
-- completions to wait for than the ring holds, and a kernel that only appends CQEs, whose
-- successful calls consume as many SQEs as they return, none only where there is none to submit
-- or none flushed, and, with nothing to submit, have waited for the completions asked for:
-- `_io_uring_get_cqe` ends, and fuel greater than the number of SQEs to submit plus 1 is enough.
pub run_get_data-some :
    {k : ℕ} {kernel : Kernel} (sound : IsSound k kernel) (live : IsLive k kernel) (d : GetData)
    (fuel submit : ℕ) {r : Ring}
    → d.wait_nr ≤ 2 ^ k
    → IsCq k r
    → has r.features Feat.ext_arg ≡ true
    → IsPassive r
    → submit ≤ queue_length r
    → submit + 1 < fuel
    → (g : Got) × (run_get_data kernel d fuel r submit ≡ some g)
unfolding run_get_data
run_get_data-some sound live d fuel submit room v ext passive small enough =
    get_cqe_loop-some sound live d room fuel _ v ext passive small enough
