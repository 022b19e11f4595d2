-- ===== src/Wait/Sound.antt =====
-- `_io_uring_get_cqe` against what io_uring_enter(2) is documented to do.
use liburing.Common.{
  ℕ, zero, suc, ◌≡◌, ◌≢◌, refl, ap, sym, ◌∙◌, Bool, true, false, List, [], ◌∷◌, ◌++◌, Option, none,
  some, arith, ltb, ◌&&◌, ◌||◌, not, bit_or, if◌then◌else◌, Bool-cases, inl, inr, ◌==◌, ◌⊎◌,
}
use liburing.Common.Int.{ℤ, pos, negsuc, neg, is_neg, is_nonzero}
use mathlib.Core.Path.{subst}
use liburing.Abi.Enter
use liburing.Abi.Errno
use liburing.Sqe.{Cqe}
use liburing.Ring.{Ring, Kernel, EnterCall, sys_enter2}
use liburing.Completion.{Peeked, cq_ring_needs_enter, cqe_index}
use liburing.Submission.{sq_ring_needs_enter}
use liburing.Completion.Inv.{IsCq, ready_cqes}
use liburing.Completion.Peek.{Found, Ends, drained, found, failed, peek_cqes-Found}
use liburing.Submit.{enter_flags}
use liburing.Wait.{
  GetData, Got, Locals, Round, first_err, is_none, arg_ts, timeout_err, enter_round, flags_round,
  get_cqe_round, get_cqe_loop, run_get_data,
}

-- io_uring_enter(2) posts at most as many CQEs as there is room for, behind those that wait.
pub record IsSound (k : ℕ) (kernel : Kernel) : Type 0 where
  pub keeps : (call : EnterCall) (r : Ring) → IsCq k r → IsCq k (sys_enter2 kernel call r).1
  pub appends :
      (call : EnterCall) (r : Ring)
      → IsCq k r
      → (new : List Cqe) × (ready_cqes (sys_enter2 kernel call r).1 ≡ ready_cqes r ++ new)

-- The CQE is the first of those that wait.
pub record IsFirst (r : Ring) (cqe : Option ℕ) : Type 0 where
  pub index : cqe ≡ some (cqe_index r r.cq.khead)
  pub waits : ready_cqes r ≢ []

first_err-ne : (err e : ℤ) → is_nonzero e ≡ true → first_err err e ≢ pos 0
first_err-ne (pos zero) e h q = ground arith
first_err-ne (pos (suc n)) e h q = cc
first_err-ne (negsuc n) e h q = cc

nonzero_of_neg : (e : ℤ) → is_neg e ≡ true → is_nonzero e ≡ true
nonzero_of_neg (pos n) h = cc
nonzero_of_neg (negsuc n) h = refl

cons-ne-nil : {A : Type 0} {x : A} {xs : List A} → x ∷ xs ≢ []
cons-ne-nil e = cc

append-ne-nil : {A : Type 0} (xs ys : List A) → xs ≢ [] → xs ++ ys ≢ []
append-ne-nil [] ys h e = h refl
append-ne-nil (x ∷ xs) ys h e = cc

-- What a round guarantees: a result without error is the first CQE that waits.
abbrev DeliversAt : ℕ → Round → Type 0
DeliversAt k (Round.stop g) = g.err ≡ pos 0 → IsFirst g.ring g.cqe
DeliversAt k (Round.again l) = IsCq k l.ring

record Delivers (k : ℕ) (x : Round) : Type 0 where
  holds : DeliversAt k x

stopped : {k : ℕ} {g : Got} → (g.err ≡ pos 0 → IsFirst g.ring g.cqe) → Delivers k (Round.stop g)
stopped h = record { holds = h }

module _ {k : ℕ} {kernel : Kernel} (sound : IsSound k kernel) (d : GetData) where
  enter-IsFirst :
      (call : EnterCall) {r : Ring} {cqe : Option ℕ}
      → IsCq k r
      → IsFirst r cqe
      → IsFirst (sys_enter2 kernel call r).1 cqe
  enter-IsFirst call {r} {cqe} v f =
      let (new, e) = sound.appends call r v in
      record { index = same_index; waits = rw e (append-ne-nil (ready_cqes r) new f.waits) }
    where
      same_index :
          cqe ≡ some (cqe_index (sys_enter2 kernel call r).1 (sys_enter2 kernel call r).1.cq.khead)
      same_index = unfold sys_enter2 cqe_index in f.index

  enter_round-Delivers :
      (l : Locals) (r : Ring) (cqe : Option ℕ) (flags : ℕ)
      → IsCq k r
      → ((cqe ≡ none) ⊎ IsFirst r cqe)
      → Delivers k (enter_round kernel d l r cqe flags)
  unfolding enter_round
  enter_round-Delivers l r cqe flags v first =
      let call : EnterCall = record {
        fd = r.enter_ring_fd;
        to_submit = l.submit;
        min_complete = d.wait_nr;
        flags = enter_flags r flags;
        arg = d.arg;
        sz = d.sz;
      } in
      let ret = (sys_enter2 kernel call r).0 in
      elim (Bool-cases (is_neg ret)) [
        | inl bad ↦ rw bad (stopped λ q. absurd (first_err-ne l.err ret (nonzero_of_neg ret bad) q))
        | inr good ↦ elim first [
          | inl e ↦ rw (good, e) (record { holds = sound.keeps call r v })
          | inr f ↦ rw (good, f.index) (stopped λ q. rw f.index at (enter-IsFirst call v f))
        ]
      ]

module _ {k : ℕ} {kernel : Kernel} (sound : IsSound k kernel) (d : GetData) (asked : d.wait_nr ≢ 0)
    (has_time : d.has_ts ≡ true → arg_ts d.arg ≢ 0) where
  -- What the peek tells the rest of the round.
  Found-IsFirst :
      {r : Ring} {p : Peeked}
      → Found k r p
      → is_nonzero p.err ≡ false
      → ((p.cqe ≡ none) × (p.available ≡ 0)) ⊎ IsFirst p.ring p.cqe
  Found-IsFirst {r} {p} f fine = Ends-first f.ends
    where
      Ends-first :
          {rest : List Cqe}
          → Ends r.features p rest
          → ((p.cqe ≡ none) × (p.available ≡ 0)) ⊎ IsFirst p.ring p.cqe
      Ends-first (drained c e a h) = inl (c, a)
      Ends-first (found own c e a h) =
          inr (record { index = c; waits = λ q. cons-ne-nil (sym h ∙ q) })
      Ends-first (failed {c = x} own bad c e a h) =
          absurd (ground (arith, nonzero_of_neg x.res bad))

  timeout_err-ne : (err : ℤ) → d.has_ts ≡ true → timeout_err d none err ≢ pos 0
  timeout_err-ne (pos zero) t q = ground (arith, has_time t)
  timeout_err-ne (pos (suc n)) t q = ground (arith, has_time t)
  timeout_err-ne (negsuc n) t q = ground (arith, has_time t)

  flags_round-Delivers :
      (l : Locals) (p : Peeked) (idle : Bool)
      → IsCq k p.ring
      → ((p.cqe ≡ none) × (p.available ≡ 0)) ⊎ IsFirst p.ring p.cqe
      → Delivers k (flags_round kernel d l p idle)
  unfolding flags_round
  flags_round-Delivers l p idle v (inl (e, z)) = elim (Bool-cases (l.looped && d.has_ts)) [
    | inl t ↦ rw (waiting, t, e) (stopped λ q. absurd (timeout_err-ne l.err (ground arith) q))
    | inr t ↦ rw (waiting, t) (enter_round-Delivers sound d l p.ring p.cqe _ v (inl e))
  ]
    where
      waiting : ltb p.available d.wait_nr ≡ true
      waiting = ground arith
  flags_round-Delivers l p idle v (inr f) =
      let waits = ltb p.available d.wait_nr || idle in
      let flags = if waits then bit_or Enter.getevents d.get_flags else 0 in
      let submits = (sq_ring_needs_enter p.ring l.submit flags).0 in
      elim (Bool-cases (not (waits || submits))) [
        | inl t ↦ rw t (stopped λ _. f)
        | inr t ↦ elim (Bool-cases (l.looped && d.has_ts)) [
          | inl u ↦ rw (t, u) (stopped λ _. f)
          | inr u ↦ rw (t, u) (enter_round-Delivers sound d l p.ring p.cqe _ v (inr f))
        ]
      ]

  get_cqe_round-Delivers :
      (l : Locals) (p : Peeked) → Found k l.ring p → Delivers k (get_cqe_round kernel d l p)
  unfolding get_cqe_round
  get_cqe_round-Delivers l p f = elim (Bool-cases (is_nonzero p.err)) [
    | inl bad ↦ rw bad (stopped λ q. absurd (first_err-ne l.err p.err bad q))
    | inr fine ↦
        let idle = is_none p.cqe && d.wait_nr == 0 && l.submit == 0 in
        elim (Bool-cases (idle && (l.looped || not (cq_ring_needs_enter p.ring)))) [
          | inl t ↦
              rw (fine, t) (stopped λ q. absurd (first_err-ne l.err (neg Errno.eagain) refl q))
          | inr t ↦ rw (fine, t) (flags_round-Delivers l p idle f.valid (Found-IsFirst f fine))
        ]
  ]

  -- The loop goes on in the same way after a round.
  after_round :
      (fuel : ℕ) (x : Round) {g : Got}
      → ((l : Locals)
          → IsCq k l.ring
          → get_cqe_loop kernel d fuel l ≡ some g
          → IsFirst g.ring g.cqe)
      → Delivers k x
      → elim x [ Round.stop h ↦ some h | Round.again l ↦ get_cqe_loop kernel d fuel l ] ≡ some g
      → g.err ≡ pos 0
      → IsFirst g.ring g.cqe
  after_round fuel (Round.stop h) {g} rest dl e q =
      let same : h ≡ g = cc in
      subst (λ x. IsFirst x.ring x.cqe) same (dl.holds (ap (λ x. x.err) same ∙ q))
  after_round fuel (Round.again l) rest dl e q = rest l dl.holds e

  get_cqe_loop-IsFirst :
      (fuel : ℕ) (l : Locals) {g : Got}
      → IsCq k l.ring
      → get_cqe_loop kernel d fuel l ≡ some g
      → g.err ≡ pos 0
      → IsFirst g.ring g.cqe
  unfolding get_cqe_loop
  get_cqe_loop-IsFirst zero l v e q = cc
  get_cqe_loop-IsFirst (suc fuel) l {g} v e q =
      let (p, seen, f) = peek_cqes-Found v in
      after_round fuel (get_cqe_round kernel d l p) {g = g}
        (λ l' v' e'. get_cqe_loop-IsFirst fuel l' v' e' q) (get_cqe_round-Delivers l p f)
        (rw (seen, get_cqe_loop) at e) q

-- Where at least one completion is asked for, a timeout that is passed is not NULL, the
-- completion ring is valid and io_uring_enter(2) only appends CQEs, `_io_uring_get_cqe` returns
-- 0 only with the first CQE that waits in the ring which it leaves.
pub run_get_data-IsFirst :
    {k : ℕ} {kernel : Kernel} (sound : IsSound k kernel) (d : GetData) (fuel submit : ℕ) {r : Ring}
    {g : Got}
    → d.wait_nr ≢ 0
    → (d.has_ts ≡ true → arg_ts d.arg ≢ 0)
    → IsCq k r
    → run_get_data kernel d fuel r submit ≡ some g
    → g.err ≡ pos 0
    → IsFirst g.ring g.cqe
unfolding run_get_data
run_get_data-IsFirst sound d fuel submit asked has_time v e q =
    get_cqe_loop-IsFirst sound d asked has_time fuel _ v e q
