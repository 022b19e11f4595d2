-- ===== src/Wait/Answer.antt =====
-- A wait with nothing to submit is answered, if io_uring_enter(2) does not fail.
use liburing.Common.{
  ℕ, zero, suc, ◌<◌, ◌≤◌, ◌^◌, ◌≡◌, ◌≢◌, refl, Bool, true, false, not, ◌&&◌, ◌||◌, Option, some,
  arith, ltb, Bool-cases, inl, inr, ◌==◌, ne→==, ap, sym, ◌∙◌, if◌then◌else◌, has, bit_or,
}
use mathlib.Core.Path.{subst}
use mathlib.Core.Option.{some-injective}
use liburing.Common.Int.{pos}
use liburing.Abi.Enter
use liburing.Abi.Feat
use liburing.Ring.{Ring, Kernel, EnterArg, EnterCall, sys_enter2}
use liburing.Submission.{sq_ring_needs_enter}
use liburing.Submit.{sigset_size, enter_flags}
use liburing.Completion.{Peeked}
use liburing.Completion.Inv.{IsCq}
use liburing.Completion.Peek.{peek_cqes-Found}
use liburing.Wait.{
  GetData, Got, Locals, Round, is_none, enter_round, flags_round, get_cqe_round, get_cqe_loop,
  run_get_data, get_cqe, wait_cqe_nr,
}
use liburing.Wait.Plain.{Plain, Found-Plain}
use liburing.Wait.Sound.{IsSound, IsFirst, run_get_data-IsFirst}
use liburing.Wait.Ends.{IsPassive, IsLive, run_get_data-some}

-- Every call succeeds that has nothing to submit and asks for no more completions than fit into the ring.
pub record IsWilling (k : ℕ) (kernel : Kernel) : Type 0 where
  pub succeeds :
      (call : EnterCall) (r : Ring)
      → IsCq k r
      → IsPassive r
      → call.to_submit ≡ 0
      → call.min_complete ≤ 2 ^ k
      → (n : ℕ) × ((sys_enter2 kernel call r).0 ≡ pos n)

-- Nothing to submit and no error so far
record IsIdle (k : ℕ) (l : Locals) : Type 0 where
  no_err : l.err ≡ pos 0
  no_submit : l.submit ≡ 0
  valid : IsCq k l.ring
  ext : has l.ring.features Feat.ext_arg ≡ true
  passive : IsPassive l.ring

-- A round ends without an error, or goes on in the same way.
abbrev FineAt : ℕ → Round → Type 0
FineAt k (Round.stop g) = g.err ≡ pos 0
FineAt k (Round.again l) = IsIdle k l

module _ {k : ℕ} {kernel : Kernel} (sound : IsSound k kernel) (live : IsLive k kernel)
    (willing : IsWilling k kernel) (d : GetData) (asked : d.wait_nr ≢ 0) (fits : d.wait_nr ≤ 2 ^ k)
    (no_ts : d.has_ts ≡ false) where
  enter_round-Fine :
      (l : Locals) (r : Ring) (cqe : Option ℕ) (flags : ℕ)
      → IsIdle k l
      → IsCq k r
      → has r.features Feat.ext_arg ≡ true
      → IsPassive r
      → FineAt k (enter_round kernel d l r cqe flags)
  unfolding enter_round
  enter_round-Fine l r cqe flags idle v ext passive =
      let call : EnterCall = record {
        fd = r.enter_ring_fd;
        to_submit = l.submit;
        min_complete = d.wait_nr;
        flags = enter_flags r flags;
        arg = d.arg;
        sz = d.sz;
      } in
      let (n, e) = willing.succeeds call r v passive idle.no_submit fits in
      let nothing : n ≡ 0 = omega (arith, live.at_most call r n v passive e, idle.no_submit) in
      elim (Bool-cases (not (is_none cqe))) [
        | inl t ↦ rw (e, t) idle.no_err
        | inr t ↦
            rw (e, t)
              (record {
                no_err = first (n) nothing;
                no_submit = ground (arith, nothing, idle.no_submit);
                valid = sound.keeps call r v;
                ext = keeps_ext call;
                passive = keeps_flags call;
              })
      ]
    where
      first : (n : ℕ) → n ≡ 0 → (if l.looped then l.err else pos n) ≡ pos 0
      first n z = elim (Bool-cases l.looped) [ inl e ↦ rw e idle.no_err | inr e ↦ rw e (ap pos z) ]

      keeps_ext : (call : EnterCall) → has (sys_enter2 kernel call r).1.features Feat.ext_arg ≡ true
      keeps_ext call = unfold sys_enter2 in ext

      keeps_flags : (call : EnterCall) → IsPassive (sys_enter2 kernel call r).1
      keeps_flags call = unfold sys_enter2 in passive

  flags_round-Fine :
      (l : Locals) (p : Peeked) (idle : Bool)
      → IsIdle k l
      → IsCq k p.ring
      → has p.ring.features Feat.ext_arg ≡ true
      → IsPassive p.ring
      → FineAt k (flags_round kernel d l p idle)
  unfolding flags_round
  flags_round-Fine l p idle quiet v ext passive =
      let waits = ltb p.available d.wait_nr || idle in
      let flags = if waits then bit_or Enter.getevents d.get_flags else 0 in
      let submits = (sq_ring_needs_enter p.ring l.submit flags).0 in
      elim (Bool-cases (not (waits || submits))) [
        | inl t ↦ rw t quiet.no_err
        | inr t ↦ rw (t, no_stop l.looped) (enter_round-Fine l p.ring p.cqe _ quiet v ext passive)
      ]
    where
      no_stop : (b : Bool) → (b && d.has_ts) ≡ false
      no_stop true = no_ts
      no_stop false = refl

  get_cqe_round-Fine :
      (l : Locals) (p : Peeked)
      → IsIdle k l
      → Plain l.ring p
      → IsCq k p.ring
      → IsPassive p.ring
      → FineAt k (get_cqe_round kernel d l p)
  unfolding get_cqe_round
  get_cqe_round-Fine l p quiet q v passive =
      let idle = is_none p.cqe && d.wait_nr == 0 && l.submit == 0 in
      rw (q.no_err, not_idle (is_none p.cqe))
        (flags_round-Fine l p false quiet v (rw q.same_features quiet.ext) passive)
    where
      not_idle : (b : Bool) → (b && d.wait_nr == 0 && l.submit == 0) ≡ false
      not_idle true = rw (ne→== d.wait_nr 0 asked) refl
      not_idle false = refl

  after :
      (fuel : ℕ) (x : Round) {g : Got}
      → ((l : Locals) → IsIdle k l → get_cqe_loop kernel d fuel l ≡ some g → g.err ≡ pos 0)
      → FineAt k x
      → elim x [ Round.stop h ↦ some h | Round.again l' ↦ get_cqe_loop kernel d fuel l' ] ≡ some g
      → g.err ≡ pos 0
  after fuel (Round.stop h) rest fine same = ap (λ x. x.err) (sym (some-injective _ _ same)) ∙ fine
  after fuel (Round.again l') rest fine same = rest l' fine same

  get_cqe_loop-fine :
      (fuel : ℕ) (l : Locals) {g : Got}
      → IsIdle k l
      → get_cqe_loop kernel d fuel l ≡ some g
      → g.err ≡ pos 0
  unfolding get_cqe_loop
  get_cqe_loop-fine zero l quiet e = cc
  get_cqe_loop-fine (suc fuel) l {g} quiet e =
      let (p, seen, f) = peek_cqes-Found quiet.valid in
      after fuel (get_cqe_round kernel d l p) (λ l' quiet' e'. get_cqe_loop-fine fuel l' quiet' e')
        (get_cqe_round-Fine l p quiet (Found-Plain quiet.ext quiet.valid f) f.valid
          (subst IsPassive (sym f.only) quiet.passive))
        (rw (seen, get_cqe_loop) at e)

-- On a kernel that only appends completions, whose successful calls return and wait as
-- documented, and whose io_uring_enter(2) does not fail where there is nothing to submit and no
-- more completions are asked for than the ring holds: for a ring of `2^k` entries with
-- IORING_FEAT_EXT_ARG and without IORING_SETUP_IOPOLL and IORING_SETUP_SQPOLL,
-- `io_uring_wait_cqe_nr` for at least one and at most `2^k` completions, given two rounds or
-- more, ends, returns 0 and points to the first completion that waits.
pub wait_cqe_nr-answered :
    {k : ℕ} {kernel : Kernel} (sound : IsSound k kernel) (live : IsLive k kernel)
    (willing : IsWilling k kernel) (fuel wait_nr : ℕ) {r : Ring}
    → wait_nr ≢ 0
    → wait_nr ≤ 2 ^ k
    → IsCq k r
    → has r.features Feat.ext_arg ≡ true
    → IsPassive r
    → 1 < fuel
    → (g : Got) × (wait_cqe_nr kernel fuel r wait_nr ≡ some g)
      × (g.err ≡ pos 0)
      × IsFirst g.ring g.cqe
unfolding wait_cqe_nr get_cqe run_get_data
wait_cqe_nr-answered {k} sound live willing fuel wait_nr {r} asked fits v ext passive enough =
    let d : GetData = record {
      wait_nr = wait_nr;
      get_flags = 0;
      sz = sigset_size;
      has_ts = false;
      arg = EnterArg.sigset 0;
    } in
    let (g, e) =
      run_get_data-some sound live d fuel 0 fits v ext passive (omega arith)
        (omega (arith, enough)) in
    let fine =
      get_cqe_loop-fine sound live willing d asked fits refl fuel _
        (record { no_err = refl; no_submit = refl; valid = v; ext = ext; passive = passive }) e in
    (g, e, fine, run_get_data-IsFirst sound d fuel 0 asked (λ t. cc) v e fine)
