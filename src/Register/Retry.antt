-- ===== src/Register/Retry.antt =====
-- The loop of the functions of src/register.c that register files.
use liburing.Common.{
  ap, sym, ◌∙◌, ltb, add64, ◌<◌, ◌≤◌, ◌≢◌, ◌∷◌, ℕ, ◌≡◌, refl, Bool-cases, inl, inr, true, false,
  some, arith,
}
use mathlib.Core.Bool.{true≢false}
use liburing.Common.Int.{ℤ, pos, negsuc, neg, eqb, is_neg}
use liburing.Abi.Errno
use liburing.Ring.{Ring}
use liburing.Sys.{RegArg, Call, Calls, Os, Reply}
use liburing.Register.{register_call, do_register, register_ret, increase_rlimit_nofile}
use liburing.Register.Resources.{retry_loop}

neg_of_emfile : (z : ℤ) → eqb z (neg Errno.emfile) ≡ true → is_neg z ≡ true
neg_of_emfile (pos n) h = cc
neg_of_emfile (negsuc n) h = refl

is_emfile : (z : ℤ) → eqb z (neg Errno.emfile) ≡ true → z ≡ neg Errno.emfile
is_emfile (pos n) h = cc
is_emfile (negsuc n) h = ap negsuc (ground (arith, h))

module _ (os : Os) (r : Ring) (opcode : ℕ) (arg : RegArg) (nr_args nr : ℕ) (t : Calls) where
  -- The request, and what it is answered at first
  abbrev pub request : Call
  request = register_call r opcode arg nr_args

  abbrev pub first_answer : ℤ
  first_answer = (os t request).ret

  -- The limit on descriptors as getrlimit(2) reads it, once the request has failed
  abbrev pub limit : Reply
  limit = os (request ∷ t) Call.getrlimit

  -- What the loop ends with: its result and the calls made
  pub data Tries : ℤ × Calls → Type 0 where
    answered : first_answer ≢ neg Errno.emfile → Tries (first_answer, request ∷ t)
    unread :
        (t' : Calls)
        → first_answer ≡ neg Errno.emfile
        → is_neg limit.ret ≡ true
        → t' ≡ Call.getrlimit ∷ request ∷ t
        → Tries ((os t' request).ret, request ∷ t')
    raised :
        (t' : Calls)
        → first_answer ≡ neg Errno.emfile
        → is_neg limit.ret ≡ false
        → limit.rlim_cur < nr
        → t' ≡ Call.setrlimit (add64 limit.rlim_cur nr) ∷ Call.getrlimit ∷ request ∷ t
        → Tries ((os t' request).ret, request ∷ t')
    enough :
        (t' : Calls)
        → first_answer ≡ neg Errno.emfile
        → is_neg limit.ret ≡ false
        → nr ≤ limit.rlim_cur
        → t' ≡ Call.getrlimit ∷ request ∷ t
        → Tries ((os t' request).ret, request ∷ t')

  Tries-emfile :
      first_answer ≡ neg Errno.emfile
      → (let t' = (increase_rlimit_nofile os (request ∷ t) nr).1 in
          Tries ((os t' request).ret, request ∷ t'))
  unfolding increase_rlimit_nofile
  Tries-emfile e = elim (Bool-cases (is_neg limit.ret)) [
    | inl bad ↦ rw bad (unread _ e bad refl)
    | inr fine ↦ elim (Bool-cases (ltb limit.rlim_cur nr)) [
      | inl low ↦ rw (fine, low) (raised _ e fine (ground (arith, low)) refl)
      | inr high ↦ rw (fine, high) (enough _ e fine (ground (arith, high)) refl)
    ]
  ]

  -- The loop of the functions that register files ends within two rounds, with one of these
  -- lists of calls and the last answer as its result: the request alone, where it has not failed
  -- for want of descriptors; else the request, getrlimit(2), setrlimit(2) to the limit plus the
  -- number of files where the limit could be read and is below that number, and the request once
  -- more.
  pub retry_loop-Tries :
      (result : ℤ × Calls) × (retry_loop os r opcode arg nr_args nr 2 false t ≡ some result)
      × Tries result
  unfolding retry_loop register_ret do_register
  retry_loop-Tries = elim (Bool-cases (eqb first_answer (neg Errno.emfile))) [
    | inl e ↦
        let t' = (increase_rlimit_nofile os (request ∷ t) nr).1 in
        (
          ((os t' request).ret, request ∷ t'),
          rw (neg_of_emfile first_answer e, e) (ground arith),
          Tries-emfile (is_emfile first_answer e),
        )
    | inr e ↦ (
      (first_answer, request ∷ t),
      rw e (ground arith),
      answered (λ is. true≢false (sym (ap (λ z. eqb z (neg Errno.emfile)) is) ∙ e)),
    )
  ]
