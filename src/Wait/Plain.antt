-- ===== src/Wait/Plain.antt =====
-- `__io_uring_peek_cqe` on a ring whose kernel takes timeouts itself (IORING_FEAT_EXT_ARG).
use liburing.Common.{
  ℕ, ◌≡◌, refl, ap, sym, ◌∙◌, true, false, List, [], ◌∷◌, ◌++◌, none, arith, length, has,
}
use liburing.Common.Int.{is_nonzero}
use liburing.Abi.Feat
use liburing.Sqe.{Cqe}
use liburing.Ring.{Ring}
use liburing.Completion.{Peeked, cq_ready, is_internal}
use liburing.Completion.Inv.{IsCq, ready_cqes}
use liburing.Completion.Peek.{Found, Ends, drained, found, failed, AllQuiet, ready-length}

-- What a peek says if it takes nothing away: no error, and the number of all that waits.
pub record Plain (r : Ring) (p : Peeked) : Type 0 where
  pub no_err : is_nonzero p.err ≡ false
  pub counted : p.available ≡ cq_ready r
  pub empty : p.cqe ≡ none → p.available ≡ 0
  pub same_features : p.ring.features ≡ r.features
  pub same_ready : cq_ready p.ring ≡ cq_ready r

-- So it is with IORING_FEAT_EXT_ARG.
module _ {k : ℕ} {r : Ring} {p : Peeked} (ext : has r.features Feat.ext_arg ≡ true) (v : IsCq k r)
    (f : Found k r p) where
  none_quiet : (cs : List Cqe) → AllQuiet r.features cs → cs ≡ []
  unfolding is_internal
  none_quiet [] q = refl
  none_quiet (c ∷ cs) q = ground arith

  all_rest : ready_cqes r ≡ f.rest
  all_rest = f.split ∙ ap (λ l. l ++ f.rest) (none_quiet f.quiet f.all_quiet)

  Ends-Plain : {rest : List Cqe} → Ends r.features p rest → ready_cqes r ≡ rest → Plain r p
  Ends-Plain (drained c e a h) q = record {
    no_err = rw e refl;
    counted = a ∙ ap length (sym q) ∙ ready-length v;
    empty = λ _. a;
    same_features = ap (λ (x : Ring). x.features) f.only;
    same_ready = sym (ready-length f.valid) ∙ ap length (h ∙ sym q) ∙ ready-length v;
  }
  Ends-Plain (found own c e a h) q = record {
    no_err = rw e refl;
    counted = a ∙ ap length (sym q) ∙ ready-length v;
    empty = λ n. cc;
    same_features = ap (λ (x : Ring). x.features) f.only;
    same_ready = sym (ready-length f.valid) ∙ ap length (h ∙ sym q) ∙ ready-length v;
  }
  Ends-Plain (failed {c = x} own bad c e a h) q = absurd (no_internal own)
    where
      no_internal : is_internal r.features x ≡ true → ⊥
      no_internal o = unfold is_internal in ground arith

  pub Found-Plain : Plain r p
  Found-Plain = Ends-Plain f.ends all_rest
