-- ===== src/Inquire/Analyze/Bounded.antt =====
-- About the limits of an inquiry in smeme/reasoning/runtime/inquire/analyze.py.
use smeme.Base.{
  ℕ, ◌≤◌, Text, leb, not, ◌&&◌, ◌≡◌, sym, subst, ap, Option, none, some, List, [], ◌∷◌, arith,
}
use smeme.Base.Result.{Result, ok, err, >>=-eq-ok, >>-eq-ok, ok_injective}
use smeme.Ir.Types.{Ir}
use smeme.Theory.Formula.{Formula}
use smeme.Theory.Symbols.{Platform}
use smeme.Theory.Compile.{compile_ir_to_z3}
use smeme.Runtime.Assumptions.{ReasoningAssumptions}
use smeme.Runtime.Evaluate.{CheckResult}
use smeme.Runtime.Gate.{Status, answered, inconsistent, stopped, QueryError, WorkingBase}
use smeme.Inquire.Types.{Evidence, AdmittedAssertion, VerificationKey, logical_evidence}
use smeme.Inquire.Budget.{
  InquiryBudget, hard_max_inquire_timeout_ms, hard_max_resolving_support_sat_calls,
}
use smeme.Inquire.Space.{base_from, resolved_conclusion, compile_working_base, check_cons}
use smeme.Inquire.Space.Limits.{resolved_conclusion-IsFrugal, check_cons-IsFrugal}
use smeme.Inquire.Discriminators.{myopic_discriminators}
use smeme.Inquire.Resolvable.{
  Witness, acquire, not_resolvable, budget_miss, search_resolving_witness,
}
use smeme.Inquire.Support.{support_base, or_query_error, resolving_support}
use smeme.Inquire.Analyze.{
  AnalyzeError, Analysis, query_failed, support_failed, premise_error, lift_error, or_no_theory,
  finish, InquiryDirective, first_unverified, after_support, after_witness, witness_phase,
  after_discriminators, after_resolved, after_cons, analyze_inquiry,
}
use smeme.Inquire.Analyze.Limits.{
  myopic_discriminators-IsFrugal, search_resolving_witness-IsFrugal, search_support-IsFrugal,
}

pub lift_error-ok :
    {E A : Type 0} (f : E → AnalyzeError) (r : Result E A) {a : A}
    → lift_error f r ≡ ok a
    → r ≡ ok a
unfolding lift_error
lift_error-ok f (ok b) h = ap ok (ok_injective h)
lift_error-ok f (err e) h = absurd (cc)

or_query_error-ok :
    {A : Type 0} (r : Result QueryError A) {a : A} → or_query_error r ≡ ok a → r ≡ ok a
unfolding or_query_error
or_query_error-ok (ok b) h = ap ok (ok_injective h)
or_query_error-ok (err e) h = absurd (cc)

-- The search for a support keeps to the limit that it is given.
support_bounded :
    (p : Platform) (check : ℕ → ℕ → List Formula → CheckResult) (base : WorkingBase) (target : Text)
    (most time : ℕ) (s : Status Evidence) (k : ℕ)
    → resolving_support p check base target most time ≡ ok (s, k)
    → k ≤ most
unfolding resolving_support support_base
support_bounded p check base target most time s k h =
    let (_, h1) =
      >>-eq-ok (not (leb 1 most && leb most hard_max_resolving_support_sat_calls)) _ _ h in
    let (_, h2) = >>-eq-ok (not (leb 1 time && leb time hard_max_inquire_timeout_ms)) _ _ h1 in
    (search_support-IsFrugal p check (support_base base most time) target 0 s k (omega arith)
      (or_query_error-ok _ h2)).1

module _ (p : Platform) (check : ℕ → ℕ → List Formula → CheckResult) (limits : InquiryBudget)
    (admitted : List AdmittedAssertion) (verified : List VerificationKey)
    (artifact_identity pv_version : Text) where
  abbrev IsWithin : Analysis → Type 0
  IsWithin r =
      (r.general_sat_calls ≤ limits.max_sat_calls)
      × (r.resolving_support_sat_calls ≤ limits.max_resolving_support_sat_calls)

  finish-IsWithin :
      (d : InquiryDirective) (n k : ℕ) (r : Analysis)
      → n ≤ limits.max_sat_calls
      → k ≤ limits.max_resolving_support_sat_calls
      → finish d n k ≡ ok r
      → IsWithin r
  unfolding finish
  finish-IsWithin d n k r h l e = subst IsWithin (ok_injective e) (h, l)

  support-IsWithin :
      (n : ℕ) (s : Status Evidence) (k : ℕ) (r : Analysis)
      → n ≤ limits.max_sat_calls
      → k ≤ limits.max_resolving_support_sat_calls
      → after_support p check limits admitted verified artifact_identity pv_version n (s, k) ≡ ok r
      → IsWithin r
  unfolding after_support
  support-IsWithin n (stopped o) k r h l e = finish-IsWithin _ n k r h l e
  support-IsWithin n (inconsistent c) k r h l e = finish-IsWithin _ n k r h l e
  support-IsWithin n (answered pairs) k r h l e =
      let (d, a, b) =
        >>=-eq-ok (first_unverified admitted verified artifact_identity pv_version pairs)
          (λ d. finish d n k) e in
      finish-IsWithin d n k r h l b

  witness-IsWithin :
      (s : Status Witness) (n : ℕ) (r : Analysis)
      → n ≤ limits.max_sat_calls
      → after_witness p check limits admitted verified artifact_identity pv_version (s, n) ≡ ok r
      → IsWithin r
  unfolding after_witness
  witness-IsWithin (answered (acquire q)) n r h e = finish-IsWithin _ n 0 r h (omega arith) e
  witness-IsWithin (answered not_resolvable) n r h e = finish-IsWithin _ n 0 r h (omega arith) e
  witness-IsWithin (answered (budget_miss o)) n r h e = finish-IsWithin _ n 0 r h (omega arith) e
  witness-IsWithin (inconsistent c) n r h e = finish-IsWithin _ n 0 r h (omega arith) e
  witness-IsWithin (stopped o) n r h e = finish-IsWithin _ n 0 r h (omega arith) e

  module _ (base : WorkingBase) (limited : base.max_sat_calls ≡ limits.max_sat_calls) where
    witness_phase-IsWithin :
        (n : ℕ) (r : Analysis)
        → n ≤ base.max_sat_calls
        → witness_phase p check limits admitted verified artifact_identity pv_version base n ≡ ok r
        → IsWithin r
    unfolding witness_phase
    witness_phase-IsWithin n r h e =
        let ((s, k), a, b) =
          >>=-eq-ok (lift_error query_failed (search_resolving_witness p check base limits n)) _
            e in
        let (_, l) =
          search_resolving_witness-IsFrugal p check base limits n s k h
            (lift_error-ok query_failed _ a) in
        witness-IsWithin s k r (omega arith) b

    discriminators-IsWithin :
        (s : Status (List Text)) (n : ℕ) (r : Analysis)
        → n ≤ base.max_sat_calls
        → after_discriminators p check limits admitted verified artifact_identity pv_version base
            (s, n)
          ≡ ok r
        → IsWithin r
    unfolding after_discriminators
    discriminators-IsWithin (stopped o) n r h e =
        finish-IsWithin _ n 0 r (omega arith) (omega arith) e
    discriminators-IsWithin (answered (q ∷ qs)) n r h e =
        finish-IsWithin _ n 0 r (omega arith) (omega arith) e
    discriminators-IsWithin (answered []) n r h e = witness_phase-IsWithin n r h e
    discriminators-IsWithin (inconsistent c) n r h e = witness_phase-IsWithin n r h e

    resolved-IsWithin :
        (s : Status (Option Text)) (n : ℕ) (r : Analysis)
        → n ≤ base.max_sat_calls
        → after_resolved p check limits admitted verified artifact_identity pv_version base (s, n)
          ≡ ok r
        → IsWithin r
    unfolding after_resolved
    resolved-IsWithin (stopped o) n r h e = finish-IsWithin _ n 0 r (omega arith) (omega arith) e
    resolved-IsWithin (inconsistent c) n r h e =
        finish-IsWithin _ n 0 r (omega arith) (omega arith) e
    resolved-IsWithin (answered (some c)) n r h e =
        let ((s, k), a, b) =
          >>=-eq-ok
            (lift_error support_failed (
              resolving_support p check base c limits.max_resolving_support_sat_calls
                limits.resolving_support_timeout_ms))
            _ e in
        support-IsWithin n s k r (omega arith)
          (support_bounded p check base c limits.max_resolving_support_sat_calls
            limits.resolving_support_timeout_ms s k (lift_error-ok support_failed _ a))
          b
    resolved-IsWithin (answered none) n r h e =
        let ((s, k), a, b) =
          >>=-eq-ok (lift_error query_failed (myopic_discriminators p check base n)) _ e in
        let (_, l) =
          myopic_discriminators-IsFrugal p check base n s k h (lift_error-ok query_failed _ a) in
        discriminators-IsWithin s k r l b

    cons-IsWithin :
        (s : Status Unit) (n : ℕ) (r : Analysis)
        → n ≤ base.max_sat_calls
        → after_cons p check limits admitted verified artifact_identity pv_version base (s, n)
          ≡ ok r
        → IsWithin r
    unfolding after_cons
    cons-IsWithin (stopped o) n r h e = finish-IsWithin _ n 0 r (omega arith) (omega arith) e
    cons-IsWithin (inconsistent c) n r h e = finish-IsWithin _ n 0 r (omega arith) (omega arith) e
    cons-IsWithin (answered u) n r h e =
        let ((s, k), a, b) =
          >>=-eq-ok (lift_error query_failed (resolved_conclusion p check base n)) _ e in
        let (_, l) =
          resolved_conclusion-IsFrugal p check base n s k h (lift_error-ok query_failed _ a) in
        resolved-IsWithin s k r l b

  base_from_limit :
      (ir : Ir) (evidence : Evidence) (phi : ReasoningAssumptions) (fs : Option (List Formula))
      (base : WorkingBase)
      → or_no_theory (base_from ir evidence phi limits fs) ≡ ok base
      → base.max_sat_calls ≡ limits.max_sat_calls
  unfolding or_no_theory base_from
  base_from_limit ir evidence phi none base h = absurd (cc)
  base_from_limit ir evidence phi (some fs) base h =
      sym (ap (λ (b : WorkingBase). b.max_sat_calls) (ok_injective h))

  compiled_limit :
      (ir : Ir) (evidence : Evidence) (phi : ReasoningAssumptions) (base : WorkingBase)
      → or_no_theory (compile_working_base p ir evidence phi limits) ≡ ok base
      → base.max_sat_calls ≡ limits.max_sat_calls
  unfolding compile_working_base
  compiled_limit ir evidence phi base h =
      base_from_limit ir evidence phi (compile_ir_to_z3 p ir) base h

  -- An analysis that returns has called the solver no more often than its budget allows, for the
  -- general queries and for the search for a support.
  pub analyze_inquiry_bounded :
      (ir : Ir) (phi : ReasoningAssumptions) (r : Analysis)
      → analyze_inquiry p check limits admitted verified artifact_identity pv_version ir phi ≡ ok r
      → (r.general_sat_calls ≤ limits.max_sat_calls)
        × (r.resolving_support_sat_calls ≤ limits.max_resolving_support_sat_calls)
  unfolding analyze_inquiry
  analyze_inquiry_bounded ir phi r h =
      let (evidence, _, h1) =
        >>=-eq-ok (lift_error premise_error (logical_evidence admitted)) _ h in
      let (base, compiled, h2) =
        >>=-eq-ok (or_no_theory (compile_working_base p ir evidence phi limits)) _ h1 in
      let ((s, k), a, h3) = >>=-eq-ok (lift_error query_failed (check_cons p check base 0)) _ h2 in
      let (_, l) =
        check_cons-IsFrugal p check base 0 s k (omega arith) (lift_error-ok query_failed _ a) in
      cons-IsWithin base (compiled_limit ir evidence phi base compiled) s k r l h3
