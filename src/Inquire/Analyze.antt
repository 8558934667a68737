-- ===== src/Inquire/Analyze.antt =====
-- `analyze_inquiry` of smeme/reasoning/runtime/inquire/analyze.py: what an inquiry does next. Besides
-- the directive a result holds the two counts of calls of the solver that its diagnostics show: those
-- of the general queries and those of the search for a support. Clocks and log records are left out.
pub mod Limits
pub mod Bounded
pub mod Candidates
pub mod Questions
pub mod Directive
use smeme.Base.{
  ℕ, Text, ◌==◌, any, keep, not, ◌&&◌, Bool, true, false, if◌then◌else◌, Option, none, some, List,
  [], ◌∷◌,
}
use smeme.Base.Result.{Result, ok, err, ◌>>=◌}
use smeme.Ir.Types.{Ir}
use smeme.Theory.Formula.{Formula}
use smeme.Theory.Symbols.{Platform}
use smeme.Runtime.Assumptions.{ReasoningAssumptions}
use smeme.Runtime.Evaluate.{CheckResult}
use smeme.Runtime.Gate.{
  Status, answered, inconsistent, stopped, Cause, Operational, unknown_status, budget, timeout,
  QueryError, WorkingBase,
}
use smeme.Inquire.Types.{
  AdmittedAssertion, VerificationKey, InquireError, Evidence, logical_evidence,
  verification_key_for,
}
use smeme.Inquire.Budget.{InquiryBudget}
use smeme.Inquire.Space.{compile_working_base, check_cons, resolved_conclusion}
use smeme.Inquire.Discriminators.{myopic_discriminators}
use smeme.Inquire.Resolvable.{
  Witness, acquire, not_resolvable, budget_miss, search_resolving_witness,
}
use smeme.Inquire.Support.{SupportError, resolving_support}

pub data StopReason : Type 0 where
  stop_inconsistent verified_resolved_consequence : StopReason
  not_resolvable_by_remaining_evidence_vocabulary no_joint_discriminator_within_budget : StopReason
  resolving_support_incomplete : StopReason
  operational_budget operational_timeout operational_unknown : StopReason

-- The actions `VERIFY`, `ACQUIRE` and `STOP` with the fields that they fill.
pub data InquiryDirective : Type 0 where
  verify_assertion : AdmittedAssertion → VerificationKey → InquiryDirective
  acquire_answer : Text → InquiryDirective
  stop : StopReason → Option Cause → Option Operational → InquiryDirective

pub data AnalyzeError : Type 0 where
  premise_error : InquireError → AnalyzeError
  no_theory : AnalyzeError
  query_failed : QueryError → AnalyzeError
  support_failed : SupportError → AnalyzeError
  -- `S_R pair … is not a unique live assertion`
  not_unique : Text → Text → AnalyzeError

pub record Analysis : Type 0 where
  pub directive : InquiryDirective
  pub general_sat_calls : ℕ
  pub resolving_support_sat_calls : ℕ

unfoldable pub lift_error : {E A : Type 0} → (E → AnalyzeError) → Result E A → Result AnalyzeError A
lift_error f (ok a) = ok a
lift_error f (err e) = err (f e)

unfoldable pub or_no_theory : Option WorkingBase → Result AnalyzeError WorkingBase
or_no_theory none = err no_theory
or_no_theory (some base) = ok base

unfoldable pub operational_stop : Operational → InquiryDirective
operational_stop budget = stop operational_budget none (some budget)
operational_stop timeout = stop operational_timeout none (some timeout)
operational_stop unknown_status = stop operational_unknown none (some unknown_status)

unfoldable pub finish : InquiryDirective → ℕ → ℕ → Result AnalyzeError Analysis
finish d general support =
    ok
      (record { directive = d; general_sat_calls = general; resolving_support_sat_calls = support })

-- `==` of the frozen dataclasses.
unfoldable pub same_key : VerificationKey → VerificationKey → Bool
same_key a b =
    a.artifact_identity == b.artifact_identity
    && a.question_id == b.question_id
    && a.option == b.option
    && a.provenance_identity == b.provenance_identity
    && a.pv_version == b.pv_version

unfoldable pub the_only :
    Text → Text → List AdmittedAssertion → Result AnalyzeError AdmittedAssertion
the_only q a (item ∷ []) = ok item
the_only q a _ = err (not_unique q a)

unfoldable pub assertion_for_pair :
    List AdmittedAssertion → Text → Text → Result AnalyzeError AdmittedAssertion
unfolding the_only
assertion_for_pair admitted q a =
    the_only q a
      (keep (λ (item : AdmittedAssertion). item.question_id == q && item.option == a) admitted)

-- The first pair of the support whose assertion is not verified.
unfoldable pub first_unverified :
    List AdmittedAssertion
    → List VerificationKey
    → Text
    → Text
    → Evidence
    → Result AnalyzeError InquiryDirective
unfolding assertion_for_pair same_key verification_key_for
first_unverified admitted verified artifact_identity pv_version [] =
    ok (stop verified_resolved_consequence none none)
first_unverified admitted verified artifact_identity pv_version ((q, a) ∷ pairs) = do
  item ← assertion_for_pair admitted q a
  if any (same_key (verification_key_for item artifact_identity pv_version)) verified
      then first_unverified admitted verified artifact_identity pv_version pairs
      else ok (verify_assertion item (verification_key_for item artifact_identity pv_version))

module _ (p : Platform) (check : ℕ → ℕ → List Formula → CheckResult) (limits : InquiryBudget)
    (admitted : List AdmittedAssertion) (verified : List VerificationKey)
    (artifact_identity pv_version : Text) where
  unfoldable pub after_support : ℕ → Status Evidence × ℕ → Result AnalyzeError Analysis
  unfolding finish first_unverified
  after_support n (stopped o, k) = finish (stop resolving_support_incomplete none (some o)) n k
  after_support n (answered pairs, k) = do
    d ← first_unverified admitted verified artifact_identity pv_version pairs
    finish d n k
  after_support n (inconsistent _, k) = finish (stop verified_resolved_consequence none none) n k

  unfoldable pub after_witness : Status Witness × ℕ → Result AnalyzeError Analysis
  unfolding finish operational_stop
  after_witness (answered (acquire q), n) = finish (acquire_answer q) n 0
  after_witness (answered not_resolvable, n) =
      finish (stop not_resolvable_by_remaining_evidence_vocabulary none none) n 0
  after_witness (answered (budget_miss o), n) =
      finish (stop no_joint_discriminator_within_budget none (some o)) n 0
  after_witness (inconsistent _, n) = finish (operational_stop unknown_status) n 0
  after_witness (stopped _, n) = finish (operational_stop unknown_status) n 0

  unfoldable pub witness_phase : WorkingBase → ℕ → Result AnalyzeError Analysis
  unfolding lift_error search_resolving_witness after_witness
  witness_phase base n =
      lift_error query_failed (search_resolving_witness p check base limits n) >>= after_witness

  unfoldable pub after_discriminators :
      WorkingBase → Status (List Text) × ℕ → Result AnalyzeError Analysis
  unfolding finish operational_stop witness_phase
  after_discriminators base (stopped o, n) = finish (operational_stop o) n 0
  after_discriminators base (answered (q ∷ _), n) = finish (acquire_answer q) n 0
  after_discriminators base (answered [], n) = witness_phase base n
  after_discriminators base (inconsistent _, n) = witness_phase base n

  unfoldable pub after_resolved :
      WorkingBase → Status (Option Text) × ℕ → Result AnalyzeError Analysis
  unfolding lift_error finish operational_stop resolving_support after_support myopic_discriminators
      after_discriminators
  after_resolved base (stopped o, n) = finish (operational_stop o) n 0
  after_resolved base (inconsistent c, n) = finish (stop stop_inconsistent (some c) none) n 0
  after_resolved base (answered (some c), n) =
      lift_error support_failed (
        resolving_support p check base c limits.max_resolving_support_sat_calls
          limits.resolving_support_timeout_ms)
      >>= after_support n
  after_resolved base (answered none, n) =
      lift_error query_failed (myopic_discriminators p check base n) >>= after_discriminators base

  unfoldable pub after_cons : WorkingBase → Status Unit × ℕ → Result AnalyzeError Analysis
  unfolding lift_error finish operational_stop resolved_conclusion after_resolved
  after_cons base (stopped o, n) = finish (operational_stop o) n 0
  after_cons base (inconsistent c, n) = finish (stop stop_inconsistent (some c) none) n 0
  after_cons base (answered _, n) =
      lift_error query_failed (resolved_conclusion p check base n) >>= after_resolved base

  unfoldable pub analyze_inquiry : Ir → ReasoningAssumptions → Result AnalyzeError Analysis
  unfolding lift_error or_no_theory compile_working_base check_cons after_cons
  analyze_inquiry ir phi = do
    evidence ← lift_error premise_error (logical_evidence admitted)
    base ← or_no_theory (compile_working_base p ir evidence phi limits)
    cons ← lift_error query_failed (check_cons p check base 0)
    after_cons base cons
