-- ===== src/Inquire/Analyze/Directive.antt =====
-- About the directives of `analyze_inquiry` of smeme/reasoning/runtime/inquire/analyze.py.
use smeme.Base.{
  inr, inl, ℕ, Text, ◌==◌, any, not, mem, ◌&&◌, false, ◌≡◌, ◌≢◌, refl, sym, subst, ap, ◌∙◌, Option,
  none, some, List, [], ◌∷◌, map, In, head, In-map, In-of_keep, In→mem, Bool-cases, arith,
}
use smeme.Base.Result.{ok, >>=-eq-ok, ok_injective}
use smeme.Ir.Types.{Ir}
use smeme.Theory.Formula.{Formula}
use smeme.Theory.Symbols.{Platform}
use smeme.Theory.Compile.{compile_ir_to_z3}
use smeme.Runtime.Assumptions.{ReasoningAssumptions}
use smeme.Runtime.Evaluate.{CheckResult}
use smeme.Runtime.Gate.{
  Status, answered, inconsistent, stopped, Operational, budget, timeout, unknown_status,
  WorkingBase,
}
use smeme.Inquire.Types.{
  Evidence, AdmittedAssertion, VerificationKey, logical_evidence, evidence_from,
  verification_key_for,
}
use smeme.Inquire.Budget.{InquiryBudget}
use smeme.Inquire.Space.{
  question_ids, unanswered_questions, base_from, compile_working_base, resolved_conclusion,
  check_cons,
}
use smeme.Inquire.Discriminators.{myopic_discriminators}
use smeme.Inquire.Resolvable.{
  Witness, acquire, not_resolvable, budget_miss, search_resolving_witness,
}
use smeme.Inquire.Support.{resolving_support}
use smeme.Inquire.Analyze.{
  Analysis, premise_error, query_failed, support_failed, lift_error, or_no_theory, finish,
  InquiryDirective, verify_assertion, acquire_answer, stop, operational_stop, same_key, the_only,
  assertion_for_pair, first_unverified, after_support, after_witness, witness_phase,
  after_discriminators, after_resolved, after_cons, analyze_inquiry,
}
use smeme.Inquire.Analyze.Bounded.{lift_error-ok}
use smeme.Inquire.Analyze.Questions.{discriminators-In, witness-In}

evidence_from-questions :
    (seen : List Text) (admitted : List AdmittedAssertion) {evidence : Evidence}
    → evidence_from seen admitted ≡ ok evidence
    → map (λ (k, _). k) evidence ≡ map (λ (item : AdmittedAssertion). item.question_id) admitted
unfolding evidence_from
evidence_from-questions seen [] h = ap (map (λ (k, _). k)) (sym (ok_injective h))
evidence_from-questions seen (item ∷ rest) h = elim (Bool-cases (mem item.question_id seen)) [
  | inl e ↦ absurd (cc (rw e at h))
  | inr e ↦
      let (more, a, b) = >>=-eq-ok (evidence_from (item.question_id ∷ seen) rest) _ (rw e at h) in
      ap (map (λ (k, _). k)) (sym (ok_injective b))
      ∙ ap (λ l. item.question_id ∷ l) (evidence_from-questions (item.question_id ∷ seen) rest a)
]

the_only-In :
    (q a : Text) (items : List AdmittedAssertion) {item : AdmittedAssertion}
    → the_only q a items ≡ ok item
    → In item items
unfolding the_only
the_only-In q a [] h = absurd (cc)
the_only-In q a (x ∷ []) h = subst (λ z. In z (x ∷ [])) (ok_injective h) head
the_only-In q a (x ∷ y ∷ rest) h = absurd (cc)

assertion_for_pair-In :
    (admitted : List AdmittedAssertion) (q a : Text) {item : AdmittedAssertion}
    → assertion_for_pair admitted q a ≡ ok item
    → In item admitted
unfolding assertion_for_pair
assertion_for_pair-In admitted q a h =
    (In-of_keep (λ (i : AdmittedAssertion). i.question_id == q && i.option == a) admitted
      (the_only-In q a _ h)).0

-- The question is one of the tree, and no assertion answers it.
abbrev pub IsAskable : List AdmittedAssertion → Ir → Text → Type 0
IsAskable admitted ir q =
    In q (question_ids ir) × ((item : AdmittedAssertion) → In item admitted → item.question_id ≢ q)

module _ (admitted : List AdmittedAssertion) (verified : List VerificationKey)
    (artifact_identity pv_version : Text) where
  -- What must hold of a directive, given what must hold of the question it asks for.
  unfoldable pub IsWarranted : (Text → Type 0) → InquiryDirective → Type 0
  IsWarranted IsOpen (acquire_answer q) = IsOpen q
  IsWarranted IsOpen (verify_assertion item key) =
      In item admitted
      × (key ≡ verification_key_for item artifact_identity pv_version)
      × (any (same_key key) verified ≡ false)
  IsWarranted IsOpen (stop _ _ _) = Unit

  module _ (IsOpen : Text → Type 0) where
    first_unverified-IsWarranted :
        (pairs : Evidence) (d : InquiryDirective)
        → first_unverified admitted verified artifact_identity pv_version pairs ≡ ok d
        → IsWarranted IsOpen d
    unfolding first_unverified IsWarranted
    first_unverified-IsWarranted [] d h = subst (IsWarranted IsOpen) (ok_injective h) tt
    first_unverified-IsWarranted ((q, a) ∷ pairs) d h =
        let (item, i, rest) = >>=-eq-ok (assertion_for_pair admitted q a) _ h in
        elim (Bool-cases
          (any (same_key (verification_key_for item artifact_identity pv_version)) verified)) [
            | inl e ↦ first_unverified-IsWarranted pairs d (rw e at rest)
            | inr e ↦
                subst (IsWarranted IsOpen) (ok_injective (rw e at rest))
                  (assertion_for_pair-In admitted q a i, refl, e)
          ]

    operational_stop-IsWarranted : (o : Operational) → IsWarranted IsOpen (operational_stop o)
    unfolding operational_stop IsWarranted
    operational_stop-IsWarranted budget = tt
    operational_stop-IsWarranted timeout = tt
    operational_stop-IsWarranted unknown_status = tt

    finish-IsWarranted :
        (d : InquiryDirective) (n k : ℕ) (r : Analysis)
        → IsWarranted IsOpen d
        → finish d n k ≡ ok r
        → IsWarranted IsOpen r.directive
    unfolding finish
    finish-IsWarranted d n k r w h =
        subst (λ (z : Analysis). IsWarranted IsOpen z.directive) (ok_injective h) w

    module _ (p : Platform) (check : ℕ → ℕ → List Formula → CheckResult)
        (limits : InquiryBudget) where
      support-IsWarranted :
          (n : ℕ) (s : Status Evidence) (k : ℕ) (r : Analysis)
          → after_support p check limits admitted verified artifact_identity pv_version n (s, k)
            ≡ ok r
          → IsWarranted IsOpen r.directive
      unfolding after_support IsWarranted
      support-IsWarranted n (stopped o) k r h = finish-IsWarranted _ n k r tt h
      support-IsWarranted n (inconsistent c) k r h = finish-IsWarranted _ n k r tt h
      support-IsWarranted n (answered pairs) k r h =
          let (d, a, b) =
            >>=-eq-ok (first_unverified admitted verified artifact_identity pv_version pairs)
              (λ d. finish d n k) h in
          finish-IsWarranted d n k r (first_unverified-IsWarranted pairs d a) b

      module _ (base : WorkingBase)
          (asks : (q : Text) → In q (unanswered_questions base.ir base.admitted) → IsOpen q) where
        witness_phase-IsWarranted :
            (n : ℕ) (r : Analysis)
            → witness_phase p check limits admitted verified artifact_identity pv_version base n
              ≡ ok r
            → IsWarranted IsOpen r.directive
        unfolding witness_phase after_witness IsWarranted
        witness_phase-IsWarranted n r h =
            let ((s, k), a, b) =
              >>=-eq-ok (lift_error query_failed (search_resolving_witness p check base limits n)) _
                h in
            parts s k (lift_error-ok query_failed _ a) b
          where
            parts :
                (s : Status Witness) (k : ℕ)
                → search_resolving_witness p check base limits n ≡ ok (s, k)
                → after_witness p check limits admitted verified artifact_identity pv_version (s, k)
                  ≡ ok r
                → IsWarranted IsOpen r.directive
            parts (answered (acquire q)) k a b =
                finish-IsWarranted _ k 0 r (asks q (witness-In p check base limits n k q a)) b
            parts (answered not_resolvable) k a b = finish-IsWarranted _ k 0 r tt b
            parts (answered (budget_miss o)) k a b = finish-IsWarranted _ k 0 r tt b
            parts (inconsistent c) k a b =
                finish-IsWarranted _ k 0 r (operational_stop-IsWarranted unknown_status) b
            parts (stopped o) k a b =
                finish-IsWarranted _ k 0 r (operational_stop-IsWarranted unknown_status) b

        resolved-IsWarranted :
            (s : Status (Option Text)) (n : ℕ) (r : Analysis)
            → after_resolved p check limits admitted verified artifact_identity pv_version base
                (s, n)
              ≡ ok r
            → IsWarranted IsOpen r.directive
        unfolding after_resolved after_discriminators IsWarranted
        resolved-IsWarranted (stopped o) n r h =
            finish-IsWarranted _ n 0 r (operational_stop-IsWarranted o) h
        resolved-IsWarranted (inconsistent c) n r h = finish-IsWarranted _ n 0 r tt h
        resolved-IsWarranted (answered (some c)) n r h =
            let ((s, k), _, b) =
              >>=-eq-ok
                (lift_error support_failed (
                  resolving_support p check base c limits.max_resolving_support_sat_calls
                    limits.resolving_support_timeout_ms))
                _ h in
            support-IsWarranted n s k r b
        resolved-IsWarranted (answered none) n r h =
            let ((s, k), a, b) =
              >>=-eq-ok (lift_error query_failed (myopic_discriminators p check base n)) _ h in
            parts s k (lift_error-ok query_failed _ a) b
          where
            parts :
                (s : Status (List Text)) (k : ℕ)
                → myopic_discriminators p check base n ≡ ok (s, k)
                → after_discriminators p check limits admitted verified artifact_identity pv_version
                    base
                    (s, k)
                  ≡ ok r
                → IsWarranted IsOpen r.directive
            parts (stopped o) k a b = finish-IsWarranted _ k 0 r (operational_stop-IsWarranted o) b
            parts (answered (q ∷ qs)) k a b =
                finish-IsWarranted _ k 0 r
                  (asks q (discriminators-In p check base n k (q ∷ qs) a q head)) b
            parts (answered []) k a b = witness_phase-IsWarranted k r b
            parts (inconsistent c) k a b = witness_phase-IsWarranted k r b

        cons-IsWarranted :
            (s : Status Unit) (n : ℕ) (r : Analysis)
            → after_cons p check limits admitted verified artifact_identity pv_version base (s, n)
              ≡ ok r
            → IsWarranted IsOpen r.directive
        unfolding after_cons IsWarranted
        cons-IsWarranted (stopped o) n r h =
            finish-IsWarranted _ n 0 r (operational_stop-IsWarranted o) h
        cons-IsWarranted (inconsistent c) n r h = finish-IsWarranted _ n 0 r tt h
        cons-IsWarranted (answered u) n r h =
            let ((s, k), _, b) =
              >>=-eq-ok (lift_error query_failed (resolved_conclusion p check base n)) _ h in
            resolved-IsWarranted s k r b

  base_from-parts :
      (ir : Ir) (evidence : Evidence) (phi : ReasoningAssumptions) (limits : InquiryBudget)
      (fs : Option (List Formula)) (base : WorkingBase)
      → or_no_theory (base_from ir evidence phi limits fs) ≡ ok base
      → (ir ≡ base.ir) × (evidence ≡ base.admitted)
  unfolding or_no_theory base_from
  base_from-parts ir evidence phi limits none base h = absurd (cc)
  base_from-parts ir evidence phi limits (some fs) base h = (
    ap (λ (b : WorkingBase). b.ir) (ok_injective h),
    ap (λ (b : WorkingBase). b.admitted) (ok_injective h),
  )

  unanswered-IsAskable :
      (ir : Ir) (evidence : Evidence)
      → logical_evidence admitted ≡ ok evidence
      → (q : Text) → In q (unanswered_questions ir evidence)
      → IsAskable admitted ir q
  unfolding unanswered_questions logical_evidence
  unanswered-IsAskable ir evidence h q m =
      let (i, fresh) =
        In-of_keep (λ q. not (mem q (map (λ (k, _). k) evidence))) (question_ids ir) m in
      (
        i,
        λ item j e.
            let known : In q (map (λ (k, _). k) evidence) =
              subst (In q) (sym (evidence_from-questions [] admitted h)) (
                subst (λ z. In z (map (λ (a : AdmittedAssertion). a.question_id) admitted)) e
                  (In-map (λ (a : AdmittedAssertion). a.question_id) j)) in
            absurd (ground (arith, In→mem known, fresh)),
      )

  module _ (p : Platform) (check : ℕ → ℕ → List Formula → CheckResult)
      (limits : InquiryBudget) where
    -- The directive of an analysis that returns is warranted, whatever the solver answers: a question
    -- to acquire is one of the tree that no admitted assertion has, and an assertion to verify is an
    -- admitted one, with its own verification key, which is not among the verified keys.
    pub analyze_inquiry-IsWarranted :
        (ir : Ir) (phi : ReasoningAssumptions) (r : Analysis)
        → analyze_inquiry p check limits admitted verified artifact_identity pv_version ir phi
          ≡ ok r
        → IsWarranted (IsAskable admitted ir) r.directive
    unfolding analyze_inquiry compile_working_base
    analyze_inquiry-IsWarranted ir phi r h =
        let (evidence, given, h1) =
          >>=-eq-ok (lift_error premise_error (logical_evidence admitted)) _ h in
        let (base, compiled, h2) =
          >>=-eq-ok (or_no_theory (compile_working_base p ir evidence phi limits)) _ h1 in
        let ((s, k), _, h3) =
          >>=-eq-ok (lift_error query_failed (check_cons p check base 0)) _ h2 in
        let (same, premises) =
          base_from-parts ir evidence phi limits (compile_ir_to_z3 p ir) base compiled in
        cons-IsWarranted (IsAskable admitted ir) p check limits base
          (λ q m. unanswered-IsAskable ir evidence (lift_error-ok premise_error _ given) q (
            subst (λ (z : Evidence). In q (unanswered_questions ir z)) (sym premises)
              (subst (λ (z : Ir). In q (unanswered_questions z base.admitted)) (sym same) m)))
          s k r h3
