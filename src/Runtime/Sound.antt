-- ===== src/Runtime/Sound.antt =====
-- The verdicts of smeme/reasoning/runtime/evaluate.py against the models of what was asserted.
use smeme.Base.{
  if◌then◌else◌, Text, text_leb, Bool, true, false, not, ◌&&◌, ◌≡◌, ◌≢◌, refl, none, some, List, [],
  ◌∷◌, ◌++◌, In, head, In-cons, In-append_cases, In-of_keep, In-of_sort, In-of_map, inl, inr, subst,
  sym, ap, ◌∙◌, arith, Bool-cases, if◌then◌else◌,
}
use smeme.Base.Result.{ok, >>=-eq-ok, >>-eq-ok, ok_injective}
use smeme.Ir.Types.{Ir, IrNode, question, conclusion}
use smeme.Theory.Formula.{Formula, Model, atom, neg, holds, Satisfies}
use smeme.Theory.Symbols.{Platform, reach_symbol}
use smeme.Theory.Compile.{compile_ir_to_z3}
use smeme.Theory.Reach.{Reached, reach_iff}
use smeme.Ir.Validate.{is_valid}
use smeme.Ir.Validate.Spec.{IsValidIr}
use smeme.Runtime.Facts.{CanonicalFactRecord, apply_canonical_facts_to_solver}
use smeme.Runtime.Evaluate.{
  evaluate_with_canonical_facts, z3_unsat, lift, or_key_error, assumptions_error, CheckResult, sat,
  unsat, unknown, sat_unique, EvaluationResult, conclusion_ids, true_conclusions_of, found,
  name_conclusion, conclude, with_assumptions, ladder, refused,
}
use smeme.Runtime.Assumptions.{
  ReasoningAssumptions, is_empty, assumption_literals, validate_assumptions,
}

-- The solver's answers are right: a model satisfies what was asserted, and nothing does after unsat.
pub record IsSolver (check : List Formula → CheckResult) : Type 0 where
  pub sat_holds : (fs : List Formula) (m : Model) → check fs ≡ sat m → Satisfies m fs
  pub unsat_none : (fs : List Formula) (m : Model) → check fs ≡ unsat → Satisfies m fs → ⊥

-- Everything that has been asserted when the conclusion is named.
abbrev pub asserted : Platform → List Formula → ReasoningAssumptions → List Formula
asserted p base phi = if is_empty phi then base else base ++ assumption_literals p phi

module _ (p : Platform) (check : List Formula → CheckResult) (solver : IsSolver check)
    (ir : Ir) where
  -- A conclusion is reached in every model of some assertions.
  abbrev IsForced : List Formula → Text → Type 0
  IsForced base c = (m : Model) → Satisfies m base → m (reach_symbol p c) ≡ true

  Satisfies-concat :
      (base : List Formula) (f : Formula) (m : Model)
      → Satisfies m base
      → holds m f ≡ true
      → Satisfies m (base ++ f ∷ [])
  Satisfies-concat base f m s h g i = elim (In-append_cases base i) [
    | inl old ↦ s g old
    | inr last ↦ elim (In-cons last) [ inl e ↦ rw e h | inr gone ↦ elim gone [ ] ]
  ]

  -- After unsat for its negation a conclusion is forced.
  forced :
      (base : List Formula) (c : Text)
      → check (base ++ neg (atom (reach_symbol p c)) ∷ []) ≡ unsat
      → IsForced base c
  unfolding holds
  forced base c u m s = elim (Bool-cases (m (reach_symbol p c))) [
    | inl reached ↦ reached
    | inr missed ↦ absurd (
        solver.unsat_none _ m u
          (Satisfies-concat base (neg (atom (reach_symbol p c))) m s (rw missed refl)))
  ]

  abbrev IsDecided : List Formula → Text → Type 0
  IsDecided base c = check (base ++ neg (atom (reach_symbol p c)) ∷ []) ≢ unknown

  -- What a verdict that names one conclusion owes: the conclusion is one of the Ir's, and forced.
  abbrev Names : List Formula → EvaluationResult → Text → Type 0
  Names base r c =
      r.status ≡ sat_unique
      → r.true_conclusion_id ≡ some c
      → IsDecided base c
      → In c (conclusion_ids ir) × IsForced base c

  name-Names :
      (base : List Formula) (m : Model) (only : Text) (r : CheckResult) (c : Text)
      → In only (conclusion_ids ir)
      → check (base ++ neg (atom (reach_symbol p only)) ∷ []) ≡ r
      → Names base (name_conclusion p ir m only r) c
  unfolding name_conclusion found
  name-Names base m only (sat _) c i e s t d = absurd (cc)
  name-Names base m only unsat c i e s t d =
      let same : only ≡ c = ground arith in
      (
        subst (λ x. In x (conclusion_ids ir)) same i,
        subst (IsForced base) same (forced base only e),
      )
  name-Names base m only unknown c i e s t d =
      let same : only ≡ c = ground arith in
      absurd (d (subst (λ x. check (base ++ neg (atom (reach_symbol p x)) ∷ []) ≡ unknown) same e))

  conclude-Names :
      (base : List Formula) (m : Model) (cs : List Text) (c : Text)
      → ((x : Text) → In x cs → In x (conclusion_ids ir))
      → Names base (conclude p check ir base m cs) c
  unfolding conclude found
  conclude-Names base m [] c i s t d = absurd (cc)
  conclude-Names base m (only ∷ []) c i s t d = name-Names base m only _ c (i only head) refl s t d
  conclude-Names base m (a ∷ b ∷ cs) c i s t d = absurd (cc)

  true_conclusions-In :
      (m : Model) (x : Text) → In x (true_conclusions_of p ir m) → In x (conclusion_ids ir)
  unfolding true_conclusions_of
  true_conclusions-In m x i = (In-of_keep (λ c. m (reach_symbol p c)) (conclusion_ids ir) i).0

  with_assumptions-Names :
      (base : List Formula) (r : CheckResult) (c : Text)
      → Names base (with_assumptions p check ir base r) c
  unfolding with_assumptions refused
  with_assumptions-Names base (sat m) c s t d =
      conclude-Names base m _ c (true_conclusions-In m) s t d
  with_assumptions-Names base unsat c s t d = absurd (cc)
  with_assumptions-Names base unknown c s t d = absurd (cc)

  ladder-Names :
      (phi : ReasoningAssumptions) (base : List Formula) (r : CheckResult) (c : Text)
      → Names (asserted p base phi) (ladder p check ir phi base r) c
  unfolding ladder refused
  ladder-Names phi base unsat c s t d = absurd (cc)
  ladder-Names phi base unknown c s t d = absurd (cc)
  ladder-Names phi base (sat m) c s t d = branch (is_empty phi) s t d
    where
      more : List Formula
      more = base ++ assumption_literals p phi

      branch :
          (b : Bool)
          → Names
              (if b then base else more)
              (if b
                then conclude p check ir base m (true_conclusions_of p ir m)
                else with_assumptions p check ir more (check more))
              c
      branch true = conclude-Names base m _ c (true_conclusions-In m)
      branch false = with_assumptions-Names more _ c

  Satisfies-append :
      (xs ys : List Formula) (m : Model) → Satisfies m xs → Satisfies m ys → Satisfies m (xs ++ ys)
  Satisfies-append xs ys m a b f i = elim (In-append_cases xs i) [ inl l ↦ a f l | inr r ↦ b f r ]

  Satisfies-asserted :
      (base : List Formula) (phi : ReasoningAssumptions) (m : Model)
      → Satisfies m base
      → Satisfies m (assumption_literals p phi)
      → Satisfies m (asserted p base phi)
  Satisfies-asserted base phi m a b = elim (Bool-cases (is_empty phi)) [
    | inl e ↦ rw e a
    | inr e ↦ rw e (Satisfies-append base (assumption_literals p phi) m a b)
  ]

  -- The conclusions of the Ir are nodes of it.
  conclusion_ids-In :
      (c : Text) → In c (conclusion_ids ir) → (n : IrNode) × In n ir.nodes × (n.id ≡ c)
  unfolding conclusion_ids
  conclusion_ids-In c i =
      let (n, j, same) = In-of_map (λ (n : IrNode). n.id) _ (In-of_sort text_leb _ i) in
      (
        n,
        (In-of_keep (λ (n : IrNode). elim n.kind [ conclusion ↦ true | question ↦ false ]) ir.nodes
            j).0,
        same,
      )

  -- Only the first check of the ladder gives the reason `z3_unsat`.
  conclude-reason :
      (base : List Formula) (m : Model) (cs : List Text)
      → (conclude p check ir base m cs).reason ≡ none
  unfolding conclude found name_conclusion
  conclude-reason base m [] = refl
  conclude-reason base m (only ∷ []) =
      name-reason (check (base ++ neg (atom (reach_symbol p only)) ∷ []))
    where
      name-reason : (r : CheckResult) → (name_conclusion p ir m only r).reason ≡ none
      name-reason (sat _) = refl
      name-reason unsat = refl
      name-reason unknown = refl
  conclude-reason base m (_ ∷ _ ∷ _) = refl

  with_assumptions-reason :
      (base : List Formula) (r : CheckResult)
      → (with_assumptions p check ir base r).reason ≡ some z3_unsat
      → ⊥
  unfolding with_assumptions refused
  with_assumptions-reason base (sat m) h = cc (conclude-reason base m (true_conclusions_of p ir m))
  with_assumptions-reason base unsat h = cc
  with_assumptions-reason base unknown h = cc

  ladder-reason :
      (phi : ReasoningAssumptions) (base : List Formula) (r : CheckResult)
      → (ladder p check ir phi base r).reason ≡ some z3_unsat
      → r ≡ unsat
  unfolding ladder refused
  ladder-reason phi base unsat h = refl
  ladder-reason phi base unknown h = absurd (cc)
  ladder-reason phi base (sat m) h = absurd (elim (Bool-cases (is_empty phi)) [
    | inl e ↦ cc (conclude-reason base m (true_conclusions_of p ir m), rw (ladder, e) at h)
    | inr e ↦ with_assumptions-reason _ _ (rw (ladder, e) at h)
  ])

  module _ (facts : List CanonicalFactRecord) (phi : ReasoningAssumptions) (fs ls : List Formula)
      (compiled : compile_ir_to_z3 p ir ≡ some fs)
      (projected : apply_canonical_facts_to_solver p ir facts ≡ ok ls) where
    -- The verdict is the ladder's, once the checks have passed.
    evaluate-ladder :
        (skip : Bool) {r : EvaluationResult}
        → evaluate_with_canonical_facts p check ir facts skip phi ≡ ok r
        → ladder p check ir phi (fs ++ ls) (check (fs ++ ls)) ≡ r
    unfolding evaluate_with_canonical_facts lift or_key_error
    evaluate-ladder skip h =
        let (_, _, h1) = >>=-eq-ok (lift assumptions_error (validate_assumptions ir phi)) _ h in
        let (_, h2) = >>-eq-ok (not skip && not (is_valid ir)) _ _ h1 in
        ok_injective (rw (compiled, projected) at h2)

    -- If the solver's answers are right and it decided the last check, a conclusion of a valid Ir that
    -- is reported as unique is reached from the entry along open guards in every model of the theory,
    -- the facts and the assumptions.
    pub evaluate_unique_forced :
        (skip : Bool) (r : EvaluationResult) (c : Text) (m : Model)
        → IsValidIr ir
        → evaluate_with_canonical_facts p check ir facts skip phi ≡ ok r
        → r.status ≡ sat_unique
        → r.true_conclusion_id ≡ some c
        → check (asserted p (fs ++ ls) phi ++ neg (atom (reach_symbol p c)) ∷ []) ≢ unknown
        → Satisfies m fs
        → Satisfies m ls
        → Satisfies m (assumption_literals p phi)
        → Reached p ir m c
    evaluate_unique_forced skip r c m v h s t d a b l =
        let (i, f) =
          subst (λ x. Names (asserted p (fs ++ ls) phi) x c) (evaluate-ladder skip h)
            (ladder-Names phi (fs ++ ls) (check (fs ++ ls)) c) s t d in
        let (n, j, same) = conclusion_ids-In c i in
        let value = f m (Satisfies-asserted (fs ++ ls) phi m (Satisfies-append fs ls m a b) l) in
        subst (Reached p ir m) same (
          (reach_iff p ir m v fs compiled a n j).0
            (subst (λ x. m (reach_symbol p x) ≡ true) (sym same) value))

    -- If the solver's answers are right, nothing satisfies the theory and the facts that are reported
    -- as inconsistent.
    pub evaluate_unsat_none :
        (skip : Bool) (r : EvaluationResult) (m : Model)
        → evaluate_with_canonical_facts p check ir facts skip phi ≡ ok r
        → r.reason ≡ some z3_unsat
        → ¬ (Satisfies m fs × Satisfies m ls)
    evaluate_unsat_none skip r m h e (a, b) =
        solver.unsat_none (fs ++ ls) m
          (ladder-reason phi (fs ++ ls) (check (fs ++ ls))
            (ap (λ (x : EvaluationResult). x.reason) (evaluate-ladder skip h) ∙ e))
          (Satisfies-append fs ls m a b)
