-- ===== src/Runtime/Gate/Meaning.antt =====
-- What the queries of smeme/reasoning/runtime/consistency_gate.py and
-- smeme/reasoning/runtime/counterfactual.py say of the models of the base.
use smeme.Base.{
  nil_of_is_nil, ℕ, Text, Bool, true, false, not, is_nil, if◌then◌else◌, ◌≡◌, refl, sym, subst, ap,
  ◌∙◌, ◌⊎◌, inl, inr, List, [], ◌∷◌, ◌++◌, map, head, In-cons, Bool-cases, arith,
}
use smeme.Base.Result.{ok, ok_injective}
use smeme.Theory.Formula.{Formula, Model, atom, neg, holds, Satisfies}
use smeme.Theory.Symbols.{Platform, reach_symbol}
use smeme.Runtime.Facts.{CanonicalFactRecord, raw_answers_to_canonical_facts}
use smeme.Runtime.Input.{text}
use smeme.Runtime.Assumptions.{is_empty}
use smeme.Runtime.Evaluate.{CheckResult}
use smeme.Runtime.Sound.{IsSolver}
use smeme.Runtime.Gate.{
  theory_unsat, answers_inconsistent, assumptions_inconsistent, answered, inconsistent, Run,
  WorkingBase, and_then, answer, ends, raises, result, resolve_facts, within_budget,
  validate_reach_target, call, ask, literals_of, pushed_assumptions, theory_step, evidence_step,
  assumption_step, check_premise_consistency, witness, disambiguate, entails_target,
  possible_target,
}
use smeme.Runtime.Gate.Limits.{Returns, and_then-answered}
use smeme.Runtime.Gate.Absent.{no_answers_lem}
use smeme.Runtime.Gate.Models.{
  Satisfiable, Satisfies-first, Satisfies-last, Satisfies-both, asserted_by, answered_injective,
  facts_ok, pushed_none, result-answered, call-true, call-false,
}

module _ (p : Platform) (check : ℕ → ℕ → List Formula → CheckResult)
    (solver : (t n : ℕ) → IsSolver (check t n)) (base : WorkingBase) where
  module _ (facts : List CanonicalFactRecord) (ls : List Formula)
      (resolved : resolve_facts base ≡ ok facts) (projected : literals_of p base facts ≡ ok ls)
      (trusted : base.sat_t_established ≡ true → Satisfiable base.theory) where
    abbrev asserted : List Formula
    asserted = asserted_by p base ls

    theory_step-Satisfiable :
        (n k : ℕ) → Returns (theory_step p check base) n (answered tt) k → Satisfiable base.theory
    unfolding theory_step
    theory_step-Satisfiable n k h = elim (Bool-cases base.sat_t_established) [
      | inl e ↦ trusted e
      | inr e ↦
          let (found, j, a, b) =
            and_then-answered (call p check base base.theory)
              (λ found. if found then within_budget base else raises theory_unsat) n (rw e at h) in
          decided found n j k a b
    ]
      where
        decided :
            (found : Bool) (n j k : ℕ)
            → Returns (call p check base base.theory) n (answered found) j
            → Returns (if found then within_budget base else raises theory_unsat) j (answered tt) k
            → Satisfiable base.theory
        decided true n j k a b = call-true p check solver base base.theory n j a
        decided false n j k a b = absurd (cc)

    no_literals : is_nil base.admitted ≡ true → ls ≡ []
    unfolding resolve_facts literals_of
    no_literals h =
        no_answers_lem p base.ir facts ls
          (subst
            (λ l. raw_answers_to_canonical_facts base.ir (map (λ (q, a). (q, text a)) l) ≡ ok facts)
            (nil_of_is_nil base.admitted h) (facts_ok _ facts resolved))
          (facts_ok _ ls projected)

    evidence_step-Satisfiable :
        (n k : ℕ) (found : List Formula)
        → Satisfiable base.theory
        → Returns (evidence_step p check base facts) n (answered found) k
        → (found ≡ ls) × Satisfiable (base.theory ++ ls)
    unfolding evidence_step
    evidence_step-Satisfiable n k found s h = elim (Bool-cases (is_nil base.admitted)) [
      | inl e ↦
          let nothing = no_literals e in
          (
            sym (answered_injective (ap (λ x. x.0) (ok_injective (rw e at h)))) ∙ sym nothing,
            subst (λ l. Satisfiable (base.theory ++ l)) (sym nothing)
                (s.0, Satisfies-both base.theory [] s.0 s.1 (λ f i. elim i [ ])),
          )
      | inr e ↦
          let (_, n1, a1, h1) =
            and_then-answered (within_budget base) (λ _. pushed) n (rw e at h) in
          let (ls1, n2, a2, h2) =
            and_then-answered (result (literals_of p base facts)) called_with n1 h1 in
          let same =
            ok_injective
              (sym (result-answered (literals_of p base facts) n1 n2 ls1 a2) ∙ projected) in
          let (b, n3, a3, h3) =
            and_then-answered (call p check base (base.theory ++ ls1)) (decided ls1) n2 h2 in
          let (is_ls1, m) = decided_lem ls1 b n2 n3 k a3 h3 in
          (is_ls1 ∙ same, subst (λ l. Satisfiable (base.theory ++ l)) same m)
    ]
      where
        decided : List Formula → Bool → Run (List Formula)
        decided literals b = if b then answer literals else ends (inconsistent answers_inconsistent)

        called_with : List Formula → Run (List Formula)
        called_with literals =
            and_then (call p check base (base.theory ++ literals)) (decided literals)

        pushed : Run (List Formula)
        pushed = and_then (result (literals_of p base facts)) called_with

        decided_lem :
            (literals : List Formula) (b : Bool) (i j l : ℕ)
            → Returns (call p check base (base.theory ++ literals)) i (answered b) j
            → Returns (decided literals b) j (answered found) l
            → (found ≡ literals) × Satisfiable (base.theory ++ literals)
        decided_lem literals true i j l a r = (
          sym (answered_injective (ap (λ x. x.0) (ok_injective r))),
          call-true p check solver base (base.theory ++ literals) i j a,
        )
        decided_lem literals false i j l a r = absurd (cc (ap (λ x. x.0) (ok_injective r)))

    assumption_step-Satisfiable :
        (n k : ℕ)
        → Satisfiable (base.theory ++ ls)
        → Returns (assumption_step p check base ls) n (answered tt) k
        → Satisfiable asserted
    unfolding assumption_step ask
    assumption_step-Satisfiable n k s h = parts (is_empty base.assumptions) refl h
      where
        decided : Bool → Run Unit
        decided b = if b then answer tt else ends (inconsistent assumptions_inconsistent)

        decided_lem :
            (b : Bool) (i j l : ℕ)
            → Returns (call p check base asserted) i (answered b) j
            → Returns (decided b) j (answered tt) l
            → Satisfiable asserted
        decided_lem true i j l a r = call-true p check solver base asserted i j a
        decided_lem false i j l a r = absurd (cc (ap (λ x. x.0) (ok_injective r)))

        parts :
            (e : Bool)
            → is_empty base.assumptions ≡ e
            → Returns
                (if e then answer tt else and_then (ask p check base asserted) decided)
                n
                (answered tt)
                k
            → Satisfiable asserted
        parts true e r = (
          s.0,
          subst (λ l. Satisfies s.0 (base.theory ++ (ls ++ l))) (sym (pushed_none p base e))
              (Satisfies-both base.theory (ls ++ []) s.0 (Satisfies-first base.theory ls s.0 s.1) (
                Satisfies-both ls [] s.0 (Satisfies-last base.theory ls s.0 s.1)
                  (λ f i. elim i [ ]))),
        )
        parts false e r =
            let (b, n1, a1, h1) = and_then-answered (ask p check base asserted) decided n r in
            let (_, n2, a2, h2) =
              and_then-answered (within_budget base) (λ _. call p check base asserted) n a1 in
            decided_lem b n2 n1 k h2 h1

    -- A base that the gate finds consistent has a model.
    pub check_premise_consistency-Satisfiable :
        (n k : ℕ)
        → Returns (check_premise_consistency p check base) n (answered tt) k
        → Satisfiable asserted
    unfolding check_premise_consistency
    check_premise_consistency-Satisfiable n k h =
        let (facts1, n1, a1, h1) = and_then-answered (result (resolve_facts base)) _ n h in
        let (_, n2, a2, h2) = and_then-answered (within_budget base) _ n1 h1 in
        let (_, n3, a3, h3) = and_then-answered (theory_step p check base) _ n2 h2 in
        let (found, n4, a4, h4) = and_then-answered (evidence_step p check base facts1) _ n3 h3 in
        let same =
          ok_injective (sym (result-answered (resolve_facts base) n n1 facts1 a1) ∙ resolved) in
        let (is_ls, s) =
          evidence_step-Satisfiable n3 n4 found (theory_step-Satisfiable n2 n3 a3)
            (subst (λ f. Returns (evidence_step p check base f) n3 (answered found) n4) same a4) in
        assumption_step-Satisfiable n4 k s
          (subst (λ f. Returns (assumption_step p check base f) n4 (answered tt) k) is_ls h4)

    witness_lem :
        (c : Text) (f : Formula) (n k : ℕ) (b : Bool)
        → Returns (witness p check base c f) n (answered b) k
        → (i : ℕ) × (j : ℕ) × Returns (call p check base (asserted ++ f ∷ [])) i (answered b) j
    unfolding witness
    witness_lem c f n k b h =
        let (_, n1, a1, h1) = and_then-answered (result (validate_reach_target base c)) _ n h in
        let (facts1, n2, a2, h2) = and_then-answered (result (resolve_facts base)) _ n1 h1 in
        let (_, n3, a3, h3) = and_then-answered (within_budget base) _ n2 h2 in
        let same =
          ok_injective (sym (result-answered (resolve_facts base) n1 n2 facts1 a2) ∙ resolved) in
        let (ls1, n4, a4, h4) =
          and_then-answered (result (literals_of p base facts1)) asked n3 h3 in
        let is_ls = ok_injective (
          sym (result-answered (literals_of p base facts1) n3 n4 ls1 a4)
          ∙ ap (literals_of p base) same
          ∙ projected) in
        (n4, k, subst (λ l. Returns (asked l) n4 (answered b) k) is_ls h4)
      where
        asked : List Formula → Run Bool
        asked literals =
            call p check base
              ((base.theory ++ (literals ++ pushed_assumptions p base.assumptions)) ++ f ∷ [])

    disambiguate_lem :
        (n k : ℕ) (a b : Bool)
        → Returns (disambiguate p check base a) n (answered b) k
        → Satisfiable asserted × (a ≡ b)
    unfolding disambiguate
    disambiguate_lem n k a b h =
        let (_, n1, a1, h1) =
          and_then-answered (check_premise_consistency p check base) (λ _. answer a) n h in
        (
          check_premise_consistency-Satisfiable n n1 a1,
          answered_injective (ap (λ x. x.0) (ok_injective h1)),
        )

    -- What a query about a target says, whichever the formula of its first call is.
    target_lem :
        (c : Text) (f : Formula) (on_model : Bool) (n k : ℕ) (b : Bool)
        → Returns
            (and_then (witness p check base c f) (λ found.
              if found then answer on_model else disambiguate p check base (not on_model)))
            n
            (answered b)
            k
        → ((b ≡ on_model) × ((m : Model) × Satisfies m asserted × (holds m f ≡ true)))
          ⊎ ((b ≡ not on_model)
              × Satisfiable asserted
              × ((m : Model) → Satisfies m asserted → holds m f ≡ false))
    target_lem c f on_model n k b h =
        let (found, n1, a1, h1) = and_then-answered (witness p check base c f) decided n h in
        let (i, j, a2) = witness_lem c f n n1 found a1 in parts found i j n1 a2 h1
      where
        decided : Bool → Run Bool
        decided found = if found then answer on_model else disambiguate p check base (not on_model)

        refuted :
            (m : Model)
            → ((l : Model) → Satisfies l (asserted ++ f ∷ []) → ⊥)
            → Satisfies m asserted
            → holds m f ≡ false
        refuted m none_such s = elim (Bool-cases (holds m f)) [
          | inl e ↦ absurd (
              none_such m (
                Satisfies-both asserted (f ∷ []) m s
                  (λ g q. elim (In-cons q) [ inl same ↦ rw same e | inr gone ↦ elim gone [ ] ])))
          | inr e ↦ e
        ]

        parts :
            (found : Bool) (i j l : ℕ)
            → Returns (call p check base (asserted ++ f ∷ [])) i (answered found) j
            → Returns (decided found) l (answered b) k
            → ((b ≡ on_model) × ((m : Model) × Satisfies m asserted × (holds m f ≡ true)))
              ⊎ ((b ≡ not on_model)
                  × Satisfiable asserted
                  × ((m : Model) → Satisfies m asserted → holds m f ≡ false))
        parts true i j l a r =
            let (m, s) = call-true p check solver base (asserted ++ f ∷ []) i j a in
            inl (
              sym (answered_injective (ap (λ x. x.0) (ok_injective r))),
              (
                m,
                Satisfies-first asserted (f ∷ []) m s,
                Satisfies-last asserted (f ∷ []) m s f head,
              ),
            )
        parts false i j l a r =
            let (s, e) = disambiguate_lem l k (not on_model) b r in
            inr (
              sym e,
              s,
              λ m t. refuted m (call-false p check solver base (asserted ++ f ∷ []) i j a) t,
            )

    -- A possible target is reached in a model of the base.
    pub possible_target-true :
        (c : Text) (n k : ℕ)
        → Returns (possible_target p check base c) n (answered true) k
        → (m : Model) × Satisfies m asserted × (m (reach_symbol p c) ≡ true)
    unfolding possible_target holds
    possible_target-true c n k h = elim (target_lem c (atom (reach_symbol p c)) true n k true h) [
      | inl (_, found) ↦ found
      | inr (e, _, _) ↦ absurd (cc)
    ]

    -- An impossible target is reached in no model of a base that has one.
    pub possible_target-false :
        (c : Text) (n k : ℕ)
        → Returns (possible_target p check base c) n (answered false) k
        → Satisfiable asserted × ((m : Model) → Satisfies m asserted → m (reach_symbol p c) ≡ false)
    unfolding possible_target holds
    possible_target-false c n k h = elim (target_lem c (atom (reach_symbol p c)) true n k false h) [
      | inl (e, _) ↦ absurd (cc)
      | inr (_, s, none_such) ↦ (s, none_such)
    ]

    -- An entailed target is reached in every model of a base that has one.
    pub entails_target-true :
        (c : Text) (n k : ℕ)
        → Returns (entails_target p check base c) n (answered true) k
        → Satisfiable asserted × ((m : Model) → Satisfies m asserted → m (reach_symbol p c) ≡ true)
    unfolding entails_target holds
    entails_target-true c n k h =
        elim (target_lem c (neg (atom (reach_symbol p c))) false n k true h) [
          | inl (e, _) ↦ absurd (cc)
          | inr (_, s, none_such) ↦ (s, λ m t. let e = none_such m t in ground arith)
        ]

    -- A target that is not entailed is missed in a model of the base.
    pub entails_target-false :
        (c : Text) (n k : ℕ)
        → Returns (entails_target p check base c) n (answered false) k
        → (m : Model) × Satisfies m asserted × (m (reach_symbol p c) ≡ false)
    unfolding entails_target holds
    entails_target-false c n k h =
        elim (target_lem c (neg (atom (reach_symbol p c))) false n k false h) [
          | inl (_, (m, s, e)) ↦ (m, s, ground arith)
          | inr (e, _, _) ↦ absurd (cc)
        ]
