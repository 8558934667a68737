-- ===== src/Examples/Evaluations.antt =====
-- The evaluation of the sample with a small solver: it refutes an atom beside its negation, and
-- tries one model.
use smeme.Base.{
  codes, ◌==◌, ==→eq, text_leb, sort, distinct, is_blank, all, any, any→In, all→In, Bool, true,
  false, Bool-cases, if◌then◌else◌, none, some, List, [], ◌∷◌, ◌++◌, ◌≡◌, refl, inl, inr, subst,
  sym,
}
use smeme.Base.Result.{ok}
use smeme.Theory.Formula.{
  Formula, Model, atom, neg, conj, disj, implies, iff, exactly_one, holds, Satisfies,
}
use smeme.Theory.Symbols.{reach_symbol, guard_symbol, radio_option_symbol_name}
use smeme.Theory.Reach.{Reached}
use smeme.Runtime.Input.{text, RawAnswers}
use smeme.Runtime.Facts.{
  CanonicalFactRecord, explicit, raw_answers_to_canonical_facts, apply_canonical_facts_to_solver,
}
use smeme.Runtime.Assumptions.{
  ReasoningAssumptions, assumption_literals, validate_assumptions, is_empty,
}
use smeme.Runtime.Evaluate.{
  CheckResult, sat, unsat, unknown, EvaluationResult, sat_unique, z3_unsat, refused,
  true_conclusions_of, evaluate_with_canonical_facts,
}
use smeme.Runtime.Sound.{IsSolver, asserted, evaluate_unique_forced, evaluate_unsat_none}
use smeme.Theory.Compile.{compile_ir_to_z3}
use smeme.Examples.Trees.{sample_ir, plain, edge}
use smeme.Examples.Irs.{sample_valid, sample_theory, compile-sample, yes_model, yes_Satisfies}

abbrev refutes : Formula → Formula → Bool
refutes (neg (atom a)) (atom b) = a == b
refutes _ _ = false

unfoldable pub small_check : List Formula → CheckResult
small_check fs =
    if any (λ f. any (refutes f) fs) fs
    then unsat
    else if all (holds yes_model) fs
    then sat yes_model
    else unknown

refutes-holds :
    (m : Model) (f g : Formula) → refutes f g ≡ true → holds m f ≡ true → holds m g ≡ true → ⊥
unfolding holds
refutes-holds m (neg (atom a)) (atom b) e x y =
    let same : a ≡ b = ==→eq a b e in cc (subst (λ z. m z ≡ true) (sym same) y)
refutes-holds m (atom _) g e x y = cc
refutes-holds m (neg (atom a)) (neg _) e x y = cc
refutes-holds m (neg (atom a)) (conj _ _) e x y = cc
refutes-holds m (neg (atom a)) (disj _ _) e x y = cc
refutes-holds m (neg (atom a)) (implies _ _) e x y = cc
refutes-holds m (neg (atom a)) (iff _ _) e x y = cc
refutes-holds m (neg (atom a)) (exactly_one _) e x y = cc
refutes-holds m (neg (neg _)) g e x y = cc
refutes-holds m (neg (conj _ _)) g e x y = cc
refutes-holds m (neg (disj _ _)) g e x y = cc
refutes-holds m (neg (implies _ _)) g e x y = cc
refutes-holds m (neg (iff _ _)) g e x y = cc
refutes-holds m (neg (exactly_one _)) g e x y = cc
refutes-holds m (conj _ _) g e x y = cc
refutes-holds m (disj _ _) g e x y = cc
refutes-holds m (implies _ _) g e x y = cc
refutes-holds m (iff _ _) g e x y = cc
refutes-holds m (exactly_one _) g e x y = cc

sat-injective : {m n : Model} → sat m ≡ sat n → m ≡ n
sat-injective h = cc

pub small_check-IsSolver : IsSolver small_check
unfolding small_check
small_check-IsSolver = record {
  sat_holds = λ fs m h f i. elim (Bool-cases (any (λ f. any (refutes f) fs) fs)) [
    | inl e ↦ absurd (cc (rw e at h))
    | inr e ↦ elim (Bool-cases (all (holds yes_model) fs)) [
      | inl a ↦
          let same : yes_model ≡ m = sat-injective (rw (e, a) at h) in
          subst (λ n. holds n f ≡ true) same (all→In (holds yes_model) a i)
      | inr a ↦ absurd (cc (rw (e, a) at h))
    ]
  ];
  unsat_none = λ fs m h s. elim (Bool-cases (any (λ f. any (refutes f) fs) fs)) [
    | inl e ↦
        let (f, i, t) = any→In (λ f. any (refutes f) fs) fs e in
        let (g, j, r) = any→In (refutes f) fs t in refutes-holds m f g r (s f i) (s g j)
    | inr e ↦ elim (Bool-cases (all (holds yes_model) fs)) [
      | inl a ↦ cc (rw (e, a) at h)
      | inr a ↦ cc (rw (e, a) at h)
    ]
  ];
}

abbrev pub answered : RawAnswers
answered = (codes "q1", text (codes "Yes")) ∷ []

abbrev pub yes_facts : List CanonicalFactRecord
yes_facts =
    record {
      question_id = codes "q1";
      value = true;
      confidence = explicit;
      option_label = some (codes "Yes");
    }
    ∷ record {
      question_id = codes "q1";
      value = false;
      confidence = explicit;
      option_label = some (codes "No");
    }
    ∷ []

pub answers_give_facts : raw_answers_to_canonical_facts sample_ir answered ≡ ok yes_facts
unfolding raw_answers_to_canonical_facts is_blank ◌==◌
answers_give_facts = refl

abbrev pub yes_literals : List Formula
yes_literals =
    atom (codes "ir_radioopt_q1_Yes_Yes") ∷ neg (atom (codes "ir_radioopt_q1_No_No")) ∷ []

pub facts-literals : apply_canonical_facts_to_solver plain sample_ir yes_facts ≡ ok yes_literals
unfolding apply_canonical_facts_to_solver radio_option_symbol_name ◌==◌
facts-literals = refl

abbrev pub force_ok : ReasoningAssumptions
force_ok = record { force_reachable = codes "ok" ∷ []; force_unreachable = [] }

abbrev yes_result : EvaluationResult
yes_result = record {
  status = sat_unique;
  reason = none;
  true_conclusion_id = some (codes "ok");
  true_conclusions = codes "ok" ∷ [];
  triggered_edges = edge (codes "q1") (codes "ok") (codes "g_000001") ∷ [];
  model_atoms =
      (codes "g_000000", false)
      ∷ (codes "g_000001", true)
      ∷ (codes "no", false)
      ∷ (codes "ok", true)
      ∷ (codes "q1", true)
      ∷ [];
}

yes_verdict :
    evaluate_with_canonical_facts plain small_check sample_ir yes_facts true force_ok
    ≡ ok yes_result
unfolding evaluate_with_canonical_facts small_check validate_assumptions holds compile_ir_to_z3
    apply_canonical_facts_to_solver assumption_literals distinct sort text_leb ◌==◌ reach_symbol
    guard_symbol radio_option_symbol_name true_conclusions_of
yes_verdict = refl

last_check-unsat :
    small_check (
      asserted plain (sample_theory ++ yes_literals) force_ok
      ++ neg (atom (reach_symbol plain (codes "ok"))) ∷ [])
    ≡ unsat
unfolding small_check is_empty assumption_literals distinct sort text_leb ◌==◌ reach_symbol
last_check-unsat = refl

yes_literals-Satisfies : Satisfies yes_model yes_literals
unfolding holds ◌==◌
yes_literals-Satisfies f i = all→In (holds yes_model) refl i

force_ok-Satisfies : Satisfies yes_model (assumption_literals plain force_ok)
unfolding holds ◌==◌ assumption_literals distinct sort text_leb reach_symbol
force_ok-Satisfies f i = all→In (holds yes_model) refl i

evaluate_unique_forced_example : Reached plain sample_ir yes_model (codes "ok")
evaluate_unique_forced_example =
    evaluate_unique_forced plain small_check small_check-IsSolver sample_ir yes_facts force_ok
      sample_theory yes_literals compile-sample facts-literals true yes_result (codes "ok")
      yes_model sample_valid yes_verdict refl refl (λ h. cc (h, last_check-unsat)) yes_Satisfies
      yes_literals-Satisfies force_ok-Satisfies

-- Facts that contradict one another.
abbrev torn_facts : List CanonicalFactRecord
torn_facts =
    record {
      question_id = codes "q1";
      value = true;
      confidence = explicit;
      option_label = some (codes "Yes");
    }
    ∷ record {
      question_id = codes "q1";
      value = false;
      confidence = explicit;
      option_label = some (codes "Yes");
    }
    ∷ []

abbrev torn_literals : List Formula
torn_literals =
    atom (codes "ir_radioopt_q1_Yes_Yes") ∷ neg (atom (codes "ir_radioopt_q1_Yes_Yes")) ∷ []

torn-literals : apply_canonical_facts_to_solver plain sample_ir torn_facts ≡ ok torn_literals
unfolding apply_canonical_facts_to_solver radio_option_symbol_name ◌==◌
torn-literals = refl

abbrev no_assumptions : ReasoningAssumptions
no_assumptions = record { force_reachable = []; force_unreachable = [] }

torn_result : EvaluationResult
torn_result = refused z3_unsat

torn_verdict :
    evaluate_with_canonical_facts plain small_check sample_ir torn_facts true no_assumptions
    ≡ ok torn_result
unfolding evaluate_with_canonical_facts torn_result small_check validate_assumptions holds
    compile_ir_to_z3 apply_canonical_facts_to_solver assumption_literals distinct sort text_leb ◌==◌
    reach_symbol guard_symbol radio_option_symbol_name true_conclusions_of
torn_verdict = refl

torn_reason : torn_result.reason ≡ some z3_unsat
unfolding torn_result refused
torn_reason = refl

evaluate_unsat_none_example :
    ¬ (Satisfies yes_model sample_theory × Satisfies yes_model torn_literals)
evaluate_unsat_none_example =
    evaluate_unsat_none plain small_check small_check-IsSolver sample_ir torn_facts no_assumptions
      sample_theory torn_literals compile-sample torn-literals true torn_result yes_model
      torn_verdict torn_reason
