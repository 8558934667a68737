-- ===== src/Examples/Directives.antt =====
-- What an inquiry about the sample asks for, with a solver that tries the only two models of its theory.
use smeme.Base.{
  ℕ, codes, ◌==◌, text_leb, sort, distinct, is_blank, mem, all, if◌then◌else◌, List, [], ◌∷◌, ◌≡◌,
  refl,
}
use smeme.Base.Result.{ok}
use smeme.Theory.Formula.{Model, Formula, holds}
use smeme.Theory.Symbols.{reach_symbol, radio_option_symbol_name, guard_symbol}
use smeme.Theory.Compile.{compile_ir_to_z3}
use smeme.Runtime.Facts.{raw_answers_to_canonical_facts, apply_canonical_facts_to_solver}
use smeme.Runtime.Assumptions.{ReasoningAssumptions, is_empty, assumption_literals}
use smeme.Runtime.Evaluate.{CheckResult, sat, unsat, conclusion_ids}
use smeme.Inquire.Types.{logical_evidence, verification_key_for}
use smeme.Inquire.Analyze.{Analysis, acquire_answer, verify_assertion, analyze_inquiry}
use smeme.Inquire.Analyze.Directive.{IsWarranted, IsAskable, analyze_inquiry-IsWarranted}
use smeme.Examples.Trees.{sample_ir, plain}
use smeme.Examples.Irs.{yes_model}
use smeme.Examples.Inquiries.{small_budget, yes_assertion}

abbrev no_model : Model
no_model s = mem s (
    codes "ir_reach_q1"
    ∷ codes "ir_radioopt_q1_No_No"
    ∷ codes "ir_g_g_000000"
    ∷ codes "ir_reach_no"
    ∷ [])

unfoldable two_models : ℕ → ℕ → List Formula → CheckResult
two_models t n fs =
    if all (holds yes_model) fs
    then sat yes_model
    else if all (holds no_model) fs
    then sat no_model
    else unsat

abbrev no_assumptions : ReasoningAssumptions
no_assumptions = record { force_reachable = []; force_unreachable = [] }

-- Without an answer, the only question of the tree is asked.
abbrev unanswered : Analysis
unanswered = record {
  directive = acquire_answer (codes "q1");
  general_sat_calls = 10;
  resolving_support_sat_calls = 0;
}

asks :
    analyze_inquiry plain two_models small_budget [] []
      (codes "artifact")
      (codes "1")
      sample_ir
      no_assumptions
    ≡ ok unanswered
unfolding analyze_inquiry two_models holds assumption_literals is_empty conclusion_ids
    logical_evidence compile_ir_to_z3 guard_symbol apply_canonical_facts_to_solver
    raw_answers_to_canonical_facts is_blank distinct sort text_leb ◌==◌ reach_symbol
    radio_option_symbol_name
asks = refl

-- The answer resolves the inquiry, so that its assertion is to be verified.
abbrev unverified : Analysis
unverified = record {
  directive =
      verify_assertion yes_assertion
        (verification_key_for yes_assertion (codes "artifact") (codes "1"));
  general_sat_calls = 7;
  resolving_support_sat_calls = 3;
}

verifies :
    analyze_inquiry plain two_models small_budget
      (yes_assertion ∷ [])
      []
      (codes "artifact")
      (codes "1")
      sample_ir
      no_assumptions
    ≡ ok unverified
unfolding analyze_inquiry two_models holds assumption_literals is_empty conclusion_ids
    logical_evidence compile_ir_to_z3 guard_symbol apply_canonical_facts_to_solver
    raw_answers_to_canonical_facts is_blank distinct sort text_leb ◌==◌ reach_symbol
    radio_option_symbol_name
verifies = refl

analyze_inquiry-IsWarranted_example :
    IsWarranted [] [] (codes "artifact") (codes "1") (IsAskable [] sample_ir) unanswered.directive
    × IsWarranted
        (yes_assertion ∷ [])
        []
        (codes "artifact")
        (codes "1")
        (IsAskable (yes_assertion ∷ []) sample_ir)
        unverified.directive
analyze_inquiry-IsWarranted_example = (
  analyze_inquiry-IsWarranted [] [] (codes "artifact") (codes "1") plain two_models small_budget
      sample_ir no_assumptions unanswered asks,
  analyze_inquiry-IsWarranted (yes_assertion ∷ []) [] (codes "artifact") (codes "1") plain
      two_models small_budget sample_ir no_assumptions unverified verifies,
)
