-- ===== src/Examples/Inquiries.antt =====
-- Queries about the sample with the small solver.
use smeme.Base.{
  ℕ, ◌≤◌, Text, codes, ◌==◌, text_leb, sort, distinct, is_blank, true, Option, none, some, List, [],
  ◌∷◌, ◌≡◌, ◌↔◌, refl,
}
use smeme.Base.Result.{ok}
use smeme.Theory.Formula.{Formula, holds}
use smeme.Theory.Symbols.{reach_symbol, radio_option_symbol_name}
use smeme.Runtime.Facts.{raw_answers_to_canonical_facts, apply_canonical_facts_to_solver}
use smeme.Runtime.Assumptions.{is_empty, assumption_literals}
use smeme.Runtime.Evaluate.{CheckResult, conclusion_ids}
use smeme.Runtime.Gate.{WorkingBase, answered, stopped, budget, resolve_facts, literals_of}
use smeme.Runtime.Gate.Models.{asserted_by}
use smeme.Theory.Symbols.{guard_symbol}
use smeme.Theory.Compile.{compile_ir_to_z3}
use smeme.Runtime.Gate.{timeout}
use smeme.Inquire.Types.{AdmittedAssertion, logical_evidence}
use smeme.Inquire.Budget.{InquiryBudget}
use smeme.Inquire.Analyze.{Analysis, stop, resolving_support_incomplete, analyze_inquiry}
use smeme.Inquire.Analyze.Bounded.{analyze_inquiry_bounded}
use smeme.Inquire.Space.{resolved_conclusion}
use smeme.Inquire.Space.Resolved.{IsResolved, resolved_conclusion-IsResolved}
use smeme.Examples.Trees.{sample_ir, plain}
use smeme.Examples.Irs.{sample_valid, sample_theory, yes_model, yes_Satisfies}
use smeme.Examples.Evaluations.{small_check, small_check-IsSolver, yes_facts, yes_literals}

abbrev solver : ℕ → ℕ → List Formula → CheckResult
solver t n = small_check

-- The tree says "ok" to "Yes", and the assumptions spell it out for the small solver.
abbrev answered_yes : WorkingBase
answered_yes = record {
  ir = sample_ir;
  theory = sample_theory;
  admitted = (codes "q1", codes "Yes") ∷ [];
  assumptions = record { force_reachable = codes "ok" ∷ []; force_unreachable = codes "no" ∷ [] };
  max_sat_calls = 20;
  timeout_ms = 5000;
  sat_t_established = true;
}

resolves_ok : resolved_conclusion plain solver answered_yes 0 ≡ ok (answered (some (codes "ok")), 9)
unfolding resolved_conclusion small_check holds assumption_literals is_empty conclusion_ids
    apply_canonical_facts_to_solver raw_answers_to_canonical_facts is_blank distinct sort text_leb
    ◌==◌ reach_symbol radio_option_symbol_name
resolves_ok = refl

-- Two calls of the solver are not enough.
runs_short :
    resolved_conclusion plain solver (record answered_yes { max_sat_calls = 2 }) 0
    ≡ ok (stopped budget, 2)
unfolding resolved_conclusion small_check holds assumption_literals is_empty conclusion_ids
    apply_canonical_facts_to_solver raw_answers_to_canonical_facts is_blank distinct sort text_leb
    ◌==◌ reach_symbol radio_option_symbol_name
runs_short = refl

yes_resolved : resolve_facts answered_yes ≡ ok yes_facts
unfolding resolve_facts raw_answers_to_canonical_facts is_blank ◌==◌
yes_resolved = refl

yes_projected : literals_of plain answered_yes yes_facts ≡ ok yes_literals
unfolding literals_of apply_canonical_facts_to_solver radio_option_symbol_name ◌==◌
yes_projected = refl

resolved_conclusion-IsResolved_example :
    (◌≡◌ {A = Option Text} (some (codes "ok")) (some (codes "ok")))
    ↔ IsResolved plain sample_ir (asserted_by plain answered_yes yes_literals) (codes "ok")
resolved_conclusion-IsResolved_example =
    resolved_conclusion-IsResolved plain solver (λ t n. small_check-IsSolver) answered_yes yes_facts
      yes_literals yes_resolved yes_projected (λ e. (yes_model, yes_Satisfies)) 0 9
      (some (codes "ok")) (codes "ok") sample_valid.nodes_distinct resolves_ok

abbrev pub small_budget : InquiryBudget
small_budget = record {
  max_sat_calls = 20;
  timeout_ms = 5000;
  max_residual_sat_calls = none;
  max_resolving_support_sat_calls = 10;
  resolving_support_timeout_ms = 5000;
}

abbrev pub yes_assertion : AdmittedAssertion
yes_assertion = record { question_id = codes "q1"; option = codes "Yes"; provenance_id = codes "p" }

-- The small solver does not know whether "ok" follows without the answer.
abbrev unsupported : Analysis
unsupported = record {
  directive = stop resolving_support_incomplete none (some timeout);
  general_sat_calls = 11;
  resolving_support_sat_calls = 1;
}

analyzes_yes :
    analyze_inquiry plain solver small_budget
      (yes_assertion ∷ [])
      []
      (codes "artifact")
      (codes "1")
      sample_ir
      answered_yes.assumptions
    ≡ ok unsupported
unfolding analyze_inquiry small_check holds assumption_literals is_empty conclusion_ids
    logical_evidence compile_ir_to_z3 guard_symbol apply_canonical_facts_to_solver
    raw_answers_to_canonical_facts is_blank distinct sort text_leb ◌==◌ reach_symbol
    radio_option_symbol_name
analyzes_yes = refl

analyze_inquiry_bounded_example : (11 ≤ 20) × (1 ≤ 10)
analyze_inquiry_bounded_example =
    analyze_inquiry_bounded plain solver small_budget (yes_assertion ∷ []) [] (codes "artifact")
      (codes "1") sample_ir answered_yes.assumptions unsupported analyzes_yes
