-- ===== src/Inquire/Space.antt =====
-- smeme/reasoning/runtime/inquire/space.py: consistency, possible, entailed and resolved conclusions
-- over a working base. A result is the status of a query; `resolved` with its conclusion is an answer
-- `some`, `unresolved` the answer `none`.
pub mod Limits
pub mod Resolved
use smeme.Base.{
  ℕ, Text, text_leb, sort, mem, not, is_nil, true, false, Bool, if◌then◌else◌, Option, none, some,
  List, [], ◌∷◌, ◌++◌, map, keep,
}
use smeme.Ir.Types.{Ir, IrNode, question, conclusion}
use smeme.Theory.Formula.{Formula}
use smeme.Theory.Symbols.{Platform}
use smeme.Theory.Compile.{compile_ir_to_z3}
use smeme.Runtime.Assumptions.{ReasoningAssumptions}
use smeme.Runtime.Evaluate.{CheckResult, conclusion_ids}
use smeme.Runtime.Gate.{
  Run, WorkingBase, and_then, answer, check_premise_consistency, possible_target, entails_target,
}
use smeme.Inquire.Types.{Evidence}
use smeme.Inquire.Budget.{InquiryBudget}

unfoldable pub question_ids : Ir → List Text
question_ids ir = sort text_leb (
    map (λ (n : IrNode). n.id)
      (keep (λ (n : IrNode). elim n.kind [ question ↦ true | conclusion ↦ false ]) ir.nodes))

unfoldable pub unanswered_questions : Ir → Evidence → List Text
unfolding question_ids
unanswered_questions ir admitted =
    keep (λ q. not (mem q (map (λ (k, _). k) admitted))) (question_ids ir)

unfoldable pub with_admitted : WorkingBase → Evidence → WorkingBase
with_admitted base evidence = record {
  ir = base.ir;
  theory = base.theory;
  admitted = evidence;
  assumptions = base.assumptions;
  max_sat_calls = base.max_sat_calls;
  timeout_ms = base.timeout_ms;
  sat_t_established = base.sat_t_established;
}

-- `none` is the `KeyError` of the compiler.
unfoldable pub base_from :
    Ir
    → Evidence
    → ReasoningAssumptions
    → InquiryBudget
    → Option (List Formula)
    → Option WorkingBase
base_from ir evidence phi limits none = none
base_from ir evidence phi limits (some fs) = some (record {
  ir = ir;
  theory = fs;
  admitted = evidence;
  assumptions = phi;
  max_sat_calls = limits.max_sat_calls;
  timeout_ms = limits.timeout_ms;
  sat_t_established = true;
})

unfoldable pub compile_working_base :
    Platform → Ir → Evidence → ReasoningAssumptions → InquiryBudget → Option WorkingBase
unfolding base_from
compile_working_base p ir evidence phi limits =
    base_from ir evidence phi limits (compile_ir_to_z3 p ir)

-- The ids for which the query answers true.
unfoldable pub collect : (Text → Run Bool) → List Text → Run (List Text)
unfolding and_then
collect query [] = answer []
collect query (id ∷ ids) =
    and_then (query id)
      (λ yes. and_then (collect query ids) (λ rest. answer (if yes then id ∷ rest else rest)))

module _ (p : Platform) (check : ℕ → ℕ → List Formula → CheckResult) where
  unfoldable pub check_cons : WorkingBase → Run Unit
  unfolding check_premise_consistency
  check_cons base = check_premise_consistency p check base

  unfoldable pub possible_conclusions : WorkingBase → Run (List Text)
  unfolding and_then check_cons collect possible_target
  possible_conclusions base =
      and_then (check_cons base)
        (λ _. collect (possible_target p check base) (conclusion_ids base.ir))

  unfoldable pub entailed_conclusions : WorkingBase → Run (List Text)
  unfolding and_then check_cons collect entails_target
  entailed_conclusions base =
      and_then (check_cons base)
        (λ _. collect (entails_target p check base) (conclusion_ids base.ir))

  -- The loop that ends at the second possible conclusion; `found` has one item at most.
  unfoldable pub first_two : WorkingBase → List Text → List Text → Run (List Text)
  unfolding and_then possible_target
  first_two base found [] = answer found
  first_two base found (id ∷ ids) = and_then (possible_target p check base id) (λ possible.
      if possible
      then (if is_nil found then first_two base (id ∷ []) ids else answer (found ++ id ∷ []))
      else first_two base found ids)

  unfoldable pub if_entailed : WorkingBase → List Text → Run (Option Text)
  unfolding and_then entails_target
  if_entailed base (only ∷ []) =
      and_then (entails_target p check base only)
        (λ entailed. answer (if entailed then some only else none))
  if_entailed base _ = answer none

  unfoldable pub resolved_conclusion : WorkingBase → Run (Option Text)
  unfolding and_then check_cons first_two if_entailed
  resolved_conclusion base =
      and_then (check_cons base) (λ _.
        and_then (first_two base [] (conclusion_ids base.ir)) (λ found. if_entailed base found))
