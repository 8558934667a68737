-- ===== src/Runtime/Evaluate.antt =====
-- smeme/reasoning/runtime/evaluate.py. The solver is a parameter: `check` is a call of
-- `solver.check()` on what has been asserted, with `solver.model()` where it answers sat. The audit
-- record and the explanation's texts are left out; each verdict keeps its status, its reason, the
-- conclusion it names, the true conclusions, the triggered edges and the model's values.
use smeme.Base.{
  Text, ◌==◌, text_leb, sort, distinct, mem, Bool, true, false, not, ◌&&◌, Option, none, some, List,
  [], ◌∷◌, ◌++◌, map, keep, if◌then◌else◌,
}
use smeme.Base.Result.{Result, ok, err, raise_if, ◌>>=◌, ◌>>◌}
use smeme.Ir.Types.{Ir, IrNode, IrEdge, Guard, question, conclusion}
use smeme.Ir.Validate.{is_valid}
use smeme.Theory.Formula.{Formula, Model, atom, neg}
use smeme.Theory.Symbols.{Platform, reach_symbol, guard_symbol}
use smeme.Theory.Compile.{compile_ir_to_z3}
use smeme.Runtime.Input.{RawAnswers, InputError, validate_raw_answers_for_ir}
use smeme.Runtime.Facts.{
  CanonicalFactRecord, FactError, raw_answers_to_canonical_facts, apply_canonical_facts_to_solver,
}
use smeme.Runtime.Assumptions.{
  ReasoningAssumptions, AssumptionsError, is_empty, validate_assumptions, assumption_literals,
}

-- An answer of the solver.
pub data CheckResult : Type 0 where
  sat : Model → CheckResult
  unsat unknown : CheckResult

pub data OutcomeLiteral : Type 0 where
  sat_unique sat_ambiguous no_model under_determined : OutcomeLiteral

pub data Reason : Type 0 where
  solver_unknown z3_unsat assumptions_unsat : Reason

pub record EvaluationResult : Type 0 where
  pub status : OutcomeLiteral
  pub reason : Option Reason
  pub true_conclusion_id : Option Text
  pub true_conclusions : List Text
  pub triggered_edges : List IrEdge
  pub model_atoms : List (Text × Bool)

pub data EvaluationError : Type 0 where
  assumptions_error : AssumptionsError → EvaluationError
  invalid_ir key_error : EvaluationError
  fact_error : FactError → EvaluationError
  input_error : InputError → EvaluationError

-- An error of one part, as an error of the evaluation.
unfoldable pub lift : {E A : Type 0} → (E → EvaluationError) → Result E A → Result EvaluationError A
lift f (ok a) = ok a
lift f (err e) = err (f e)

unfoldable pub or_key_error : {A : Type 0} → Option A → Result EvaluationError A
or_key_error none = err key_error
or_key_error (some a) = ok a

-- A verdict without a model; `model_atoms=None` is the empty list.
unfoldable pub refused : Reason → EvaluationResult
refused reason = record {
  status = no_model;
  reason = some reason;
  true_conclusion_id = none;
  true_conclusions = [];
  triggered_edges = [];
  model_atoms = [];
}

unfoldable pub conclusion_ids : Ir → List Text
conclusion_ids ir = sort text_leb (
    map (λ (n : IrNode). n.id)
      (keep (λ (n : IrNode). elim n.kind [ conclusion ↦ true | question ↦ false ]) ir.nodes))

-- `<=` of the tuples `(source, target, guard_id)`
unfoldable pub fired_leb : IrEdge → IrEdge → Bool
fired_leb a b =
    if not (a.source == b.source)
    then text_leb a.source b.source
    else if not (a.target == b.target)
    then text_leb a.target b.target
    else text_leb a.guard_id b.guard_id

module _ (p : Platform) where
  -- The test of `_triggered_edges_ir`.
  unfoldable pub is_triggered : Ir → Model → IrEdge → Bool
  is_triggered ir m e =
      mem e.guard_id (map (λ (g : Guard). g.id) ir.guards)
      && mem e.source (map (λ (n : IrNode). n.id) ir.nodes)
      && mem e.target (map (λ (n : IrNode). n.id) ir.nodes)
      && m (reach_symbol p e.source)
      && m (guard_symbol p e.guard_id)
      && m (reach_symbol p e.target)

  unfoldable pub triggered_edges_ir : Ir → Model → List IrEdge
  unfolding is_triggered fired_leb
  triggered_edges_ir ir m = sort fired_leb (keep (is_triggered ir m) ir.edges)

  -- The values by name; a guard hides a node of the same id.
  unfoldable pub model_bool_assignments : Ir → Model → List (Text × Bool)
  unfolding distinct
  model_bool_assignments ir m =
      let guards = map (λ (g : Guard). g.id) ir.guards in
      map (λ n. (n, if mem n guards then m (guard_symbol p n) else m (reach_symbol p n)))
        (sort text_leb (distinct [] (map (λ (n : IrNode). n.id) ir.nodes ++ guards)))

  unfoldable pub true_conclusions_of : Ir → Model → List Text
  unfolding conclusion_ids
  true_conclusions_of ir m = keep (λ c. m (reach_symbol p c)) (conclusion_ids ir)

  -- A verdict from a model.
  unfoldable pub found : Ir → Model → OutcomeLiteral → Option Text → EvaluationResult
  unfolding triggered_edges_ir model_bool_assignments true_conclusions_of
  found ir m status named = record {
    status = status;
    reason = none;
    true_conclusion_id = named;
    true_conclusions = true_conclusions_of ir m;
    triggered_edges = triggered_edges_ir ir m;
    model_atoms = model_bool_assignments ir m;
  }

  -- The verdict on the one conclusion of a model: is there another model without it?
  unfoldable pub name_conclusion : Ir → Model → Text → CheckResult → EvaluationResult
  unfolding found
  name_conclusion ir m only (sat _) = found ir m sat_ambiguous (some only)
  name_conclusion ir m only unsat = found ir m sat_unique (some only)
  name_conclusion ir m only unknown = found ir m sat_unique (some only)

  module _ (check : List Formula → CheckResult) where
    -- From the true conclusions of a model; `base` is what has been asserted.
    unfoldable pub conclude : Ir → List Formula → Model → List Text → EvaluationResult
    unfolding name_conclusion
    conclude ir base m [] = found ir m under_determined none
    conclude ir base m (only ∷ []) =
        name_conclusion ir m only (check (base ++ neg (atom (reach_symbol p only)) ∷ []))
    conclude ir base m (_ ∷ _ ∷ _) = found ir m sat_ambiguous none

    unfoldable pub with_assumptions : Ir → List Formula → CheckResult → EvaluationResult
    unfolding conclude refused true_conclusions_of
    with_assumptions ir base (sat m) = conclude ir base m (true_conclusions_of ir m)
    with_assumptions ir base unsat = refused assumptions_unsat
    with_assumptions ir base unknown = refused solver_unknown

    -- The ladder, from the check of the theory with the facts.
    unfoldable pub ladder :
        Ir → ReasoningAssumptions → List Formula → CheckResult → EvaluationResult
    unfolding with_assumptions assumption_literals
    ladder ir phi base unsat = refused z3_unsat
    ladder ir phi base unknown = refused solver_unknown
    ladder ir phi base (sat m) =
        if is_empty phi
        then conclude ir base m (true_conclusions_of ir m)
        else with_assumptions ir (base ++ assumption_literals p phi)
            (check (base ++ assumption_literals p phi))

    unfoldable pub evaluate_with_canonical_facts :
        Ir
        → List CanonicalFactRecord
        → Bool
        → ReasoningAssumptions
        → Result EvaluationError EvaluationResult
    unfolding lift or_key_error ladder
    evaluate_with_canonical_facts ir facts skip_ir_validation phi = do
      lift assumptions_error (validate_assumptions ir phi)
      raise_if (not skip_ir_validation && not (is_valid ir)) invalid_ir
      theory ← or_key_error (compile_ir_to_z3 p ir)
      literals ← lift fact_error (apply_canonical_facts_to_solver p ir facts)
      ok (ladder ir phi (theory ++ literals) (check (theory ++ literals)))

    unfoldable pub evaluate_reasoning :
        Ir → RawAnswers → Bool → ReasoningAssumptions → Result EvaluationError EvaluationResult
    unfolding evaluate_with_canonical_facts
    evaluate_reasoning ir raw_answers skip_ir_validation phi = do
      raise_if (not skip_ir_validation && not (is_valid ir)) invalid_ir
      lift input_error (validate_raw_answers_for_ir ir raw_answers)
      facts ← lift fact_error (raw_answers_to_canonical_facts ir raw_answers)
      evaluate_with_canonical_facts ir facts true phi
