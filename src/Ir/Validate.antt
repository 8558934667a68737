-- ===== src/Ir/Validate.antt =====
-- `validate_ir` of smeme/reasoning/ir/validate.py. A message is a constructor that holds the values
-- which the text of the message shows. Errors come in the order in which the Python code appends
-- them; the sets `node_ids` and `guard_ids` are walked in the order in which they were filled.
pub mod Spec
pub mod Passes
pub mod Lookups
pub mod Exact
use smeme.Base.{
  ℕ, Text, ◌==◌, text_leb, sort, mem, distinct, is_blank, Bool, true, false, not, ◌||◌, ◌&&◌,
  nat_beq, if◌then◌else◌, Option, none, some, List, [], ◌∷◌, ◌++◌, map, keep, find_last, flat,
  report, is_nil, length,
}
use smeme.Ir.Types.{
  Ir, IrNode, IrEdge, Guard, IrNodeKind, question, conclusion, IrQuestionShape, radio,
  ir_format_version, default_guard_expr,
}
use smeme.Ir.Dag.{DagError, dag_structure_errors}

pub data IrError : Type 0 where
  version_mismatch : ℕ → IrError
  duplicate_node : Text → IrError
  conclusion_with_question : Text → IrError
  missing_question : Text → IrError
  not_radio : Text → Text → IrError
  empty_options : Text → IrError
  duplicate_guard : Text → IrError
  unknown_source : Text → IrError
  unknown_target : Text → IrError
  unknown_guard : Text → IrError
  unused_guard : Text → IrError
  blank_expr : IrEdge → IrError
  expr_not_offered : Text → IrEdge → IrError
  dag_error : DagError → IrError
  entry_count : List Text → IrError

-- The checks of one node's kind against its question shape.
unfoldable pub shape_errors : Text → IrNodeKind → Option IrQuestionShape → List IrError
shape_errors id conclusion none = []
shape_errors id conclusion (some q) = conclusion_with_question id ∷ []
shape_errors id question none = missing_question id ∷ []
shape_errors id question (some q) =
    report (not (q.qtype == radio)) (not_radio q.qtype id)
    ++ report (is_nil q.options) (empty_options id)

-- The loop over the nodes; `seen` is `node_ids` so far.
unfoldable pub node_errors : List Text → List IrNode → List IrError
unfolding shape_errors
node_errors seen [] = []
node_errors seen (n ∷ ns) =
    report (mem n.id seen) (duplicate_node n.id)
    ++ (shape_errors n.id n.kind n.question
        ++ node_errors (if mem n.id seen then seen else n.id ∷ seen) ns)

unfoldable pub guard_errors : List Text → List Guard → List IrError
guard_errors seen [] = []
guard_errors seen (g ∷ gs) =
    report (mem g.id seen) (duplicate_guard g.id) ++ guard_errors (g.id ∷ seen) gs

unfoldable pub node_ids : Ir → List Text
unfolding distinct
node_ids ir = distinct [] (map (λ (n : IrNode). n.id) ir.nodes)

unfoldable pub guard_ids : Ir → List Text
unfolding distinct
guard_ids ir = distinct [] (map (λ (g : Guard). g.id) ir.guards)

unfoldable pub edge_errors : Ir → IrEdge → List IrError
unfolding node_ids guard_ids
edge_errors ir e =
    report (not (mem e.source (node_ids ir))) (unknown_source e.source)
    ++ report (not (mem e.target (node_ids ir))) (unknown_target e.target)
    ++ report (not (mem e.guard_id (guard_ids ir))) (unknown_guard e.guard_id)

-- Guards that no edge refers to.
unfoldable pub unused_errors : Ir → Text → List IrError
unfolding guard_ids
unused_errors ir gid =
    report
      (not (
        mem gid (
          map (λ (e : IrEdge). e.guard_id)
            (keep (λ (e : IrEdge). mem e.guard_id (guard_ids ir)) ir.edges))))
      (unused_guard gid)

-- `nodes_by_id.get(id)` and `guards_by_id.get(id)`
unfoldable pub node_by_id : Ir → Text → Option IrNode
node_by_id ir id = find_last (λ (n : IrNode). n.id == id) ir.nodes

unfoldable pub guard_by_id : Ir → Text → Option Guard
guard_by_id ir id = find_last (λ (g : Guard). g.id == id) ir.guards

-- The label test of an edge whose source is a question with these options.
unfoldable pub label_errors : IrEdge → Text → List Text → List IrError
unfolding is_blank
label_errors e expr options =
    if is_blank expr
    then blank_expr e ∷ []
    else report (not (mem expr options)) (expr_not_offered expr e)

unfoldable pub expr_errors_at : IrEdge → Option IrNode → Option Guard → List IrError
unfolding label_errors
expr_errors_at e none _ = []
expr_errors_at e (some n) none = []
expr_errors_at e (some n) (some g) = if g.expr == default_guard_expr then [] else elim n.kind [
  | conclusion ↦ []
  | question ↦ elim n.question [ none ↦ [] | some q ↦ label_errors e g.expr q.options ]
]

unfoldable pub expr_errors : Ir → IrEdge → List IrError
unfolding expr_errors_at node_by_id guard_by_id
expr_errors ir e = expr_errors_at e (node_by_id ir e.source) (guard_by_id ir e.guard_id)

-- The ids of the nodes with no incoming edge, sorted.
unfoldable pub entry_ids : Ir → List Text
entry_ids ir = sort text_leb (
    map (λ (n : IrNode). n.id)
      (keep (λ (n : IrNode). not (mem n.id (map (λ (e : IrEdge). e.target) ir.edges))) ir.nodes))

unfoldable pub entry_errors : Ir → List IrError
unfolding entry_ids
entry_errors ir = report (not (nat_beq (length (entry_ids ir)) 1)) (entry_count (entry_ids ir))

unfoldable pub validate_ir : Ir → List IrError
unfolding node_errors guard_errors edge_errors unused_errors expr_errors entry_errors
    dag_structure_errors
validate_ir ir =
    report (not (nat_beq ir.format_version ir_format_version)) (version_mismatch ir.format_version)
    ++ (node_errors [] ir.nodes
        ++ (guard_errors [] ir.guards
            ++ (flat (edge_errors ir) ir.edges
                ++ (flat (unused_errors ir) (guard_ids ir)
                    ++ (flat (expr_errors ir) ir.edges
                        ++ (map dag_error (dag_structure_errors ir.edges (node_ids ir))
                            ++ entry_errors ir))))))

-- `ValidationReport.valid`
unfoldable pub is_valid : Ir → Bool
unfolding validate_ir
is_valid ir = is_nil (validate_ir ir)
