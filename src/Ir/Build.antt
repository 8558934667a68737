-- ===== src/Ir/Build.antt =====
-- smeme/reasoning/ir/dt_graph_to_ir.py: the Ir of an authored graph. A `ValueError` is a constructor
-- with the node that its message names.
use smeme.Base.{
  true, false, ℕ, zero, suc, ◌+◌, ◌/◌, ◌%◌, Text, codes, ◌==◌, text_leb, sort, distinct, strip,
  is_nil, ltb, Bool, not, if◌then◌else◌, Option, none, some, List, [], ◌∷◌, ◌++◌,
}
use smeme.Base.Result.{Result, ok, err, raise_if, ◌>>=◌, ◌>>◌}
use smeme.Tree.Types.{DtGraph, GraphEdge, QuestionData}
use smeme.Tree.Queries.{node_ids, get_node, is_question, question_data}
use smeme.Ir.Types.{
  Ir, IrNode, IrEdge, Guard, IrNodeKind, question, conclusion, IrQuestionShape, radio,
  ir_format_version,
}

pub data BuildError : Type 0 where
  unknown_node expected_question missing_data unsupported_type no_option : Text → BuildError

unfoldable pub node_kind : DtGraph → Text → Result BuildError IrNodeKind
unfolding get_node is_question
node_kind g id = elim (get_node g id) [
  | none ↦ err (unknown_node id)
  | some n ↦ if is_question n then ok question else ok conclusion
]

-- The tests of a question's data.
unfoldable pub shape_of : Text → Option QuestionData → Result BuildError IrQuestionShape
shape_of id none = err (missing_data id)
shape_of id (some qd) = do
  raise_if (not (qd.type == radio)) (unsupported_type id)
  raise_if (is_nil qd.options) (no_option id)
  ok (record { qtype = radio; options = qd.options })

unfoldable pub question_shape : DtGraph → Text → Result BuildError IrQuestionShape
unfolding get_node is_question question_data shape_of
question_shape g id = elim (get_node g id) [
  | none ↦ err (expected_question id)
  | some n ↦ (do
    raise_if (not (is_question n)) (expected_question id)
    shape_of id (question_data n))
]

unfoldable pub node_of_kind : DtGraph → Text → IrNodeKind → Result BuildError IrNode
unfolding question_shape
node_of_kind g id conclusion = ok (record { id = id; kind = conclusion; question = none })
node_of_kind g id question = do
  q ← question_shape g id
  ok (record { id = id; kind = question; question = some q })

unfoldable pub ir_node : DtGraph → Text → Result BuildError IrNode
unfolding node_kind node_of_kind
ir_node g id = do kind ← node_kind g id; node_of_kind g id kind

unfoldable pub ir_nodes : DtGraph → List Text → Result BuildError (List IrNode)
unfolding ir_node
ir_nodes g [] = ok []
ir_nodes g (id ∷ ids) = do n ← ir_node g id; ns ← ir_nodes g ids; ok (n ∷ ns)

-- `(edge.condition or "").strip()`; what is left empty is `DEFAULT_GUARD_EXPR`.
unfoldable pub edge_expr : GraphEdge → Text
unfolding strip
edge_expr e = elim e.condition [ none ↦ [] | some c ↦ strip c ]

-- `<=` of the tuples `(source, target, expr)`.
unfoldable pub edge_leb : GraphEdge → GraphEdge → Bool
unfolding edge_expr
edge_leb a b =
    if not (a.source == b.source)
    then text_leb a.source b.source
    else if not (a.target == b.target)
    then text_leb a.target b.target
    else text_leb (edge_expr a) (edge_expr b)

-- The last `w` decimal digits of a number, and how many it has from `w` on. A number has at most as
-- many digits as its value, and one more.
unfoldable pub decimal : ℕ → ℕ → Text
decimal zero n = []
decimal (suc w) n = decimal w (n / 10) ++ (48 + n % 10) ∷ []

unfoldable pub digit_count : ℕ → ℕ → ℕ
digit_count zero n = 1
digit_count (suc fuel) n = elim (ltb n 10) [ true ↦ 1 | false ↦ suc (digit_count fuel (n / 10)) ]

-- `f"g_{i:06d}"`
unfoldable pub numbered_guard : ℕ → Text
unfolding decimal digit_count
numbered_guard i = codes "g_" ++ decimal (if ltb i 1000000 then 6 else digit_count i i) i

unfoldable pub numbered_guards : ℕ → List GraphEdge → List Guard
unfolding numbered_guard edge_expr
numbered_guards i [] = []
numbered_guards i (e ∷ es) =
    record { id = numbered_guard i; expr = edge_expr e } ∷ numbered_guards (suc i) es

unfoldable pub numbered_edges : ℕ → List GraphEdge → List IrEdge
unfolding numbered_guard
numbered_edges i [] = []
numbered_edges i (e ∷ es) =
    record { source = e.source; target = e.target; guard_id = numbered_guard i }
    ∷ numbered_edges (suc i) es

unfoldable pub compile_dt_graph_to_ir : DtGraph → Result BuildError Ir
unfolding ir_nodes edge_leb numbered_guards numbered_edges distinct
compile_dt_graph_to_ir g = do
  nodes ← ir_nodes g (sort text_leb (distinct [] (node_ids g)))
  ok (record {
    format_version = ir_format_version;
    nodes = nodes;
    edges = numbered_edges 0 (sort edge_leb g.edges);
    guards = numbered_guards 0 (sort edge_leb g.edges);
  })
