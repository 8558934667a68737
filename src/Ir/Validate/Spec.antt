-- ===== src/Ir/Validate/Spec.antt =====
-- What a valid `Ir` is, stated without the checks of smeme/reasoning/ir/validate.py.
use mathlib.Core.WellFounded.{WellFounded}
use smeme.Base.{
  Text, mem, Distinct, is_blank, ◌≡◌, ◌≢◌, true, false, Option, none, some, List, [], map, In,
}
use smeme.Ir.Types.{
  Ir, IrNode, IrEdge, Guard, IrNodeKind, question, conclusion, IrQuestionShape, radio,
  ir_format_version, default_guard_expr,
}
use smeme.Ir.Dag.Acyclic.{Arrow}

abbrev pub ids_of : List IrNode → List Text
ids_of = map (λ (n : IrNode). n.id)

abbrev pub guard_ids_of : List Guard → List Text
guard_ids_of = map (λ (g : Guard). g.id)

-- A conclusion carries no question; a question is a radio question with at least one option.
abbrev pub IsShaped : IrNodeKind → Option IrQuestionShape → Type 0
IsShaped conclusion none = Unit
IsShaped conclusion (some _) = ⊥
IsShaped question none = ⊥
IsShaped question (some q) = (q.qtype ≡ radio) × (q.options ≢ [])

pub record IsValidIr (ir : Ir) : Type 0 where
  pub version : ir.format_version ≡ ir_format_version
  pub nodes_distinct : Distinct (ids_of ir.nodes)
  pub guards_distinct : Distinct (guard_ids_of ir.guards)
  pub shaped : (n : IrNode) → In n ir.nodes → IsShaped n.kind n.question
  pub source_known : (e : IrEdge) → In e ir.edges → mem e.source (ids_of ir.nodes) ≡ true
  pub target_known : (e : IrEdge) → In e ir.edges → mem e.target (ids_of ir.nodes) ≡ true
  pub guard_known : (e : IrEdge) → In e ir.edges → mem e.guard_id (guard_ids_of ir.guards) ≡ true
  -- every guard is some edge's
  pub guard_used : (g : Guard) → In g ir.guards → (e : IrEdge) × In e ir.edges × (e.guard_id ≡ g.id)
  -- a guard that is not the default one, on an edge out of a question, is an option of the question
  pub offered :
      (e : IrEdge) (n : IrNode) (g : Guard) (q : IrQuestionShape)
      → In e ir.edges
      → In n ir.nodes
      → In g ir.guards
      → n.id ≡ e.source
      → g.id ≡ e.guard_id
      → n.kind ≡ question
      → n.question ≡ some q
      → g.expr ≢ default_guard_expr
      → (is_blank g.expr ≡ false) × (mem g.expr q.options ≡ true)
  pub acyclic : WellFounded (Arrow ir.edges (ids_of ir.nodes))
  -- exactly one node is no edge's target
  pub one_entry :
      (n : IrNode) × In n ir.nodes
      × (mem n.id (map (λ (e : IrEdge). e.target) ir.edges) ≡ false)
      × ((m : IrNode)
          → In m ir.nodes
          → mem m.id (map (λ (e : IrEdge). e.target) ir.edges) ≡ false
          → m ≡ n)
