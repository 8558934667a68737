-- ===== src/Theory/Compile.antt =====
-- `compile_ir_to_z3` of smeme/reasoning/theory/compile_to_z3.py: the assertions, in their order.
-- The source requires a valid Ir and does not check it; a missing key is a KeyError, here `none`.
use smeme.Base.{
  Text, ◌==◌, text_leb, sort, mem, distinct, Option, none, some, List, [], ◌∷◌, ◌++◌, map, keep,
  flat, report, if◌then◌else◌, ◌&&◌,
}
use smeme.Ir.Types.{Ir, IrNode, IrEdge, Guard, default_guard_expr}
use smeme.Theory.Formula.{Formula, atom, neg, conj, iff, or_all}
use smeme.Theory.Symbols.{Platform, reach_symbol, guard_symbol}
use smeme.Theory.Guards.{◌>>=◌, collect, apply_radio_guard_semantics}

unfoldable pub incoming : Ir → Text → List IrEdge
incoming ir id = keep (λ (e : IrEdge). e.target == id) ir.edges

-- `sorted(reach.keys())`
abbrev pub reached_ids : Ir → List Text
reached_ids ir = sort text_leb (distinct [] (map (λ (n : IrNode). n.id) ir.nodes))

module _ (p : Platform) where
  -- A default guard is asserted.
  unfoldable pub default_guard : Guard → List Formula
  default_guard g = report (g.expr == default_guard_expr) (atom (guard_symbol p g.id))

  -- `And(reach[e.source], guard_bools[e.guard_id])`
  unfoldable pub edge_term : Ir → IrEdge → Option Formula
  edge_term ir e =
      if mem e.source (map (λ (n : IrNode). n.id) ir.nodes)
        && mem e.guard_id (map (λ (g : Guard). g.id) ir.guards)
      then some (conj (atom (reach_symbol p e.source)) (atom (guard_symbol p e.guard_id)))
      else none

  unfoldable pub edge_terms : Ir → List IrEdge → Option (List Formula)
  unfolding edge_term
  edge_terms ir [] = some []
  edge_terms ir (e ∷ es) = do t ← edge_term ir e; ts ← edge_terms ir es; some (t ∷ ts)

  -- `reach[nid] == Or(*terms)`, or no assertion of support at all.
  unfoldable pub reach_equation : Text → List Formula → Formula
  unfolding or_all
  reach_equation id [] = neg (atom (reach_symbol p id))
  reach_equation id (t ∷ ts) = iff (atom (reach_symbol p id)) (or_all t ts)

  unfoldable pub reach_assertion : Ir → Text → Option (List Formula)
  unfolding incoming edge_terms reach_equation
  reach_assertion ir id =
      if mem id (map (λ (e : IrEdge). e.target) ir.edges)
      then (do ts ← edge_terms ir (incoming ir id); some (reach_equation id ts ∷ []))
      else some (atom (reach_symbol p id) ∷ [])

  unfoldable pub compile_ir_to_z3 : Ir → Option (List Formula)
  unfolding default_guard apply_radio_guard_semantics reach_assertion
  compile_ir_to_z3 ir = do
    radios ← apply_radio_guard_semantics p ir
    reaches ← collect (reach_assertion ir) (reached_ids ir)
    some (flat default_guard ir.guards ++ (radios ++ reaches))
