-- ===== src/Editor/Edges.antt =====
-- The edge operations of smeme/decision_tree/editor/operations.py.
use smeme.Base.{
  Text, ◌==◌, mem, strip, is_nil, Bool, true, false, not, ◌&&◌, Option, none, some, [], ◌∷◌, ◌++◌,
  keep, any, if◌then◌else◌,
}
use smeme.Base.Result.{Result, ok, raise_if, ◌>>=◌, ◌>>◌}
use smeme.Tree.Types.{
  DtGraph, GraphEdge, GraphError, source_not_found, target_not_found, edge_exists, edge_not_found,
  make_edge,
}
use smeme.Tree.Queries.{node_ids}
use smeme.Editor.Nodes.{replace_first}

-- `==` of two optional conditions
unfoldable pub same_condition : Option Text → Option Text → Bool
same_condition none none = true
same_condition (some a) (some b) = a == b
same_condition _ _ = false

-- `c.strip() if c and c.strip() else None`
unfoldable pub normalize : Option Text → Option Text
unfolding strip
normalize none = none
normalize (some c) = if is_nil (strip c) then none else some (strip c)

unfoldable pub is_edge : Text → Text → Option Text → GraphEdge → Bool
unfolding same_condition
is_edge source target condition e =
    e.source == source && e.target == target && same_condition e.condition condition

unfoldable pub create_edge : DtGraph → Text → Text → Option Text → Result GraphError DtGraph
unfolding is_edge
create_edge g source target condition = do
  raise_if (not (mem source (node_ids g))) (source_not_found source)
  raise_if (not (mem target (node_ids g))) (target_not_found target)
  raise_if (any (is_edge source target condition) g.edges) (edge_exists source target condition)
  e ← make_edge source target condition
  ok (record g { edges = g.edges ++ e ∷ [] })

-- `edge_matches`: the edge's own condition is normalized too.
unfoldable pub edge_matches : Text → Text → Option Text → GraphEdge → Bool
unfolding same_condition normalize
edge_matches source target condition e =
    e.source == source
    && e.target == target
    && same_condition (normalize e.condition) (normalize condition)

unfoldable pub update_edge :
    DtGraph → Text → Text → Text → Option Text → Option Text → Result GraphError DtGraph
unfolding edge_matches normalize replace_first
update_edge g source old_target new_target old_condition condition = do
  raise_if (not (any (edge_matches source old_target old_condition) g.edges))
      (edge_not_found source old_target old_condition)
  raise_if (not (mem new_target (node_ids g))) (target_not_found new_target)
  e ← make_edge source new_target (normalize condition)
  ok (record g { edges = replace_first (edge_matches source old_target old_condition) e g.edges })

unfoldable pub delete_edge : DtGraph → Text → Text → Option Text → Result GraphError DtGraph
unfolding edge_matches
delete_edge g source target condition = do
  raise_if (not (any (edge_matches source target condition) g.edges))
      (edge_not_found source target condition)
  ok (record g { edges = keep (λ e. not (edge_matches source target condition e)) g.edges })
