-- ===== src/Tree/Queries.antt =====
-- The lookups of `DTGraph` in smeme/decision_tree/models.py.
use smeme.Base.{
  Text, ◌==◌, mem, is_blank, Bool, true, false, not, Option, none, some, List, map, keep, find,
  find_last, any,
}
use smeme.Tree.Types.{
  DtGraph, GraphNode, GraphEdge, question, conclusion, asks, concludes, QuestionData,
}

abbrev pub node_ids : DtGraph → List Text
node_ids g = map (λ (n : GraphNode). n.id) g.nodes

unfoldable pub is_question : GraphNode → Bool
is_question n = elim n.type [ question ↦ true | conclusion ↦ false ]

unfoldable pub question_data : GraphNode → Option QuestionData
question_data n = elim n.type [
  | conclusion ↦ none
  | question ↦ elim n.content [ asks q ↦ some q | concludes _ ↦ none ]
]

-- `node_map.get(id)`: of nodes with one id the last is kept.
unfoldable pub get_node : DtGraph → Text → Option GraphNode
get_node g id = find_last (λ (n : GraphNode). n.id == id) g.nodes

unfoldable pub get_outgoing_edges : DtGraph → Text → List GraphEdge
get_outgoing_edges g id = keep (λ (e : GraphEdge). e.source == id) g.edges

unfoldable pub get_incoming_edges : DtGraph → Text → List GraphEdge
get_incoming_edges g id = keep (λ (e : GraphEdge). e.target == id) g.edges

-- `condition is None or not condition.strip()`
unfoldable pub is_default : Option Text → Bool
unfolding is_blank
is_default none = true
is_default (some c) = is_blank c

unfoldable pub get_default_edge : DtGraph → Text → Option GraphEdge
unfolding get_outgoing_edges is_default
get_default_edge g id = find (λ (e : GraphEdge). is_default e.condition) (get_outgoing_edges g id)

unfoldable pub has_conditional_edges : DtGraph → Text → Bool
unfolding get_outgoing_edges is_default
has_conditional_edges g id =
    any (λ (e : GraphEdge). not (is_default e.condition)) (get_outgoing_edges g id)

-- The nodes whose list in the map of incoming edges is empty.
unfoldable pub get_entry_nodes : DtGraph → List GraphNode
get_entry_nodes g =
    keep (λ (n : GraphNode). not (mem n.id (map (λ (e : GraphEdge). e.target) g.edges))) g.nodes
