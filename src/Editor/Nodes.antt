-- ===== src/Editor/Nodes.antt =====
-- The node operations of smeme/decision_tree/editor/operations.py. A deep copy of a graph is the
-- graph; a list argument that is None is the empty list.
use smeme.Base.{
  Text, codes, ◌==◌, strip, is_nil, Bool, true, false, not, ◌&&◌, Option, none, some, List, [], ◌∷◌,
  ◌++◌, keep, find, any, if◌then◌else◌,
}
use smeme.Base.Result.{Result, ok, err, raise_if, ◌>>=◌, ◌>>◌}
use smeme.Tree.Types.{
  DtGraph, GraphNode, GraphEdge, NodeType, question, conclusion, asks, concludes, QuestionData,
  AuthorityReference, EvidenceSource, GraphError, node_exists, node_not_found, not_radio,
  no_options, not_a_question, not_a_conclusion, make_question_data, make_conclusion_data, make_node,
}
use smeme.Tree.Queries.{question_data}

abbrev pub has_node : DtGraph → Text → Bool
has_node g id = any (λ (n : GraphNode). n.id == id) g.nodes

-- `[str(o).strip() for o in (options or []) if o is not None and str(o).strip()]`
unfoldable pub clean_options : List (Option Text) → List Text
unfolding strip
clean_options [] = []
clean_options (none ∷ os) = clean_options os
clean_options (some o ∷ os) =
    if is_nil (strip o) then clean_options os else strip o ∷ clean_options os

-- `nodes[i] = new` at the first node that passes.
unfoldable pub replace_first {ℓ} : {A : Type ℓ} → (A → Bool) → A → List A → List A
replace_first p new [] = []
replace_first p new (x ∷ xs) = if p x then new ∷ xs else x ∷ replace_first p new xs

abbrev pub add_node : DtGraph → GraphNode → DtGraph
add_node g n = record g { nodes = g.nodes ++ n ∷ [] }

unfoldable pub create_node :
    DtGraph
    → Text
    → Text
    → Text
    → List (Option Text)
    → Option Text
    → Bool
    → Result GraphError DtGraph
unfolding clean_options
create_node g node_id question_text question_type options help_text required = do
  raise_if (has_node g node_id) (node_exists node_id)
  raise_if (not (question_type == codes "radio")) (not_radio question_type)
  raise_if (is_nil (clean_options options)) no_options
  q ← make_question_data question_text (clean_options options) help_text required [] []
  n ← make_node node_id question (asks q)
  ok (add_node g n)

unfoldable pub create_conclusion_node :
    DtGraph → Text → Text → Text → List Text → Option Text → Result GraphError DtGraph
create_conclusion_node g node_id title summary recommendations severity = do
  raise_if (has_node g node_id) (node_exists node_id)
  c ← make_conclusion_data title summary recommendations severity
  n ← make_node node_id conclusion (concludes c)
  ok (add_node g n)

-- What an edit of a question carries over.
unfoldable pub kept_authorities : Option QuestionData → List AuthorityReference
kept_authorities none = []
kept_authorities (some q) = q.authorities

unfoldable pub kept_sources : Option QuestionData → List EvidenceSource
kept_sources none = []
kept_sources (some q) = q.evidence_sources

abbrev pub is_conclusion_type : NodeType → Bool
is_conclusion_type conclusion = true
is_conclusion_type question = false

unfoldable pub update_found :
    DtGraph
    → GraphNode
    → Text
    → Text
    → Text
    → List (Option Text)
    → Option Text
    → Bool
    → Result GraphError DtGraph
unfolding clean_options kept_authorities kept_sources replace_first question_data
update_found g existing node_id question_text question_type options help_text required = do
  raise_if (is_conclusion_type existing.type) (not_a_question node_id)
  raise_if (not (question_type == codes "radio")) (not_radio question_type)
  raise_if (is_nil (clean_options options)) no_options
  q ←
      make_question_data question_text (clean_options options) help_text required
        (kept_authorities (question_data existing)) (kept_sources (question_data existing))
  n ← make_node node_id question (asks q)
  ok (record g { nodes = replace_first (λ (x : GraphNode). x.id == node_id) n g.nodes })

unfoldable pub update_node :
    DtGraph
    → Text
    → Text
    → Text
    → List (Option Text)
    → Option Text
    → Bool
    → Result GraphError DtGraph
unfolding update_found
update_node g node_id question_text question_type options help_text required =
    elim (find (λ (n : GraphNode). n.id == node_id) g.nodes) [
      | none ↦ err (node_not_found node_id)
      | some existing ↦
          update_found g existing node_id question_text question_type options help_text required
    ]

unfoldable pub update_conclusion_found :
    DtGraph → GraphNode → Text → Text → Text → List Text → Option Text → Result GraphError DtGraph
unfolding replace_first
update_conclusion_found g existing node_id title summary recommendations severity = do
  raise_if (not (is_conclusion_type existing.type)) (not_a_conclusion node_id)
  c ← make_conclusion_data title summary recommendations severity
  n ← make_node node_id conclusion (concludes c)
  ok (record g { nodes = replace_first (λ (x : GraphNode). x.id == node_id) n g.nodes })

unfoldable pub update_conclusion_node :
    DtGraph → Text → Text → Text → List Text → Option Text → Result GraphError DtGraph
unfolding update_conclusion_found
update_conclusion_node g node_id title summary recommendations severity =
    elim (find (λ (n : GraphNode). n.id == node_id) g.nodes) [
      | none ↦ err (node_not_found node_id)
      | some existing ↦
          update_conclusion_found g existing node_id title summary recommendations severity
    ]

unfoldable pub delete_node : DtGraph → Text → Result GraphError DtGraph
delete_node g node_id = do
  raise_if (not (has_node g node_id)) (node_not_found node_id)
  ok (record g {
    nodes = keep (λ (n : GraphNode). not (n.id == node_id)) g.nodes;
    edges =
        keep (λ (e : GraphEdge). not (e.source == node_id) && not (e.target == node_id)) g.edges;
  })
