-- ===== src/Tree/Strict.antt =====
-- `validate_graph` of smeme/decision_tree/helpers/validation.py, the validation that blocks. What it
-- returns with False is an error by its cause, with the values of its message; True is `ok`. Pydantic
-- models and metadata are always there, so the tests that they are missing have no counterpart.
pub mod Accepts
use smeme.Base.{
  ℕ, Text, ◌==◌, text_leb, sort, distinct, mem, strip, is_nil, Bool, true, false, not, ◌&&◌, ◌||◌,
  leb, ltb, nat_beq, Option, none, some, List, [], ◌∷◌, map, keep, all, any, length, if◌then◌else◌,
}
use smeme.Base.Result.{Result, ok, err, raise_if, ◌>>=◌, ◌>>◌}
use smeme.Tree.Types.{
  DtGraph, GraphNode, GraphEdge, NodeType, question, conclusion, NodeData, asks, concludes,
  QuestionData, ConclusionData,
}
use smeme.Tree.Queries.{
  node_ids, is_question, question_data, is_default, get_outgoing_edges, get_incoming_edges,
  get_entry_nodes,
}

pub data GraphFault : Type 0 where
  no_nodes duplicate_ids : GraphFault
  unknown_source unknown_target : Text → GraphFault
  wrong_data no_question_text no_title no_summary : Text → GraphFault
  no_entry : GraphFault
  several_entries : List Text → GraphFault
  entry_conclusions : List Text → GraphFault
  one_conclusion : GraphFault
  conclusion_has_edges : Text → List Text → GraphFault
  default_to_conclusion : GraphEdge → GraphFault
  no_terminal : GraphFault
  question_without_edges no_options : Text → GraphFault
  partial_coverage optional_coverage : Text → List Text → GraphFault
  optional_without_default : Text → GraphFault
  prohibited_condition : GraphEdge → GraphFault
  condition_not_offered : Text → Text → GraphFault
  no_metadata_title : GraphFault

-- `return False, msg` in a loop ends the function: the first fault of the items.
unfoldable pub for_each :
    {A : Type 0} → (A → Result GraphFault Unit) → List A → Result GraphFault Unit
for_each check [] = ok tt
for_each check (x ∷ xs) = check x >> for_each check xs

unfoldable pub conclusion_data : GraphNode → Option ConclusionData
conclusion_data n = elim n.type [
  | question ↦ none
  | conclusion ↦ elim n.content [ concludes c ↦ some c | asks _ ↦ none ]
]

unfoldable pub get_question_nodes : DtGraph → List GraphNode
unfolding is_question
get_question_nodes g = keep is_question g.nodes

unfoldable pub get_conclusion_nodes : DtGraph → List GraphNode
unfolding is_question
get_conclusion_nodes g = keep (λ (n : GraphNode). not (is_question n)) g.nodes

unfoldable pub conclusion_ids : DtGraph → List Text
unfolding get_conclusion_nodes
conclusion_ids g = map (λ (n : GraphNode). n.id) (get_conclusion_nodes g)

unfoldable pub get_terminal_nodes : DtGraph → List GraphNode
unfolding get_outgoing_edges
get_terminal_nodes g = keep (λ (n : GraphNode). is_nil (get_outgoing_edges g n.id)) g.nodes

unfoldable pub check_ends : DtGraph → GraphEdge → Result GraphFault Unit
check_ends g e = do
  raise_if (not (mem e.source (node_ids g))) (unknown_source e.source)
  raise_if (not (mem e.target (node_ids g))) (unknown_target e.target)

unfoldable pub check_question_content : Text → Option QuestionData → Result GraphFault Unit
check_question_content id none = err (wrong_data id)
check_question_content id (some q) = raise_if (is_nil q.text) (no_question_text id)

unfoldable pub check_conclusion_content : Text → Option ConclusionData → Result GraphFault Unit
check_conclusion_content id none = err (wrong_data id)
check_conclusion_content id (some c) = do
  raise_if (is_nil c.title) (no_title id)
  raise_if (is_nil c.summary) (no_summary id)

unfoldable pub check_content : GraphNode → Result GraphFault Unit
unfolding check_question_content check_conclusion_content question_data conclusion_data is_question
check_content n =
    if is_question n
    then check_question_content n.id (question_data n)
    else check_conclusion_content n.id (conclusion_data n)

-- `first_candidates`, the nodes without incoming edges.
unfoldable pub first_candidates : DtGraph → List Text
unfolding get_incoming_edges
first_candidates g =
    map (λ (n : GraphNode). n.id)
      (keep (λ (n : GraphNode). is_nil (get_incoming_edges g n.id)) g.nodes)

unfoldable pub entry_ids : DtGraph → List Text
unfolding get_entry_nodes
entry_ids g = map (λ (n : GraphNode). n.id) (get_entry_nodes g)

unfoldable pub check_entry : DtGraph → Result GraphFault Unit
unfolding first_candidates entry_ids conclusion_ids
check_entry g = do
  raise_if (is_nil (first_candidates g)) no_entry
  raise_if (ltb 1 (length (entry_ids g))) (several_entries (sort text_leb (entry_ids g)))
  raise_if (any (λ id. mem id (conclusion_ids g)) (first_candidates g))
      (entry_conclusions (keep (λ id. mem id (conclusion_ids g)) (first_candidates g)))

unfoldable pub check_final : DtGraph → GraphNode → Result GraphFault Unit
check_final g n =
    raise_if (not (is_nil (get_outgoing_edges g n.id)))
      (conclusion_has_edges n.id (map (λ (e : GraphEdge). e.target) (get_outgoing_edges g n.id)))

unfoldable pub check_explicit : DtGraph → GraphEdge → Result GraphFault Unit
unfolding conclusion_ids is_default
check_explicit g e =
    raise_if (mem e.target (conclusion_ids g) && is_default e.condition) (default_to_conclusion e)

-- The rules for conclusions, if the graph has any.
unfoldable pub check_conclusions : DtGraph → List GraphNode → Result GraphFault Unit
unfolding check_final check_explicit for_each
check_conclusions g [] = ok tt
check_conclusions g (n ∷ []) = err one_conclusion
check_conclusions g (n ∷ m ∷ ns) = do
  for_each (check_final g) (n ∷ m ∷ ns)
  for_each (check_explicit g) g.edges

-- `{e.condition.strip() for e in edges_out if e.condition}`
unfoldable pub stripped_conditions : List GraphEdge → List Text
unfolding strip
stripped_conditions [] = []
stripped_conditions (e ∷ es) = elim e.condition [
  | none ↦ stripped_conditions es
  | some c ↦ if is_nil c then stripped_conditions es else strip c ∷ stripped_conditions es
]

unfoldable pub same_set : List Text → List Text → Bool
same_set xs ys = all (λ x. mem x ys) xs && all (λ y. mem y xs) ys

unfoldable pub missing_options : List Text → List Text → List Text
unfolding distinct
missing_options options conds = sort text_leb (keep (λ o. not (mem o conds)) (distinct [] options))

-- The options and the default edge of a question with edges.
unfoldable pub check_coverage : Text → QuestionData → List GraphEdge → Result GraphFault Unit
unfolding stripped_conditions same_set missing_options is_default
check_coverage id q out =
    let has_default = any (λ (e : GraphEdge). is_default e.condition) out in
    let conds = stripped_conditions out in
    let uncovered = not (same_set conds q.options) in
    (do
      raise_if (is_nil q.options) (no_options id)
      raise_if (uncovered && q.required && not has_default)
          (partial_coverage id (missing_options q.options conds))
      raise_if (uncovered && not q.required)
          (optional_coverage id (missing_options q.options conds))
      raise_if (not q.required && not has_default) (optional_without_default id))

-- `PROHIBITED_PATTERN.search(cond)`
unfoldable pub is_prohibited : Text → Bool
is_prohibited = any (λ c. leb c 31)

unfoldable pub check_condition : Text → QuestionData → GraphEdge → Result GraphFault Unit
unfolding is_prohibited strip is_default
check_condition id q e = elim e.condition [
  | none ↦ ok tt
  | some c ↦ if is_nil (strip c) then ok tt else (do
    raise_if (is_prohibited (strip c)) (prohibited_condition e)
    raise_if (not (mem (strip c) q.options)) (condition_not_offered (strip c) id))
]

-- A question whose data is there; the check of the contents has refused the others.
unfoldable pub check_edges_of :
    DtGraph → GraphNode → QuestionData → List GraphEdge → Result GraphFault Unit
unfolding check_coverage check_condition for_each get_conclusion_nodes
check_edges_of g n q [] =
    raise_if (not (is_nil (get_conclusion_nodes g))) (question_without_edges n.id)
check_edges_of g n q (e ∷ es) = do
  check_coverage n.id q (e ∷ es)
  for_each (check_condition n.id q) (e ∷ es)

unfoldable pub check_question : DtGraph → GraphNode → Result GraphFault Unit
unfolding check_edges_of question_data get_outgoing_edges
check_question g n = elim (question_data n) [
  | none ↦ err (wrong_data n.id)
  | some q ↦ check_edges_of g n q (get_outgoing_edges g n.id)
]

unfoldable pub validate_graph : DtGraph → Result GraphFault Unit
unfolding for_each check_ends check_content check_entry check_conclusions check_question
    get_terminal_nodes get_question_nodes get_conclusion_nodes
validate_graph g = do
  raise_if (is_nil g.nodes) no_nodes
  raise_if (not (nat_beq (length (distinct [] (node_ids g))) (length g.nodes))) duplicate_ids
  for_each (check_ends g) g.edges
  for_each check_content g.nodes
  check_entry g
  check_conclusions g (get_conclusion_nodes g)
  raise_if (is_nil (get_terminal_nodes g)) no_terminal
  for_each (check_question g) (get_question_nodes g)
  raise_if (is_nil g.metadata.title) no_metadata_title
