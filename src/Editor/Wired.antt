-- ===== src/Editor/Wired.antt =====
-- `create_node_wired` of smeme/decision_tree/editor/operations.py: a node and its edges in one edit.
-- A key that is missing from `operation_data` is a `none` field; the type checks of values that JSON
-- could give another type are left out.
use smeme.Base.{
  ◌&&◌, Text, codes, ◌==◌, strip, is_blank, is_nil, Bool, not, Option, none, some, List, [], ◌∷◌,
  length, if◌then◌else◌,
}
use smeme.Base.Result.{Result, ok, err, raise_if, ◌>>=◌, ◌>>◌}
use smeme.Tree.Types.{
  DtGraph, GraphNode, GraphError, source_not_found, not_a_question, node_id_required, bad_kind,
  question_text_required, wiring_required, no_predecessor, entry_not_unique, entry_invalid,
  wiring_none_on_nonempty, unknown_wiring, no_question_yet, title_required, summary_required,
  no_incoming_edge, edge_source_required, edge_condition_required,
}
use smeme.Tree.Queries.{is_question, get_node, get_entry_nodes}
use smeme.Editor.Nodes.{create_node, create_conclusion_node}
use smeme.Editor.Edges.{create_edge, normalize}

-- `data.get(key) or default`
abbrev pub or_text : Option Text → Text → Text
or_text none d = d
or_text (some s) d = if is_nil s then d else s

pub record ConclusionEdge : Type 0 where
  pub source : Option Text
  pub condition : Option Text

pub record WiredData : Type 0 where
  pub kind : Text
  pub node_id : Option Text
  pub question_text : Option Text
  pub question_type : Option Text
  pub options : List (Option Text)
  pub help_text : Option Text
  pub required : Bool
  pub question_wiring : Option Text
  pub predecessor_ids : List Text
  pub incoming_edge_condition : Option Text
  pub title : Option Text
  pub summary : Option Text
  pub recommendations : List Text
  pub severity : Option Text
  pub conclusion_edges : List ConclusionEdge

unfoldable pub require_question_source : DtGraph → Text → Result GraphError Unit
unfolding get_node is_question
require_question_source g source_id = elim (get_node g source_id) [
  | none ↦ err (source_not_found source_id)
  | some n ↦ raise_if (not (is_question n)) (not_a_question source_id)
]

-- The loop over the predecessors. Sources are looked up in the graph before the edit.
unfoldable pub wire_incoming :
    DtGraph → Text → Option Text → List Text → DtGraph → Result GraphError DtGraph
unfolding require_question_source
wire_incoming graph node_id condition [] g = ok g
wire_incoming graph node_id condition (p ∷ ps) g = do
  require_question_source graph p
  g' ← create_edge g p node_id condition
  wire_incoming graph node_id condition ps g'

-- The new entry in front of the one there is.
unfoldable pub wire_new_start :
    DtGraph → Text → List GraphNode → DtGraph → Result GraphError DtGraph
unfolding require_question_source
wire_new_start graph node_id (entry ∷ []) g = do
  raise_if (entry.id == node_id) entry_invalid
  elim (get_node graph entry.id) [
    | none ↦ err entry_invalid
    | some n ↦ (do
      raise_if (not (is_question n)) entry_invalid
      create_edge g node_id entry.id none)
  ]
wire_new_start graph node_id entries g = err (entry_not_unique (length entries))

-- The wiring that is asked for; an empty graph has none.
unfoldable pub choose_wiring : DtGraph → Option Text → Result GraphError Text
unfolding strip is_blank
choose_wiring g wiring = if is_nil g.nodes then ok (codes "none") else elim wiring [
  | none ↦ err wiring_required
  | some w ↦ if is_blank w then err wiring_required else ok (strip w)
]

unfoldable pub wire : DtGraph → Text → WiredData → Text → DtGraph → Result GraphError DtGraph
unfolding wire_incoming wire_new_start normalize get_entry_nodes
wire graph node_id d wiring g =
    if wiring == codes "none"
    then (do raise_if (not (is_nil graph.nodes)) wiring_none_on_nonempty; ok g)
    else if wiring == codes "incoming"
    then (do
      raise_if (is_nil d.predecessor_ids) no_predecessor
      wire_incoming graph node_id (normalize d.incoming_edge_condition) d.predecessor_ids g)
    else if wiring == codes "new_start"
    then wire_new_start graph node_id (get_entry_nodes graph) g
    else err unknown_wiring

unfoldable pub create_node_wired_question : DtGraph → Text → WiredData → Result GraphError DtGraph
unfolding choose_wiring wire
create_node_wired_question graph node_id d = do
  raise_if (is_blank (or_text d.question_text [])) question_text_required
  wiring ← choose_wiring graph d.question_wiring
  g ←
      create_node graph node_id (strip (or_text d.question_text []))
        (or_text d.question_type (codes "radio")) d.options d.help_text d.required
  wire graph node_id d wiring g

-- The loop over the incoming edges of a conclusion.
unfoldable pub wire_conclusion :
    DtGraph → Text → List ConclusionEdge → DtGraph → Result GraphError DtGraph
unfolding require_question_source strip
wire_conclusion graph node_id [] g = ok g
wire_conclusion graph node_id (item ∷ items) g = do
  raise_if (is_nil (strip (or_text item.source []))) edge_source_required
  raise_if (is_nil (strip (or_text item.condition []))) edge_condition_required
  require_question_source graph (strip (or_text item.source []))
  g' ←
      create_edge g (strip (or_text item.source [])) node_id
        (some (strip (or_text item.condition [])))
  wire_conclusion graph node_id items g'

unfoldable pub create_node_wired_conclusion : DtGraph → Text → WiredData → Result GraphError DtGraph
unfolding wire_conclusion
create_node_wired_conclusion graph node_id d = do
  raise_if (is_nil graph.nodes) no_question_yet
  raise_if (is_nil (strip (or_text d.title []))) title_required
  raise_if (is_nil (strip (or_text d.summary []))) summary_required
  raise_if (is_nil d.conclusion_edges) no_incoming_edge
  g ←
      create_conclusion_node graph node_id (strip (or_text d.title []))
        (strip (or_text d.summary [])) d.recommendations (some (or_text d.severity (codes "info")))
  wire_conclusion graph node_id d.conclusion_edges g

unfoldable pub create_node_wired : DtGraph → WiredData → Result GraphError DtGraph
unfolding create_node_wired_question create_node_wired_conclusion
create_node_wired graph d = do
  raise_if (not (d.kind == codes "question") && not (d.kind == codes "conclusion")) bad_kind
  raise_if (is_blank (or_text d.node_id [])) node_id_required
  (if d.kind == codes "question"
      then create_node_wired_question graph (strip (or_text d.node_id [])) d
      else create_node_wired_conclusion graph (strip (or_text d.node_id [])) d)
