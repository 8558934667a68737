-- ===== src/Editor/Safe.antt =====
-- Well-formed graphs under `create_node_wired` and `apply_operation` of
-- smeme/decision_tree/editor/operations.py.
use smeme.Base.{
  Text, codes, ◌==◌, strip, is_blank, is_nil, ◌≡◌, not, ◌&&◌, Option, none, some, List, [], ◌∷◌,
  inl, inr, subst, Bool-cases, Option-cases,
}
use smeme.Base.Result.{ok, >>-eq-ok, >>=-eq-ok, ok_injective}
use smeme.Tree.Types.{DtGraph, GraphNode}
use smeme.Tree.Queries.{is_question, get_node, get_entry_nodes}
use smeme.Editor.Nodes.{create_node, create_conclusion_node}
use smeme.Editor.Edges.{create_edge, normalize}
use smeme.Editor.Wired.{
  ConclusionEdge, WiredData, or_text, require_question_source, wire_incoming, wire_new_start,
  choose_wiring, wire, create_node_wired_question, wire_conclusion, create_node_wired_conclusion,
  create_node_wired,
}
use smeme.Editor.Dispatch.{Operation, apply_operation}
use smeme.Editor.WellFormed.{IsWellFormed}
use smeme.Editor.Preserve.{
  create_node-IsWellFormed, create_conclusion_node-IsWellFormed, update_node-IsWellFormed,
  update_conclusion_node-IsWellFormed, delete_node-IsWellFormed, create_edge-IsWellFormed,
  update_edge-IsWellFormed, delete_edge-IsWellFormed,
}

module _ (graph : DtGraph) (id : Text) where
  wire_incoming-IsWellFormed :
      (c : Option Text) (ps : List Text) (g : DtGraph) {g' : DtGraph}
      → IsWellFormed g
      → wire_incoming graph id c ps g ≡ ok g'
      → IsWellFormed g'
  unfolding wire_incoming
  wire_incoming-IsWellFormed c [] g w h = subst IsWellFormed (ok_injective h) w
  wire_incoming-IsWellFormed c (p ∷ ps) g w h =
      let (_, _, h1) = >>=-eq-ok (require_question_source graph p) _ h in
      let (g1, e, h2) = >>=-eq-ok (create_edge g p id c) _ h1 in
      wire_incoming-IsWellFormed c ps g1 (create_edge-IsWellFormed g w p id c e) h2

  wire_conclusion-IsWellFormed :
      (items : List ConclusionEdge) (g : DtGraph) {g' : DtGraph}
      → IsWellFormed g
      → wire_conclusion graph id items g ≡ ok g'
      → IsWellFormed g'
  unfolding wire_conclusion
  wire_conclusion-IsWellFormed [] g w h = subst IsWellFormed (ok_injective h) w
  wire_conclusion-IsWellFormed (item ∷ items) g w h =
      let s = strip (or_text item.source []) in
      let c = strip (or_text item.condition []) in
      let (_, h1) = >>-eq-ok (is_nil s) _ _ h in
      let (_, h2) = >>-eq-ok (is_nil c) _ _ h1 in
      let (_, _, h3) = >>=-eq-ok (require_question_source graph s) _ h2 in
      let (g1, e, h4) = >>=-eq-ok (create_edge g s id (some c)) _ h3 in
      wire_conclusion-IsWellFormed items g1 (create_edge-IsWellFormed g w s id (some c) e) h4

  wire_new_start-IsWellFormed :
      (entries : List GraphNode) (g : DtGraph) {g' : DtGraph}
      → IsWellFormed g
      → wire_new_start graph id entries g ≡ ok g'
      → IsWellFormed g'
  unfolding wire_new_start
  wire_new_start-IsWellFormed [] g w h = absurd (cc)
  wire_new_start-IsWellFormed (n ∷ m ∷ rest) g w h = absurd (cc)
  wire_new_start-IsWellFormed (n ∷ []) g w h =
      let (_, h1) = >>-eq-ok (n.id == id) _ _ h in
      elim (Option-cases (get_node graph n.id)) [
        | inl e ↦ absurd (cc (rw e at h1))
        | inr (x, e) ↦
            let (_, h2) = >>-eq-ok (not (is_question x)) _ _ (rw e at h1) in
            create_edge-IsWellFormed g w id n.id none h2
      ]

  wire-IsWellFormed :
      (d : WiredData) (wiring : Text) (g : DtGraph) {g' : DtGraph}
      → IsWellFormed g
      → wire graph id d wiring g ≡ ok g'
      → IsWellFormed g'
  unfolding wire
  wire-IsWellFormed d wiring g w h = elim (Bool-cases (wiring == codes "none")) [
    | inl a ↦
        let (_, h1) = >>-eq-ok (not (is_nil graph.nodes)) _ _ (rw (a, wire) at h) in
        subst IsWellFormed (ok_injective h1) w
    | inr a ↦ elim (Bool-cases (wiring == codes "incoming")) [
      | inl b ↦
          let (_, h1) = >>-eq-ok (is_nil d.predecessor_ids) _ _ (rw (a, b, wire) at h) in
          wire_incoming-IsWellFormed (normalize d.incoming_edge_condition) d.predecessor_ids g w h1
      | inr b ↦ elim (Bool-cases (wiring == codes "new_start")) [
        | inl c ↦ wire_new_start-IsWellFormed (get_entry_nodes graph) g w (rw (a, b, c, wire) at h)
        | inr c ↦ absurd (cc (rw (a, b, c, wire) at h))
      ]
    ]
  ]

  module _ (w : IsWellFormed graph) (d : WiredData) where
    question-IsWellFormed :
        {g' : DtGraph} → create_node_wired_question graph id d ≡ ok g' → IsWellFormed g'
    unfolding create_node_wired_question
    question-IsWellFormed h =
        let (_, h1) = >>-eq-ok (is_blank (or_text d.question_text [])) _ _ h in
        let (wiring, _, h2) = >>=-eq-ok (choose_wiring graph d.question_wiring) _ h1 in
        let (g, made, h3) =
          >>=-eq-ok
            (create_node graph id (strip (or_text d.question_text []))
              (or_text d.question_type (codes "radio")) d.options d.help_text d.required)
            _ h2 in
        wire-IsWellFormed d wiring g
          (create_node-IsWellFormed graph w id _ _ d.options d.help_text d.required made) h3

    conclusion-IsWellFormed :
        {g' : DtGraph} → create_node_wired_conclusion graph id d ≡ ok g' → IsWellFormed g'
    unfolding create_node_wired_conclusion
    conclusion-IsWellFormed h =
        let (_, h1) = >>-eq-ok (is_nil graph.nodes) _ _ h in
        let (_, h2) = >>-eq-ok (is_nil (strip (or_text d.title []))) _ _ h1 in
        let (_, h3) = >>-eq-ok (is_nil (strip (or_text d.summary []))) _ _ h2 in
        let (_, h4) = >>-eq-ok (is_nil d.conclusion_edges) _ _ h3 in
        let (g, made, h5) =
          >>=-eq-ok
            (create_conclusion_node graph id (strip (or_text d.title []))
              (strip (or_text d.summary [])) d.recommendations
              (some (or_text d.severity (codes "info"))))
            _ h4 in
        wire_conclusion-IsWellFormed d.conclusion_edges g
          (create_conclusion_node-IsWellFormed graph w id _ _ d.recommendations _ made) h5

create_node_wired-IsWellFormed :
    (g : DtGraph) (w : IsWellFormed g) (d : WiredData) {g' : DtGraph}
    → create_node_wired g d ≡ ok g'
    → IsWellFormed g'
unfolding create_node_wired
create_node_wired-IsWellFormed g w d h =
    let (_, h1) =
      >>-eq-ok (not (d.kind == codes "question") && not (d.kind == codes "conclusion")) _ _ h in
    let (_, h2) = >>-eq-ok (is_blank (or_text d.node_id [])) _ _ h1 in
    elim (Bool-cases (d.kind == codes "question")) [
      | inl e ↦ question-IsWellFormed g (strip (or_text d.node_id [])) w d (rw e at h2)
      | inr e ↦ conclusion-IsWellFormed g (strip (or_text d.node_id [])) w d (rw e at h2)
    ]

-- An edit of a well-formed graph that returns gives a well-formed graph: distinct and valid node
-- ids, questions with options, and edges between nodes of the graph only.
pub apply_operation-IsWellFormed :
    (g g' : DtGraph) (op : Operation)
    → IsWellFormed g
    → apply_operation g op ≡ ok g'
    → IsWellFormed g'
unfolding apply_operation
apply_operation-IsWellFormed g g' (Operation.create_node_wired d) w h =
    create_node_wired-IsWellFormed g w d h
apply_operation-IsWellFormed g g' (Operation.create_node id t ty o help r) w h =
    create_node-IsWellFormed g w id t ty o help r h
apply_operation-IsWellFormed g g' (Operation.create_conclusion_node id t s r v) w h =
    create_conclusion_node-IsWellFormed g w id t s r v h
apply_operation-IsWellFormed g g' (Operation.update_node id t ty o help r) w h =
    update_node-IsWellFormed g w id t ty o help r h
apply_operation-IsWellFormed g g' (Operation.update_conclusion_node id t s r v) w h =
    update_conclusion_node-IsWellFormed g w id t s r v h
apply_operation-IsWellFormed g g' (Operation.delete_node id) w h = delete_node-IsWellFormed g w id h
apply_operation-IsWellFormed g g' (Operation.create_edge s t c) w h =
    create_edge-IsWellFormed g w s t c h
apply_operation-IsWellFormed g g' (Operation.update_edge s o n oc c) w h =
    update_edge-IsWellFormed g w s o n oc c h
apply_operation-IsWellFormed g g' (Operation.delete_edge s t c) w h =
    delete_edge-IsWellFormed g w s t c h
apply_operation-IsWellFormed g g' (Operation.other_operation name) w h = absurd (cc)
