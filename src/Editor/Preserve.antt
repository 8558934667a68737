-- ===== src/Editor/Preserve.antt =====
-- Well-formed graphs under the node and edge operations of
-- smeme/decision_tree/editor/operations.py.
use smeme.Base.{
  any→In, Text, codes, ◌==◌, eq_iff, ==→eq, mem, is_nil, ◌≡◌, refl, true, false, not, ◌&&◌, Option,
  List, [], ◌∷◌, ◌++◌, map, keep, any, In-cons, arith, inl, inr, subst, sym, ap, ◌∙◌, In-of_keep,
  In-append_cases, Option-cases, Distinct-keep, find,
}
use smeme.Base.Result.{ok, ◌>>=◌, >>-eq-ok, >>=-eq-ok, ok_injective}
use smeme.Tree.Types.{
  DtGraph, GraphNode, GraphEdge, NodeType, question, conclusion, NodeData, asks, concludes,
  make_question_data, make_conclusion_data, make_node, make_edge,
}
use smeme.Tree.Queries.{node_ids, question_data}
use smeme.Editor.Nodes.{
  is_conclusion_type, has_node, replace_first, add_node, create_node, create_conclusion_node,
  update_node, update_conclusion_node, delete_node, clean_options, kept_authorities, kept_sources,
}
use smeme.Editor.Edges.{create_edge, update_edge, delete_edge, edge_matches, normalize, is_edge}
use smeme.Editor.WellFormed.{
  IsWellFormed, IsTyped, In-replace_first, make_node-parts, make_question_data-options,
  add_node-IsWellFormed, replace_node-IsWellFormed, edges-IsWellFormed,
}

-- The end of an operation that adds the node it has made.
added :
    (g : DtGraph) (id : Text) (t : NodeType) (c : NodeData) {g' : DtGraph}
    → IsWellFormed g
    → has_node g id ≡ false
    → IsTyped t c
    → (make_node id t c >>= λ n. ok (add_node g n)) ≡ ok g'
    → IsWellFormed g'
added g id t c w new typed h =
    let (n, made, h') = >>=-eq-ok (make_node id t c) _ h in
    let (valid, named) = make_node-parts id t c made in
    subst IsWellFormed (ap (add_node g) (sym named) ∙ ok_injective h')
      (add_node-IsWellFormed g w (record { id = id; type = t; content = c }) new valid typed)

-- The end of an operation that replaces a node by the one it has made.
replaced :
    (g : DtGraph) (id : Text) (t : NodeType) (c : NodeData) {g' : DtGraph}
    → IsWellFormed g
    → IsTyped t c
    → (make_node id t c >>= λ n.
        ok (record g { nodes = replace_first (λ (x : GraphNode). x.id == id) n g.nodes }))
      ≡ ok g'
    → IsWellFormed g'
replaced g id t c w typed h =
    let (n, made, h') = >>=-eq-ok (make_node id t c) _ h in
    let (valid, named) = make_node-parts id t c made in
    subst IsWellFormed
      (ap (λ x. record g { nodes = replace_first (λ (y : GraphNode). y.id == id) x g.nodes })
          (sym named)
        ∙ ok_injective h')
      (replace_node-IsWellFormed g w id (record { id = id; type = t; content = c }) refl valid
        typed)

module _ (g : DtGraph) (w : IsWellFormed g) where
  pub create_node-IsWellFormed :
      (id question_text question_type : Text) (options : List (Option Text)) (help : Option Text)
      (required : _) {g' : DtGraph}
      → create_node g id question_text question_type options help required ≡ ok g'
      → IsWellFormed g'
  unfolding create_node
  create_node-IsWellFormed id question_text question_type options help required h =
      let (new, h1) = >>-eq-ok (has_node g id) _ _ h in
      let (_, h2) = >>-eq-ok (not (question_type == codes "radio")) _ _ h1 in
      let (_, h3) = >>-eq-ok (is_nil (clean_options options)) _ _ h2 in
      let (q, made, h4) =
        >>=-eq-ok (make_question_data question_text (clean_options options) help required [] []) _
          h3 in
      added g id question (asks q) w new
        (make_question_data-options question_text (clean_options options) help required [] [] made)
        h4

  pub create_conclusion_node-IsWellFormed :
      (id title summary : Text) (recommendations : List Text) (severity : Option Text)
      {g' : DtGraph}
      → create_conclusion_node g id title summary recommendations severity ≡ ok g'
      → IsWellFormed g'
  unfolding create_conclusion_node
  create_conclusion_node-IsWellFormed id title summary recommendations severity h =
      let (new, h1) = >>-eq-ok (has_node g id) _ _ h in
      let (c, _, h2) =
        >>=-eq-ok (make_conclusion_data title summary recommendations severity) _ h1 in
      added g id conclusion (concludes c) w new tt h2

  pub update_node-IsWellFormed :
      (id question_text question_type : Text) (options : List (Option Text)) (help : Option Text)
      (required : _) {g' : DtGraph}
      → update_node g id question_text question_type options help required ≡ ok g'
      → IsWellFormed g'
  unfolding update_node
  update_node-IsWellFormed id question_text question_type options help required h =
      elim (Option-cases (find (λ (n : GraphNode). n.id == id) g.nodes)) [
        | inl e ↦ absurd (cc (rw (e, update_node) at h))
        | inr (x, e) ↦
            let (_, h1) = >>-eq-ok (is_conclusion_type x.type) _ _ (rw (e, update_node) at h) in
            let (_, h2) = >>-eq-ok (not (question_type == codes "radio")) _ _ h1 in
            let (_, h3) = >>-eq-ok (is_nil (clean_options options)) _ _ h2 in
            let (q, made, h4) =
              >>=-eq-ok
                (make_question_data question_text (clean_options options) help required
                  (kept_authorities (question_data x)) (kept_sources (question_data x)))
                _ h3 in
            replaced g id question (asks q) w
              (make_question_data-options question_text (clean_options options) help required _ _
                made)
              h4
      ]

  pub update_conclusion_node-IsWellFormed :
      (id title summary : Text) (recommendations : List Text) (severity : Option Text)
      {g' : DtGraph}
      → update_conclusion_node g id title summary recommendations severity ≡ ok g'
      → IsWellFormed g'
  unfolding update_conclusion_node
  update_conclusion_node-IsWellFormed id title summary recommendations severity h =
      elim (Option-cases (find (λ (n : GraphNode). n.id == id) g.nodes)) [
        | inl e ↦ absurd (cc (rw (e, update_conclusion_node) at h))
        | inr (x, e) ↦
            let (_, h1) =
              >>-eq-ok (not (is_conclusion_type x.type)) _ _
                (rw (e, update_conclusion_node) at h) in
            let (c, _, h2) =
              >>=-eq-ok (make_conclusion_data title summary recommendations severity) _ h1 in
            replaced g id conclusion (concludes c) w tt h2
      ]

  mem-kept :
      (k id : Text) (xs : List GraphNode)
      → (k == id) ≡ false
      → mem k (map (λ (n : GraphNode). n.id) xs) ≡ true
      → mem k (map (λ (n : GraphNode). n.id) (keep (λ (n : GraphNode). not (n.id == id)) xs)) ≡ true
  mem-kept k id [] other m = m
  mem-kept k id (x ∷ xs) other m =
      ground (arith, mem-kept k id xs other, eq_iff x.id k, eq_iff x.id id, eq_iff k id)

  pub delete_node-IsWellFormed :
      (id : Text) {g' : DtGraph} → delete_node g id ≡ ok g' → IsWellFormed g'
  unfolding delete_node
  delete_node-IsWellFormed id h =
      let (_, h1) = >>-eq-ok (not (has_node g id)) _ _ h in
      subst IsWellFormed (ok_injective h1) (record {
        distinct =
            Distinct-keep (λ (n : GraphNode). n.id) (λ (n : GraphNode). not (n.id == id)) g.nodes
              w.distinct;
        named = λ n m. w.named n (In-of_keep (λ (n : GraphNode). not (n.id == id)) g.nodes m).0;
        typed = λ n m. w.typed n (In-of_keep (λ (n : GraphNode). not (n.id == id)) g.nodes m).0;
        source_known = λ e m.
            let (l, k) =
              In-of_keep (λ (e : GraphEdge). not (e.source == id) && not (e.target == id)) g.edges
                m in
            mem-kept e.source id g.nodes (ground arith) (w.source_known e l);
        target_known = λ e m.
            let (l, k) =
              In-of_keep (λ (e : GraphEdge). not (e.source == id) && not (e.target == id)) g.edges
                m in
            mem-kept e.target id g.nodes (ground arith) (w.target_known e l);
      })

  make_edge-parts :
      (s t : Text) (c : Option Text) {e : GraphEdge}
      → make_edge s t c ≡ ok e
      → (e.source ≡ s) × (e.target ≡ t)
  unfolding make_edge
  make_edge-parts s t c h = ground arith

  pub create_edge-IsWellFormed :
      (s t : Text) (c : Option Text) {g' : DtGraph} → create_edge g s t c ≡ ok g' → IsWellFormed g'
  unfolding create_edge
  create_edge-IsWellFormed s t c h =
      let (a, h1) = >>-eq-ok (not (mem s (node_ids g))) _ _ h in
      let (b, h2) = >>-eq-ok (not (mem t (node_ids g))) _ _ h1 in
      let (_, h3) = >>-eq-ok (any (is_edge s t c) g.edges) _ _ h2 in
      let (e, made, h4) = >>=-eq-ok (make_edge s t c) _ h3 in
      let (p, q) = make_edge-parts s t c made in
      subst IsWellFormed (ok_injective h4) (
        edges-IsWellFormed g w (g.edges ++ e ∷ []) λ x m. elim (In-append_cases g.edges m) [
          | inl old ↦ (w.source_known x old, w.target_known x old)
          | inr last ↦ elim (In-cons last) [
            | inl same ↦ rw same (rw p (ground arith), rw q (ground arith))
            | inr gone ↦ elim gone [ ]
          ]
        ])

  pub update_edge-IsWellFormed :
      (s t new : Text) (oc c : Option Text) {g' : DtGraph}
      → update_edge g s t new oc c ≡ ok g'
      → IsWellFormed g'
  unfolding update_edge
  update_edge-IsWellFormed s t new oc c h =
      let (a, h1) = >>-eq-ok (not (any (edge_matches s t oc) g.edges)) _ _ h in
      let (b, h2) = >>-eq-ok (not (mem new (node_ids g))) _ _ h1 in
      let (e, made, h3) = >>=-eq-ok (make_edge s new (normalize c)) _ h2 in
      let (p, q) = make_edge-parts s new (normalize c) made in
      let (x, m, matched) = any→In (edge_matches s t oc) g.edges (ground arith) in
      subst IsWellFormed (ok_injective h3) (
        edges-IsWellFormed g w (replace_first (edge_matches s t oc) e g.edges) λ y i.
          elim (In-replace_first (edge_matches s t oc) e g.edges i) [
            | inl same ↦ rw same (
              rw (p ∙ sym (edge_matches-source x matched)) (w.source_known x m),
              rw q (ground arith),
            )
            | inr old ↦ (w.source_known y old, w.target_known y old)
          ])
    where
      edge_matches-source : (x : GraphEdge) → edge_matches s t oc x ≡ true → x.source ≡ s
      edge_matches-source x k = unfold edge_matches in ==→eq x.source s (ground arith)

  pub delete_edge-IsWellFormed :
      (s t : Text) (c : Option Text) {g' : DtGraph} → delete_edge g s t c ≡ ok g' → IsWellFormed g'
  unfolding delete_edge
  delete_edge-IsWellFormed s t c h =
      let (_, h1) = >>-eq-ok (not (any (edge_matches s t c) g.edges)) _ _ h in
      subst IsWellFormed (ok_injective h1) (
        edges-IsWellFormed g w _ λ e m.
          let (l, _) = In-of_keep (λ e. not (edge_matches s t c e)) g.edges m in
          (w.source_known e l, w.target_known e l))
