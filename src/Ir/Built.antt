-- ===== src/Ir/Built.antt =====
-- About `compile_dt_graph_to_ir` of smeme/reasoning/ir/dt_graph_to_ir.py, for graphs of the editor.
use smeme.Base.{
  nil_of_is_nil, Option, mem-map-sort, Distinct, Text, eq_refl, text_leb, sort, distinct, mem,
  In→mem, mem-distinct_nil, In-of_sort, In-sort, is_nil, ◌≡◌, ◌≢◌, refl, true, some, List, [], ◌∷◌,
  map, In, head, tail, In-cons, inl, inr, subst, sym, ap, ◌∙◌, key_known, find_last-key, Bool-cases,
}
use smeme.Base.Result.{ok}
use smeme.Tree.Types.{
  DtGraph, GraphNode, GraphEdge, QuestionData, NodeType, NodeData, asks, concludes,
}
use smeme.Tree.Queries.{node_ids, get_node, is_question, question_data}
use smeme.Editor.WellFormed.{IsWellFormed, IsTyped}
use smeme.Ir.Types.{
  Guard, ir_format_version, Ir, IrNode, IrNodeKind, question, conclusion, IrEdge, IrQuestionShape,
  radio,
}
use smeme.Ir.Validate.Spec.{ids_of, guard_ids_of, IsShaped}
use smeme.Ir.Numbering.{
  edges_known, guard_ids-edges, IsDrawn, labelled_lem, Distinct-guards, targets-edges, kept_lem,
}
use smeme.Ir.Build.{
  node_kind, shape_of, question_shape, node_of_kind, ir_node, ir_nodes, edge_leb, edge_expr,
  compile_dt_graph_to_ir,
}

-- Every question is a radio question, the one type that there is.
abbrev pub IsRadioOnly : DtGraph → Type 0
IsRadioOnly g =
    (n : GraphNode) (q : QuestionData) → In n g.nodes → n.content ≡ asks q → q.type ≡ radio

-- A compiled question offers the options of the graph's question.
abbrev Asks : GraphNode → IrNode → Type 0
Asks x n =
    (s : IrQuestionShape)
    → n.question ≡ some s
    → (q : QuestionData) × (question_data x ≡ some q) × (s.options ≡ q.options)

-- The kind that a compiled node has for the type of the graph's node.
abbrev pub kind_of_type : NodeType → IrNodeKind
kind_of_type NodeType.question = question
kind_of_type NodeType.conclusion = conclusion

-- A compiled node: its id, its kind, a shape that fits the kind, and the graph's options.
abbrev IsNodeOf : GraphNode → Text → IrNode → Type 0
IsNodeOf x id n =
    (n.id ≡ id) × IsShaped n.kind n.question × (n.kind ≡ kind_of_type x.type) × Asks x n

shape_of-asks :
    (id : Text) (q : QuestionData)
    → q.type ≡ radio
    → q.options ≢ []
    → (s : IrQuestionShape) × (shape_of id (some q) ≡ ok s)
      × (s.qtype ≡ radio)
      × (s.options ≢ [])
      × (s.options ≡ q.options)
unfolding shape_of
shape_of-asks id q t o = elim (Bool-cases (is_nil q.options)) [
  | inl e ↦ absurd (o (nil_of_is_nil q.options e))
  | inr e ↦ rw (t, eq_refl radio, e) (_, refl, refl, o, refl)
]

some_injective :
    {a b : IrQuestionShape} → ◌≡◌ {A = Option IrQuestionShape} (some a) (some b) → a ≡ b
some_injective h = cc

-- The node of an id whose graph node has this type and this content.
ir_node-parts :
    (g : DtGraph) (id k : Text) (t : NodeType) (c : NodeData)
    → get_node g id ≡ some (record { id = k; type = t; content = c })
    → IsTyped t c
    → ((q : QuestionData) → c ≡ asks q → q.type ≡ radio)
    → (m : IrNode) × (ir_node g id ≡ ok m)
      × IsNodeOf (record { id = k; type = t; content = c }) id m
unfolding ir_node node_kind node_of_kind question_shape is_question question_data
ir_node-parts g id k NodeType.question (asks q) e t r =
    let (s, made, a, b, same) = shape_of-asks id q (r q refl) t in
    let shape : question_shape g id ≡ ok s = rw (e, question_shape, made) refl in
    rw (e, ir_node, node_kind, shape)
      (
        _,
        refl,
        (
          refl,
          (a, b),
          refl,
          λ s' e'.
              (q, refl, ap (λ (x : IrQuestionShape). x.options) (sym (some_injective e')) ∙ same),
        ),
      )
ir_node-parts g id k NodeType.conclusion (concludes c) e t r =
    rw (e, ir_node, node_kind) (_, refl, (refl, tt, refl, λ s' e'. absurd (cc)))
ir_node-parts g id k NodeType.question (concludes c) e t r = absurd t
ir_node-parts g id k NodeType.conclusion (asks q) e t r = absurd t

-- What the compiled form of `g` promises.
pub record IsBuilt (g : DtGraph) (ir : Ir) : Type 0 where
  -- the nodes of the graph, sorted by id
  pub ids : ids_of ir.nodes ≡ sort text_leb (distinct [] (node_ids g))
  pub shaped : (n : IrNode) → In n ir.nodes → IsShaped n.kind n.question
  -- each edge stands for one of the graph
  pub drawn :
      (e : IrEdge)
      → In e ir.edges
      → (d : GraphEdge) × In d g.edges × (d.source ≡ e.source) × (d.target ≡ e.target)
  -- with its guard, an edge stands for one of the graph with the guard's label
  pub labelled :
      (e : IrEdge) (gd : Guard)
      → In e ir.edges
      → In gd ir.guards
      → gd.id ≡ e.guard_id
      → IsDrawn g.edges e gd
  -- no edge of the graph is lost, and each has a guard with its label
  pub kept :
      (d : GraphEdge)
      → In d g.edges
      → (e : IrEdge) × (gd : Guard) × In e ir.edges
        × In gd ir.guards
        × (e.source ≡ d.source)
        × (e.target ≡ d.target)
        × (e.guard_id ≡ gd.id)
        × (gd.expr ≡ edge_expr d)
  pub targets :
      (k : Text)
      → mem k (map (λ (e : IrEdge). e.target) ir.edges)
        ≡ mem k (map (λ (e : GraphEdge). e.target) g.edges)
  -- questions stay questions, and conclusions stay conclusions
  pub kinds :
      (n : IrNode)
      → In n ir.nodes
      → (x : GraphNode) × In x g.nodes × (x.id ≡ n.id) × (n.kind ≡ kind_of_type x.type)
  -- a question offers the options of the graph's question
  pub asked :
      (n : IrNode) (s : IrQuestionShape)
      → In n ir.nodes
      → n.question ≡ some s
      → (x : GraphNode) × In x g.nodes
        × (x.id ≡ n.id)
        × ((q : QuestionData) × (question_data x ≡ some q) × (s.options ≡ q.options))
  pub version : ir.format_version ≡ ir_format_version
  pub guards_distinct : Distinct (guard_ids_of ir.guards)
  -- one guard for each edge, in the same order
  pub paired : guard_ids_of ir.guards ≡ map (λ (e : IrEdge). e.guard_id) ir.edges

module _ (g : DtGraph) (w : IsWellFormed g) (r : IsRadioOnly g) where
  node_at :
      (id : Text)
      → mem id (node_ids g) ≡ true
      → (m : IrNode) × (ir_node g id ≡ ok m)
        × ((x : GraphNode) × In x g.nodes × (x.id ≡ id) × IsNodeOf x id m)
  unfolding get_node
  node_at id known =
      let (n, i, same) = key_known (λ (x : GraphNode). x.id) g.nodes id known in
      let found = find_last-key (λ (x : GraphNode). x.id) g.nodes w.distinct i in
      let (m, made, part) =
        ir_node-parts g id n.id n.type n.content (subst (λ k. get_node g k ≡ some n) same found)
          (w.typed n i) (λ q e. r n q i e) in
      (m, made, (n, i, same, part))

  -- A compiled node of the graph.
  abbrev IsCompiled : IrNode → Type 0
  IsCompiled n =
      IsShaped n.kind n.question
      × ((x : GraphNode) × In x g.nodes × (x.id ≡ n.id) × (n.kind ≡ kind_of_type x.type) × Asks x n)

  nodes_at :
      (ids : List Text)
      → ((id : Text) → In id ids → mem id (node_ids g) ≡ true)
      → (ns : List IrNode) × (ir_nodes g ids ≡ ok ns)
        × (ids_of ns ≡ ids)
        × ((n : IrNode) → In n ns → IsCompiled n)
  unfolding ir_nodes
  nodes_at [] h = ([], refl, refl, λ n m. elim m [ ])
  nodes_at (id ∷ ids) h =
      let (n, a, (x, i, k, (same, shaped, typed, offers))) = node_at id (h id head) in
      let (ns, b, rest, all_compiled) = nodes_at ids (λ k m. h k (tail m)) in
      rw (a, b)
        (
          n ∷ ns,
          refl,
          cc,
          λ y m. elim (In-cons m) [
            | inl e ↦ subst IsCompiled (sym e) (shaped, (x, i, k ∙ sym same, typed, offers))
            | inr later ↦ all_compiled y later
          ],
        )

  -- A well-formed graph of radio questions compiles. What it compiles to has the current version, the
  -- graph's nodes in the order of their ids, each a question or a conclusion as in the graph, with a
  -- shape that fits its kind and the options of the graph's question, an edge only where the graph has
  -- one and for each edge of the graph one, and for each edge one guard with an id of its own and the
  -- label of the graph's edge.
  pub compile_dt_graph_to_ir-IsBuilt : (ir : Ir) × (compile_dt_graph_to_ir g ≡ ok ir) × IsBuilt g ir
  unfolding compile_dt_graph_to_ir
  compile_dt_graph_to_ir-IsBuilt =
      let (ns, a, same, compiled) =
        nodes_at (sort text_leb (distinct [] (node_ids g)))
          (λ id m. sym (mem-distinct_nil id (node_ids g)) ∙ In→mem (In-of_sort text_leb _ m)) in
      let es = sort edge_leb g.edges in
      rw a (
        _,
        refl,
        record {
          ids = same;
          shaped = λ n m. (compiled n m).0;
          drawn = λ e m.
              let (d, i, s, t) = edges_known 0 es m in (d, In-of_sort edge_leb g.edges i, s, t);
          labelled = λ e gd m n h.
              let (d, i, s, t, x) = labelled_lem 0 es m n h in
              (d, In-of_sort edge_leb g.edges i, s, t, x);
          kept = λ d m. kept_lem 0 es (In-sort edge_leb g.edges m);
          targets = λ k.
              ap (mem k) (targets-edges 0 es)
              ∙ mem-map-sort edge_leb (λ (e : GraphEdge). e.target) k g.edges;
          kinds = λ n m. let (_, (x, i, k, typed, _)) = compiled n m in (x, i, k, typed);
          asked = λ n s m e. let (_, (x, i, k, _, offers)) = compiled n m in (x, i, k, offers s e);
          version = refl;
          guards_distinct = Distinct-guards 0 es;
          paired = guard_ids-edges 0 es;
        },
      )
