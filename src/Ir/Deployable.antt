-- ===== src/Ir/Deployable.antt =====
-- From `validate_graph` and `has_cycle` of smeme/decision_tree/helpers/validation.py by the compiler of
-- smeme/reasoning/ir/dt_graph_to_ir.py to the checks of smeme/reasoning/ir/validate.py.
use mathlib.Core.WellFounded.{WellFounded}
use smeme.Base.{
  Text, text_leb, mem, In→mem, distinct, mem-distinct_nil, mem-sort, Distinct, Distinct-distinct,
  Distinct-sort, strip, is_nil, is_blank, is_blank-strip, ◌≡◌, ◌≢◌, refl, sym, subst, ap, ◌∙◌, true,
  false, Option, none, some, [], ◌∷◌, map, In, In-map, In-of_map, key_known, key_unique,
}
use smeme.Base.Result.{ok}
use smeme.Tree.Types.{DtGraph, GraphNode, GraphEdge}
use smeme.Tree.Queries.{node_ids}
use smeme.Tree.Strict.{validate_graph}
use smeme.Tree.Strict.Accepts.{targets, IsStrict, validate_graph-IsStrict}
use smeme.Tree.Cycle.{adjacency, has_cycle, no_cycle}
use smeme.Tree.Cycle.Exact.{edge-adjacency, has_cycle-WellFounded}
use smeme.Editor.WellFormed.{IsWellFormed}
use smeme.Ir.Types.{Ir, IrNode, IrEdge, Guard, IrQuestionShape, default_guard_expr}
use smeme.Ir.Build.{edge_expr, compile_dt_graph_to_ir}
use smeme.Ir.Built.{IsRadioOnly, IsBuilt, compile_dt_graph_to_ir-IsBuilt}
use smeme.Ir.Dag.Walk.{Child, Acc-sub}
use smeme.Ir.Dag.Acyclic.{Arrow}
use smeme.Ir.Validate.{is_valid}
use smeme.Ir.Validate.Spec.{IsValidIr, ids_of}
use smeme.Ir.Validate.Exact.{is_valid_iff}

not_nil : (t : Text) → t ≢ [] → is_nil t ≡ false
not_nil [] h = absurd (h refl)
not_nil (c ∷ t) h = refl

-- A label that is not the default one is what `strip` leaves of a condition.
labelled_condition :
    (c : Option Text) → (elim c [ none ↦ [] | some t ↦ strip t ]) ≢ [] → (t : Text) × (c ≡ some t)
labelled_condition none h = absurd (h refl)
labelled_condition (some t) h = (t, refl)

module _ (g : DtGraph) (strict : IsStrict g) (ir : Ir) (b : IsBuilt g ir) where
  known : (k : Text) → mem k (ids_of ir.nodes) ≡ mem k (node_ids g)
  known k =
      ap (mem k) b.ids
      ∙ mem-sort text_leb k (distinct [] (node_ids g))
      ∙ mem-distinct_nil k (node_ids g)

  ids_distinct : Distinct (ids_of ir.nodes)
  ids_distinct =
      subst Distinct (sym b.ids) (Distinct-sort text_leb _ (Distinct-distinct [] (node_ids g)))

  ends_known :
      (e : IrEdge)
      → In e ir.edges
      → (mem e.source (ids_of ir.nodes) ≡ true) × (mem e.target (ids_of ir.nodes) ≡ true)
  ends_known e m =
      let (d, i, s, t) = b.drawn e m in
      (
        known e.source ∙ subst (λ k. mem k (node_ids g) ≡ true) s (strict.source_known d i),
        known e.target ∙ subst (λ k. mem k (node_ids g) ≡ true) t (strict.target_known d i),
      )

  condition_of :
      (d : GraphEdge)
      → edge_expr d ≢ []
      → (t : Text) × (d.condition ≡ some t) × (edge_expr d ≡ strip t)
  unfolding edge_expr
  condition_of d h = let (t, e) = labelled_condition d.condition h in (t, e, rw e refl)

  offered_lem :
      (e : IrEdge) (n : IrNode) (gd : Guard) (q : IrQuestionShape)
      → In e ir.edges
      → In n ir.nodes
      → In gd ir.guards
      → n.id ≡ e.source
      → gd.id ≡ e.guard_id
      → n.question ≡ some q
      → gd.expr ≢ default_guard_expr
      → (is_blank gd.expr ≡ false) × (mem gd.expr q.options ≡ true)
  offered_lem e n gd q m i j from guarded asked filled =
      let (d, k, s, t, x) = b.labelled e gd m j guarded in
      let (y, l, same, (qd, has, options)) = b.asked n q i asked in
      let (c, has_condition, is_strip) = condition_of d (λ z. filled (sym x ∙ z)) in
      let expr : strip c ≡ gd.expr = sym is_strip ∙ x in
      let not_empty : is_nil (strip c) ≡ false = not_nil (strip c) (λ z. filled (sym expr ∙ z)) in
      (
        subst (λ z. is_blank z ≡ false) expr (is_blank-strip c ∙ not_empty),
        subst (λ z. mem z q.options ≡ true) expr
            (ap (mem (strip c)) options
              ∙ strict.offered y qd d c l has k (s ∙ sym from ∙ sym same) has_condition not_empty),
      )

  acyclic_lem : WellFounded (Child (adjacency g)) → WellFounded (Arrow ir.edges (ids_of ir.nodes))
  acyclic_lem wf = record { apply = λ u. Acc-sub arrow_child (wf.apply u) }
    where
      arrow_child : (u v : Text) → Arrow ir.edges (ids_of ir.nodes) v u → Child (adjacency g) v u
      arrow_child u v a =
          let (d, i, s, t) = b.drawn a.edge a.listed in
          subst (λ z. Child (adjacency g) v z) (s ∙ a.from)
            (subst (λ z. Child (adjacency g) z d.source) (t ∙ a.to) (edge-adjacency g d i))

  entry_lem :
      (n : IrNode) × In n ir.nodes
      × (mem n.id (map (λ (e : IrEdge). e.target) ir.edges) ≡ false)
      × ((m : IrNode)
          → In m ir.nodes
          → mem m.id (map (λ (e : IrEdge). e.target) ir.edges) ≡ false
          → m ≡ n)
  entry_lem =
      let (x, i, free, only) = strict.entry in
      let (n, j, same) =
        key_known (λ (n : IrNode). n.id) ir.nodes x.id
          (known x.id ∙ In→mem (In-map (λ (y : GraphNode). y.id) i)) in
      (
        n,
        j,
        b.targets n.id ∙ subst (λ k. mem k (targets g) ≡ false) (sym same) free,
        λ m l lonely.
            let (y, k, e) =
              key_known (λ (y : GraphNode). y.id) g.nodes m.id
                (sym (known m.id) ∙ In→mem (In-map (λ (z : IrNode). z.id) l)) in
            let is_x : y ≡ x =
              only y k
                (subst (λ z. mem z (targets g) ≡ false) (sym e) (sym (b.targets m.id) ∙ lonely)) in
            key_unique (λ (z : IrNode). z.id) ir.nodes ids_distinct l j
              (sym e ∙ ap (λ (z : GraphNode). z.id) is_x ∙ sym same),
      )

  valid_lem : WellFounded (Child (adjacency g)) → IsValidIr ir
  valid_lem wf = record {
    version = b.version;
    nodes_distinct = ids_distinct;
    guards_distinct = b.guards_distinct;
    shaped = b.shaped;
    source_known = λ e m. (ends_known e m).0;
    target_known = λ e m. (ends_known e m).1;
    guard_known = λ e m.
        subst (λ l. mem e.guard_id l ≡ true) (sym b.paired)
          (In→mem (In-map (λ (x : IrEdge). x.guard_id) m));
    guard_used = λ gd m.
        In-of_map (λ (x : IrEdge). x.guard_id) ir.edges
          (subst (λ l. In gd.id l) b.paired (In-map (λ (x : Guard). x.id) m));
    offered = λ e n gd q m i j from guarded kind asked filled.
        offered_lem e n gd q m i j from guarded asked filled;
    acyclic = acyclic_lem wf;
    one_entry = entry_lem;
  }

-- A well-formed graph of radio questions that `validate_graph` accepts and in which `has_cycle` finds
-- no cycle compiles, and `validate_ir` reports no error for the result.
pub compile_dt_graph_to_ir-is_valid :
    (g : DtGraph)
    → IsWellFormed g
    → IsRadioOnly g
    → validate_graph g ≡ ok tt
    → has_cycle g ≡ no_cycle
    → (ir : Ir) × (compile_dt_graph_to_ir g ≡ ok ir) × (is_valid ir ≡ true)
compile_dt_graph_to_ir-is_valid g w radio strict acyclic =
    let (ir, compiled, b) = compile_dt_graph_to_ir-IsBuilt g w radio in
    (
      ir,
      compiled,
      (is_valid_iff ir).1 (
          valid_lem g (validate_graph-IsStrict g strict) ir b
            ((has_cycle-WellFounded g w).0 acyclic)),
    )
