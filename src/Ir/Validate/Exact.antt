-- ===== src/Ir/Validate/Exact.antt =====
-- `validate_ir` of smeme/reasoning/ir/validate.py against its specification.
use mathlib.Core.WellFounded.{WellFounded}
use smeme.Base.{
  nil_of_is_nil, flat-nil, ◌∙◌, In, sym, nil-flat, Text, mem, ◌≡◌, refl, ◌↔◌, true, List, [], ◌∷◌,
  map, append-eq-nil, arith, flat, nat_beq, not, report,
}
use smeme.Ir.Types.{Ir, IrEdge, ir_format_version}
use smeme.Ir.Dag.{DagError, dag_structure_errors}
use smeme.Ir.Dag.Walk.{Acc-sub}
use smeme.Ir.Dag.Acyclic.{Arrow, dag_structure_errors-nil_iff}
use smeme.Ir.Validate.{
  version_mismatch, dag_error, node_errors, guard_errors, edge_errors, unused_errors, expr_errors,
  node_ids, guard_ids, validate_ir, is_valid,
}
use smeme.Ir.Validate.Spec.{IsValidIr, ids_of}
use smeme.Ir.Validate.Passes.{mem-node_ids, node_errors-nil, guard_errors-nil, edge_errors-nil}
use smeme.Ir.Validate.Lookups.{unused_errors-nil, expr_errors-nil, entry_errors-nil}

map-nil : (xs : List DagError) → map dag_error xs ≡ [] → xs ≡ []
map-nil [] h = refl
map-nil (x ∷ xs) h = absurd (cc)

-- The set `node_ids` and the list of the ids have the same arrows.
Arrow-ids :
    (edges : List IrEdge) (xs ys : List Text)
    → ((a : Text) → mem a xs ≡ mem a ys)
    → (u v : Text) → Arrow edges xs v u
    → Arrow edges ys v u
Arrow-ids edges xs ys h u v a = record {
  edge = a.edge;
  listed = a.listed;
  from = a.from;
  to = a.to;
  source_known = sym (h u) ∙ a.source_known;
  target_known = sym (h v) ∙ a.target_known;
}

module _ (ir : Ir) where
  dag-nil :
      (map dag_error (dag_structure_errors ir.edges (node_ids ir)) ≡ [])
      ↔ WellFounded (Arrow ir.edges (ids_of ir.nodes))
  dag-nil = (
    λ h.
        let w = (dag_structure_errors-nil_iff ir.edges (node_ids ir)).0 (map-nil _ h) in
        record {
          apply = λ u.
              Acc-sub
                (Arrow-ids ir.edges (ids_of ir.nodes) (node_ids ir) (λ a. sym (mem-node_ids ir a)))
                (w.apply u);
        },
    λ w.
        rw
          ((dag_structure_errors-nil_iff ir.edges (node_ids ir)).1 (record {
            apply = λ u.
                Acc-sub (Arrow-ids ir.edges (node_ids ir) (ids_of ir.nodes) (mem-node_ids ir))
                  (w.apply u);
          }))
          refl,
  )

  -- Whatever `validate_ir` lets through is valid.
  sound : validate_ir ir ≡ [] → IsValidIr ir
  unfolding validate_ir
  sound h =
      let (version, h1) =
        append-eq-nil
          (report (not (nat_beq ir.format_version ir_format_version))
            (version_mismatch ir.format_version))
          _ h in
      let (nodes, h2) = append-eq-nil (node_errors [] ir.nodes) _ h1 in
      let (guards, h3) = append-eq-nil (guard_errors [] ir.guards) _ h2 in
      let (edges, h4) = append-eq-nil (flat (edge_errors ir) ir.edges) _ h3 in
      let (unused, h5) = append-eq-nil (flat (unused_errors ir) (guard_ids ir)) _ h4 in
      let (exprs, h6) = append-eq-nil (flat (expr_errors ir) ir.edges) _ h5 in
      let (dag, entry) =
        append-eq-nil (map dag_error (dag_structure_errors ir.edges (node_ids ir))) _ h6 in
      let (distinct_nodes, shaped) = (node_errors-nil ir.nodes).0 nodes in
      let distinct_guards = (guard_errors-nil ir.guards).0 guards in
      let resolved = λ (e : IrEdge) (m : In e ir.edges).
        (edge_errors-nil ir e).0 (flat-nil (edge_errors ir) ir.edges edges e m) in
      record {
        version = ground arith;
        nodes_distinct = distinct_nodes;
        guards_distinct = distinct_guards;
        shaped = shaped;
        source_known = λ e m. (resolved e m).0;
        target_known = λ e m. (resolved e m).1;
        guard_known = λ e m. (resolved e m).2;
        guard_used = (unused_errors-nil ir).0 unused;
        offered =
            λ e n g q l. (expr_errors-nil ir distinct_nodes distinct_guards).0 exprs e l n g q;
        acyclic = dag-nil.0 dag;
        one_entry = (entry_errors-nil ir distinct_nodes).0 entry;
      }

  -- Whatever is valid is let through.
  complete : IsValidIr ir → validate_ir ir ≡ []
  unfolding validate_ir
  complete v = simp (
    v.version,
    (node_errors-nil ir.nodes).1 (v.nodes_distinct, v.shaped),
    (guard_errors-nil ir.guards).1 v.guards_distinct,
    nil-flat (edge_errors ir) ir.edges (λ e m.
        (edge_errors-nil ir e).1 (v.source_known e m, v.target_known e m, v.guard_known e m)),
    (unused_errors-nil ir).1 v.guard_used,
    (expr_errors-nil ir v.nodes_distinct v.guards_distinct).1 (λ e l n g q. v.offered e n g q l),
    dag-nil.1 v.acyclic,
    (entry_errors-nil ir v.nodes_distinct).1 v.one_entry,
  )

  -- `validate_ir` reports no error exactly for the `Ir`s with the current version, distinct ids,
  -- well-shaped nodes, resolved and used guards, offered labels, no directed cycle and one entry.
  pub is_valid_iff : (is_valid ir ≡ true) ↔ IsValidIr ir
  unfolding is_valid
  is_valid_iff = (λ h. sound (nil_of_is_nil _ h), λ v. rw (complete v) refl)
