-- ===== src/Tree/Cycle/Exact.antt =====
-- About `has_cycle` of smeme/decision_tree/helpers/validation.py, for graphs of the editor.
use std.Path.{fun_ext}
use mathlib.Core.WellFounded.{WellFounded}
use smeme.Base.{
  Text, ◌==◌, mem, In→mem, mem→In, eq_refl, ==→eq, ◌≡◌, refl, subst, ◌↔◌, true, false, List, [],
  ◌∷◌, ◌++◌, map, In, In-keep, In-of_keep, In-map, In-of_map, Bool-cases, inl, inr, arith,
  key_known, ◌||◌,
}
use smeme.Ir.Dag.{Outcome, finished, cycle_found, out_of_fuel, dfs_all, dfs_fuel, all_unseen}
use smeme.Ir.Dag.Walk.{Child, Acc-not-closed}
use smeme.Ir.Dag.Search.{Verdict, dfs_all-Verdict}
use smeme.Tree.Types.{DtGraph, GraphNode, GraphEdge, is_node_id}
use smeme.Tree.Queries.{node_ids, get_outgoing_edges}
use smeme.Tree.Cycle.{
  CycleReport, no_cycle, cycle_detected, unfinished, adjacency, unvisited, enterable, has_cycle,
}
use smeme.Tree.Cycle.Colors.{color, Agrees, all-Agrees}
use smeme.Editor.WellFormed.{IsWellFormed}

color-unvisited : color unvisited ≡ all_unseen
unfolding color
color-unvisited = fun_ext (λ k. refl)

mem-append : (k : Text) (xs ys : List Text) → mem k (xs ++ ys) ≡ (mem k xs || mem k ys)
mem-append k [] ys = refl
mem-append k (x ∷ xs) ys = ground (arith, mem-append k xs ys)

module _ (g : DtGraph) where
  -- A successor comes from an edge.
  pub adjacency-edge :
      (u v : Text)
      → Child (adjacency g) v u
      → (e : GraphEdge) × In e g.edges × (e.source ≡ u) × (e.target ≡ v)
  unfolding adjacency get_outgoing_edges
  adjacency-edge u v c =
      let (e, m, to) = In-of_map (λ (x : GraphEdge). x.target) _ (mem→In v _ c) in
      let (listed, from) = In-of_keep (λ (x : GraphEdge). x.source == u) g.edges m in
      (e, listed, ==→eq e.source u from, to)

  pub edge-adjacency : (e : GraphEdge) → In e g.edges → Child (adjacency g) e.target e.source
  unfolding adjacency get_outgoing_edges
  edge-adjacency e m = In→mem (
      In-map (λ (x : GraphEdge). x.target)
        (In-keep (λ (x : GraphEdge). x.source == e.source) m (eq_refl e.source)))

  Child-enterable : (u v : Text) → Child (adjacency g) v u → mem v (enterable g) ≡ true
  Child-enterable u v c =
      let (e, m, s, t) = adjacency-edge u v c in
      let target : mem v (map (λ (x : GraphEdge). x.target) g.edges) ≡ true =
        subst (λ k. mem k (map (λ (x : GraphEdge). x.target) g.edges) ≡ true) t
          (In→mem (In-map (λ (x : GraphEdge). x.target) m)) in
      ground (arith, mem-append v (node_ids g) (map (λ (x : GraphEdge). x.target) g.edges))

  module _ (w : IsWellFormed g) where
    enterable_known : (v : Text) → mem v (enterable g) ≡ true → mem v (node_ids g) ≡ true
    enterable_known v h = elim (Bool-cases (mem v (node_ids g))) [
      | inl known ↦ known
      | inr out ↦
          let target : mem v (map (λ (x : GraphEdge). x.target) g.edges) ≡ true =
            ground (arith, mem-append v (node_ids g) (map (λ (x : GraphEdge). x.target) g.edges)) in
          let (e, m, t) = In-of_map (λ (x : GraphEdge). x.target) g.edges (mem→In v _ target) in
          subst (λ k. mem k (node_ids g) ≡ true) t (w.target_known e m)
    ]

    pub no_empty_id : mem [] (node_ids g) ≡ false
    unfolding is_node_id
    no_empty_id = elim (Bool-cases (mem [] (node_ids g))) [
      | inl known ↦
          let (n, m, e) = key_known (λ (x : GraphNode). x.id) g.nodes [] known in
          absurd (cc (subst (λ k. is_node_id k ≡ true) e (w.named n m)))
      | inr fine ↦ fine
    ]

    pub named_targets : (u : Text) → mem [] (adjacency g u) ≡ false
    named_targets u = elim (Bool-cases (mem [] (adjacency g u))) [
      | inl c ↦
          let (e, m, s, t) = adjacency-edge u [] c in
          absurd (cc (subst (λ k. mem k (node_ids g) ≡ true) t (w.target_known e m), no_empty_id))
      | inr fine ↦ fine
    ]

    report_lem :
        (r : CycleReport) (o : Outcome)
        → Agrees r o
        → Verdict (adjacency g) o
        → (r ≡ no_cycle) ↔ WellFounded (Child (adjacency g))
    report_lem no_cycle (finished st) a v = (λ e. v, λ wf. refl)
    report_lem (cycle_detected p) cycle_found a (u, walk) =
        (λ e. absurd (cc), λ wf. absurd (Acc-not-closed (adjacency g) (wf.apply u) walk))
    report_lem r out_of_fuel a v = absurd v
    report_lem no_cycle cycle_found a v = absurd a
    report_lem (cycle_detected p) (finished st) a v = absurd a
    report_lem unfinished (finished st) a v = absurd a
    report_lem unfinished cycle_found a v = absurd a

    -- In a well-formed graph `has_cycle` finds no cycle exactly if the graph has none: if no path along
    -- its edges goes on for ever.
    pub has_cycle-WellFounded : (has_cycle g ≡ no_cycle) ↔ WellFounded (Child (adjacency g))
    unfolding has_cycle
    has_cycle-WellFounded =
        report_lem _ _
          (subst
            (λ st.
              Agrees (has_cycle g)
                (dfs_all (adjacency g) (dfs_fuel (adjacency g) (enterable g)) st (node_ids g)))
            color-unvisited
            (all-Agrees (adjacency g) named_targets (dfs_fuel (adjacency g) (enterable g)) unvisited
              (node_ids g)))
          (dfs_all-Verdict (adjacency g) (enterable g) Child-enterable
            (λ u v c.
              let (e, m, s, t) = adjacency-edge u v c in
              let known = subst (λ k. mem k (node_ids g) ≡ true) s (w.source_known e m) in
              ground (arith, mem-append u (node_ids g) (map (λ (x : GraphEdge). x.target) g.edges)))
            (node_ids g)
            (λ u m.
              let known = In→mem m in
              ground (arith, mem-append u (node_ids g) (map (λ (x : GraphEdge). x.target) g.edges)))
            (λ u k. mem→In u (node_ids g) (enterable_known u k)))
