-- ===== src/Ir/Dag/Acyclic.antt =====
-- About `_dag_structure_errors` of smeme/reasoning/ir/validate.py, and the arrows of its edges.
use mathlib.Core.WellFounded.{Acc, WellFounded}
use smeme.Base.{
  Text, ◌==◌, text_leb, sort, mem, mem→In, In→mem, ==→eq, eq_refl, ◌≡◌, ◌≢◌, refl, ◌↔◌, true, false,
  ◌&&◌, List, [], map, keep, Bool-cases, In, In-keep, In-of_keep, In-map, In-of_map, append-eq-nil,
  In-nil, nil_of_none, In-sort, In-of_sort, arith, inl, inr, subst, sym,
}
use smeme.Ir.Types.{IrEdge}
use smeme.Ir.Dag.{
  Outcome, finished, cycle_found, out_of_fuel, is_arc, successors, is_self_loop, has_cycle, dfs_all,
  dfs_fuel, all_unseen, self_loop, dag_structure_errors,
}
use smeme.Ir.Dag.Walk.{Acc-sub, Child, Acc-not-closed}
use smeme.Ir.Dag.Search.{Verdict, dfs_all-Verdict}

module _ (edges : List IrEdge) (ids : List Text) where
  -- An edge from `u` to `v` whose ends are known nodes, a self-loop too.
  pub record Arrow (v u : Text) : Type 0 where
    pub edge : IrEdge
    pub listed : In edge edges
    pub from : edge.source ≡ u
    pub to : edge.target ≡ v
    pub source_known : mem u ids ≡ true
    pub target_known : mem v ids ≡ true

  -- An edge that `adj` holds, read from its two ends.
  is_arc-parts :
      (e : IrEdge) (u : Text)
      → (is_arc ids e && e.source == u) ≡ true
      → (mem e.source ids ≡ true) × (mem e.target ids ≡ true) × (e.source ≡ u)
  unfolding is_arc
  is_arc-parts e u h = ground (arith, ==→eq e.source u)

  pub Child→Arrow : (u v : Text) → Child (successors edges ids) v u → Arrow v u
  unfolding successors
  Child→Arrow u v c =
      let (e, m, to) = In-of_map (λ (x : IrEdge). x.target) _ (mem→In v _ c) in
      let (listed, arc) = In-of_keep (λ (x : IrEdge). is_arc ids x && x.source == u) edges m in
      let (known, target_known, from) = is_arc-parts e u arc in
      record {
        edge = e;
        listed = listed;
        from = from;
        to = to;
        source_known = subst (λ x. mem x ids ≡ true) from known;
        target_known = subst (λ x. mem x ids ≡ true) to target_known;
      }

  is_arc-of :
      (e : IrEdge)
      → mem e.source ids ≡ true
      → mem e.target ids ≡ true
      → is_self_loop ids e ≡ false
      → (is_arc ids e && e.source == e.source) ≡ true
  unfolding is_arc is_self_loop
  is_arc-of e s t h = ground (arith, eq_refl e.source)

  pub Arrow→Child :
      ((e : IrEdge) → In e edges → is_self_loop ids e ≡ false)
      → (u v : Text) → Arrow v u
      → Child (successors edges ids) v u
  unfolding successors
  Arrow→Child no_loop u v a =
      let e = a.edge in
      let known : mem e.source ids ≡ true =
        subst (λ x. mem x ids ≡ true) (sym a.from) a.source_known in
      let target_known : mem e.target ids ≡ true =
        subst (λ x. mem x ids ≡ true) (sym a.to) a.target_known in
      let kept =
        In-keep (λ (x : IrEdge). is_arc ids x && x.source == u) a.listed
          (subst (λ x. (is_arc ids e && e.source == x) ≡ true) a.from
            (is_arc-of e known target_known (no_loop e a.listed))) in
      subst (λ x. Child (successors edges ids) x u) a.to
        (In→mem (In-map (λ (x : IrEdge). x.target) kept))

  pub Acc-irrefl : {S : Text → Text → Type 0} {u : Text} → Acc S u → S u u → ⊥
  Acc-irrefl (Acc.intro u smaller) s = Acc-irrefl (smaller u s) s

  -- What the search that `has_cycle` makes has found.
  search-Verdict : Verdict (successors edges ids) (
      dfs_all
        (successors edges ids)
        (dfs_fuel (successors edges ids) ids)
        all_unseen
        (sort text_leb ids))
  search-Verdict =
      dfs_all-Verdict (successors edges ids) ids (λ u w c. (Child→Arrow u w c).target_known)
        (λ u w c. (Child→Arrow u w c).source_known) (sort text_leb ids)
        (λ u m. In→mem (In-of_sort text_leb ids m)) (λ u m. In-sort text_leb ids (mem→In u ids m))

  -- On the fuel that `has_cycle` gives it, the search for a cycle ends: it never runs out of fuel,
  -- whatever the edges and the ids are.
  pub dfs_all_ends :
      dfs_all
        (successors edges ids)
        (dfs_fuel (successors edges ids) ids)
        all_unseen
        (sort text_leb ids)
      ≢ out_of_fuel
  dfs_all_ends e = subst (Verdict (successors edges ids)) e search-Verdict

  has_cycle-verdict :
      (has_cycle edges ids ≡ false → WellFounded (Child (successors edges ids)))
      × (WellFounded (Child (successors edges ids)) → has_cycle edges ids ≡ false)
  unfolding has_cycle
  has_cycle-verdict = read _ search-Verdict
    where
      read :
          (o : Outcome)
          → Verdict (successors edges ids) o
          → ((elim o [ finished _ ↦ false | _ ↦ true ]) ≡ false
              → WellFounded (Child (successors edges ids)))
            × (WellFounded (Child (successors edges ids))
                → (elim o [ finished _ ↦ false | _ ↦ true ]) ≡ false)
      read (finished st) w = (λ _. w, λ _. refl)
      read cycle_found (u, r) = (λ e. absurd (cc), λ w. absurd (Acc-not-closed _ (w.apply u) r))
      read out_of_fuel p = absurd p

  pub loop-Arrow : (e : IrEdge) → In e edges → is_self_loop ids e ≡ true → Arrow e.source e.source
  unfolding is_self_loop
  loop-Arrow e m h = record {
    edge = e;
    listed = m;
    from = refl;
    to = sym (==→eq e.source e.target (ground arith));
    source_known = ground arith;
    target_known = ground arith;
  }

  -- `_dag_structure_errors` reports nothing exactly when the arrows between known nodes, self-loops
  -- included, are well founded: no infinite descent, and so no directed cycle.
  pub dag_structure_errors-nil_iff : (dag_structure_errors edges ids ≡ []) ↔ WellFounded Arrow
  unfolding dag_structure_errors
  dag_structure_errors-nil_iff = (to, from)
    where
      acyclic : dag_structure_errors edges ids ≡ [] → has_cycle edges ids ≡ false
      acyclic e =
          let (_, q) = append-eq-nil (map self_loop (keep (is_self_loop ids) edges)) _ e in
          ground arith

      no_loop :
          dag_structure_errors edges ids ≡ []
          → (e : IrEdge) → In e edges
          → is_self_loop ids e ≡ false
      no_loop h e m = elim (Bool-cases (is_self_loop ids e)) [
        | inl yes_loop ↦ absurd (
            In-nil (append-eq-nil (map self_loop (keep (is_self_loop ids) edges)) _ h).0
              (In-map self_loop (In-keep (is_self_loop ids) m yes_loop)))
        | inr fine ↦ fine
      ]

      to : dag_structure_errors edges ids ≡ [] → WellFounded Arrow
      to h = record {
        apply = λ u.
            Acc-sub (λ x y. Arrow→Child (no_loop h) x y)
              ((has_cycle-verdict.0 (acyclic h)).apply u);
      }

      from : WellFounded Arrow → dag_structure_errors edges ids ≡ []
      from w =
          let children : WellFounded (Child (successors edges ids)) = record {
            apply = λ u. Acc-sub Child→Arrow (w.apply u);
          } in
          let loops : map self_loop (keep (is_self_loop ids) edges) ≡ [] = nil_of_none _ (λ d m.
            let (e, n, _) = In-of_map self_loop (keep (is_self_loop ids) edges) m in
            let (listed, l) = In-of_keep (is_self_loop ids) edges n in
            Acc-irrefl (w.apply e.source) (loop-Arrow e listed l)) in
          rw (loops, has_cycle-verdict.1 children) refl
