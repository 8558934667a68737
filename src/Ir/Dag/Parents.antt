-- ===== src/Ir/Dag/Parents.antt =====
-- The parents of a node, by the search of Ir.Dag on the graph with its edges turned round.
use mathlib.Core.WellFounded.{WellFounded}
use smeme.Base.{
  Text, text_leb, sort, mem→In, In→mem, ◌≡◌, false, List, map, Bool-cases, In, In-map, In-of_map,
  In-sort, In-of_sort, inl, inr, ap, ◌∙◌,
}
use smeme.Ir.Types.{IrEdge}
use smeme.Ir.Dag.{Outcome, finished, cycle_found, out_of_fuel, successors, is_self_loop}
use smeme.Ir.Dag.Walk.{Acc-sub, Child, Walk, arc, more, Walk-cons, Acc-not-closed}
use smeme.Ir.Dag.Search.{Verdict, dfs_all-Verdict}
use smeme.Ir.Dag.Acyclic.{Arrow, Child→Arrow, Arrow→Child, loop-Arrow, Acc-irrefl}

abbrev flip : IrEdge → IrEdge
flip e = record e { source = e.target; target = e.source }

module _ (edges : List IrEdge) (ids : List Text) where
  unflip : (u v : Text) → Arrow (map flip edges) ids v u → Arrow edges ids u v
  unflip u v a =
      let (e, m, same) = In-of_map flip edges a.listed in
      record {
        edge = e;
        listed = m;
        from = ap (λ (x : IrEdge). x.target) same ∙ a.to;
        to = ap (λ (x : IrEdge). x.source) same ∙ a.from;
        source_known = a.target_known;
        target_known = a.source_known;
      }

  turn : (u v : Text) → Arrow edges ids u v → Arrow (map flip edges) ids v u
  turn u v a = record {
    edge = flip a.edge;
    listed = In-map flip a.listed;
    from = a.to;
    to = a.from;
    source_known = a.target_known;
    target_known = a.source_known;
  }

  module _ (w : WellFounded (Arrow edges ids)) where
    no_loop : (e : IrEdge) → In e edges → is_self_loop ids e ≡ false
    no_loop e m = elim (Bool-cases (is_self_loop ids e)) [
      | inl l ↦ absurd (Acc-irrefl edges ids (w.apply e.source) (loop-Arrow edges ids e m l))
      | inr n ↦ n
    ]

    no_loop_flipped : (e : IrEdge) → In e (map flip edges) → is_self_loop ids e ≡ false
    no_loop_flipped e m = elim (Bool-cases (is_self_loop ids e)) [
      | inl l ↦ absurd (
          Acc-irrefl edges ids (w.apply e.source)
            (unflip e.source e.source (loop-Arrow (map flip edges) ids e m l)))
      | inr n ↦ n
    ]

    Child-turn :
        (u v : Text)
        → Child (successors (map flip edges) ids) v u
        → Child (successors edges ids) u v
    Child-turn u v c =
        Arrow→Child edges ids no_loop v u (unflip u v (Child→Arrow (map flip edges) ids u v c))

    Walk-turn :
        {u v : Text} → Walk (successors (map flip edges) ids) u v → Walk (successors edges ids) v u
    Walk-turn (arc c) = arc (Child-turn _ _ c)
    Walk-turn (more r c) = Walk-cons (successors edges ids) (Child-turn _ _ c) (Walk-turn r)

    children : WellFounded (Child (successors edges ids))
    children = record { apply = λ u. Acc-sub (Child→Arrow edges ids) (w.apply u) }

    -- Every descent along parents ends.
    pub parents : WellFounded (λ u v. Arrow edges ids v u)
    parents = read _ (
        dfs_all-Verdict (successors (map flip edges) ids) ids
          (λ u x c. (Child→Arrow (map flip edges) ids u x c).target_known)
          (λ u x c. (Child→Arrow (map flip edges) ids u x c).source_known) (sort text_leb ids)
          (λ u m. In→mem (In-of_sort text_leb ids m))
          (λ u m. In-sort text_leb ids (mem→In u ids m)))
      where
        read :
            (o : Outcome)
            → Verdict (successors (map flip edges) ids) o
            → WellFounded (λ u v. Arrow edges ids v u)
        read (finished st) f = record {
          apply = λ u.
              Acc-sub (λ x y a. Arrow→Child (map flip edges) ids no_loop_flipped x y (turn x y a))
                (f.apply u);
        }
        read cycle_found (u, r) =
            absurd (Acc-not-closed (successors edges ids) (children.apply u) (Walk-turn r))
        read out_of_fuel p = absurd p
