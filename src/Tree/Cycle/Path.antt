-- ===== src/Tree/Cycle/Path.antt =====
-- The path that `has_cycle` of smeme/decision_tree/helpers/validation.py reports.
use smeme.Base.{
  ℕ, zero, suc, ◌≤◌, Text, ◌==◌, eq_iff, eq_refl, ==→eq, mem, is_nil, true, false, ◌≡◌, ◌≢◌, refl,
  sym, ◌∙◌, subst, inl, inr, Option, none, some, List, [], ◌∷◌, ◌++◌, length, reverse, Bool-cases,
  arith,
}
use smeme.Ir.Dag.{Frame, dfs_fuel}
use smeme.Ir.Dag.Walk.{Child}
use smeme.Ir.Dag.Invariant.{OnStack, top, below, OnStack-pop, OnStack-top}
use smeme.Tree.Types.{DtGraph}
use smeme.Tree.Queries.{node_ids}
use smeme.Tree.Cycle.{
  CycleState, set_parent, enter, leave, CycleOutcome, exhausted, back_to, stuck, CycleReport,
  cycle_detected, unfinished, ancestors, cycle_path, cycle_loop, cycle_dfs, cycle_all, unvisited,
  adjacency, enterable, has_cycle,
}
use smeme.Tree.Cycle.Colors.{mem-removed}
use smeme.Tree.Cycle.Exact.{named_targets, no_empty_id}
use smeme.Editor.WellFormed.{IsWellFormed}

parent_same : (s : CycleState) (k p : Text) → (set_parent s k p).parent k ≡ some p
unfolding set_parent
parent_same s k p = ground (arith, eq_refl k)

parent_other : (s : CycleState) (k p j : Text) → k ≢ j → (set_parent s k p).parent j ≡ s.parent j
unfolding set_parent
parent_other s k p j h = ground (arith, eq_iff k j)

head_filled : (v : Text) → v ≢ [] → is_nil v ≡ false
head_filled [] h = absurd (h refl)
head_filled (c ∷ v) h = refl

module _ (adj : Text → List Text) where
  -- Each node of the list is entered from the next one.
  abbrev pub Back : List Text → Type 0
  Back [] = Unit
  Back (x ∷ []) = Unit
  Back (x ∷ y ∷ l) = Child adj x y × Back (y ∷ l)

  -- Each node on the stack has the node below it as its parent.
  abbrev Stack : (Text → Option Text) → Option Text → List Frame → Type 0
  Stack parent above [] = Unit
  Stack parent above ((u, vs) ∷ rest) =
      ((x : Text) → mem x vs ≡ true → Child adj x u)
      × (is_nil u ≡ false)
      × ((w : Text) → above ≡ some w → (parent w ≡ some u) × Child adj w u)
      × Stack parent (some u) rest

  Stack-mono :
      (p q : Text → Option Text) (above : Option Text) (frames : List Frame)
      → ((w : Text) → above ≡ some w → q w ≡ p w)
      → ((w : Text) → OnStack w frames → q w ≡ p w)
      → Stack p above frames
      → Stack q above frames
  Stack-mono p q above [] first same h = tt
  Stack-mono p q above ((u, vs) ∷ rest) first same (reads, filled, link, more) = (
    reads,
    filled,
    (λ w e. let (a, c) = link w e in (first w e ∙ a, c)),
    Stack-mono p q (some u) rest (λ w e. same w (subst (λ z. OnStack z ((u, vs) ∷ rest)) (cc) top))
        (λ w m. same w (below m)) more,
  )

  record PathInv (s : CycleState) (frames : List Frame) : Type 0 where
    stack : Stack s.parent none frames
    on_stack : (k : Text) → mem k s.rec_stack ≡ true → OnStack k frames
    seen : (k : Text) → OnStack k frames → mem k s.visited ≡ true
    height : length frames ≤ length s.visited

  PathInv-skip :
      (s : CycleState) (u v : Text) (vs : List Text) (rest : List Frame)
      → PathInv s ((u, v ∷ vs) ∷ rest)
      → PathInv s ((u, vs) ∷ rest)
  PathInv-skip s u v vs rest inv =
      let (reads, filled, link, more) = inv.stack in
      record {
        stack = ((λ x m. reads x (ground arith)), filled, link, more);
        on_stack = λ k m. OnStack-top (inv.on_stack k m);
        seen = λ k m. inv.seen k (OnStack-top m);
        height = inv.height;
      }

  PathInv-pop :
      (s : CycleState) (u : Text) (rest : List Frame)
      → PathInv s ((u, []) ∷ rest)
      → PathInv (leave s u) rest
  unfolding leave
  PathInv-pop s u rest inv =
      let (reads, filled, link, more) = inv.stack in
      record {
        stack = top_free rest more;
        on_stack = λ k m.
            let other = mem-removed u k s.rec_stack in
            elim (OnStack-pop (inv.on_stack k (ground arith))) [
              | inl e ↦ absurd (ground (arith, eq_iff u k))
              | inr later ↦ later
            ];
        seen = λ k m. inv.seen k (below m);
        height = omega (arith, inv.height);
      }
    where
      top_free : (frames : List Frame) → Stack s.parent (some u) frames → Stack s.parent none frames
      top_free [] h = tt
      top_free ((w, ws) ∷ frames) (a, b, c, d) = (a, b, (λ x e. absurd (cc)), d)

  PathInv-push :
      (s : CycleState) (u v : Text) (vs : List Text) (rest : List Frame)
      → v ≢ []
      → mem v s.visited ≡ false
      → PathInv s ((u, v ∷ vs) ∷ rest)
      → PathInv (enter (set_parent s v u) v) ((v, adj v) ∷ (u, vs) ∷ rest)
  unfolding enter set_parent
  PathInv-push s u v vs rest named new inv =
      let (reads, filled, link, more) = inv.stack in
      let other : (w : Text)
          → OnStack w ((u, vs) ∷ rest)
          → (set_parent s v u).parent w ≡ s.parent w =
        λ w m. parent_other s v u w (λ e. cc (inv.seen w (OnStack-top m))) in
      let (_, _, _, below_u) =
        Stack-mono s.parent (set_parent s v u).parent none ((u, vs) ∷ rest) (λ w e. absurd (cc))
          other ((λ x m. reads x (ground arith)), filled, (λ w e. absurd (cc)), more) in
      record {
        stack = (
          (λ x m. m),
          head_filled v named,
          (λ w e. absurd (cc)),
          (
            (λ x m. reads x (ground arith)),
            filled,
            (λ w e.
                subst (λ z. ((set_parent s v u).parent z ≡ some u) × Child adj z u) (cc)
                  (parent_same s v u, reads v (ground (arith, eq_refl v)))),
            below_u,
          ),
        );
        on_stack = λ k m. elim (Bool-cases (v == k)) [
          | inl e ↦ subst (λ z. OnStack z ((v, adj v) ∷ (u, vs) ∷ rest)) (==→eq v k e) top
          | inr e ↦ below (OnStack-top (inv.on_stack k (ground arith)))
        ];
        seen = λ k m. elim (OnStack-pop m) [
          | inl e ↦ rw e (ground (arith, eq_refl v))
          | inr later ↦ let old = inv.seen k (OnStack-top later) in ground arith
        ];
        height = omega (arith, inv.height);
      }

  -- The walk over the parents comes back to `v`, which stands on the stack.
  ancestors_lem :
      (fuel : ℕ) (p q : Text → Option Text) (v x u : Text) (vs : List Text) (rest : List Frame)
      → length ((u, vs) ∷ rest) ≤ fuel
      → ((w : Text) → v ≢ w → q w ≡ p w)
      → Stack p none ((u, vs) ∷ rest)
      → OnStack v ((u, vs) ∷ rest)
      → Child adj x u
      → Back (x ∷ (ancestors fuel q v (some u) ++ v ∷ []))
  unfolding ancestors
  ancestors_lem zero p q v x u vs rest h same st m c = absurd (omega arith)
  ancestors_lem (suc fuel) p q v x u vs rest h same (reads, filled, link, more) m c =
      elim (Bool-cases (u == v)) [
        | inl e ↦ rw (ancestors, filled, e) (subst (λ z. Child adj x z) (==→eq u v e) c, tt)
        | inr e ↦ elim (OnStack-pop m) [
          | inl here ↦ absurd (ground (arith, eq_iff u v))
          | inr later ↦
              rw (ancestors, filled, e)
                (
                  c,
                  next rest more later (omega arith) (λ same'. ground (arith, eq_iff u v))
                      (λ w ws rest'. ancestors_lem fuel p q v u w ws rest'),
                )
        ]
      ]
    where
      next :
          (frames : List Frame)
          → Stack p (some u) frames
          → OnStack v frames
          → length frames ≤ fuel
          → v ≢ u
          → ((w : Text) (ws : List Text) (rest' : List Frame)
              → length ((w, ws) ∷ rest') ≤ fuel
              → ((k : Text) → v ≢ k → q k ≡ p k)
              → Stack p none ((w, ws) ∷ rest')
              → OnStack v ((w, ws) ∷ rest')
              → Child adj u w
              → Back (u ∷ (ancestors fuel q v (some w) ++ v ∷ [])))
          → Back (u ∷ (ancestors fuel q v (q u) ++ v ∷ []))
      next [] st m le off ih = elim m [ ]
      next ((w, ws) ∷ rest') (reads', filled', link', more') m le off ih =
          let (parent_u, child) = link' u refl in
          subst (λ z. Back (u ∷ (ancestors fuel q v z ++ v ∷ []))) (sym (same u off ∙ parent_u))
            (ih w ws rest' le same (reads', filled', (λ k e. absurd (cc)), more') m child)

-- What the search owes its caller.
module _ (adj : Text → List Text) (named : (u : Text) → mem [] (adj u) ≡ false) where
  abbrev IsClosed : CycleState → Text → Type 0
  IsClosed s v = Back adj (v ∷ (ancestors (length s.visited) s.parent v (s.parent v) ++ v ∷ []))

  abbrev Ends : CycleOutcome → Type 0
  Ends (exhausted s) = PathInv adj s []
  Ends (back_to v s) = (is_nil v ≡ false) × IsClosed s v
  Ends stuck = Unit

  Child-named : (u v : Text) → Child adj v u → v ≢ []
  Child-named u v c = λ e. cc (subst (λ z. mem z (adj u) ≡ true) e c, named u)

  closed_lem :
      (s : CycleState) (u v : Text) (vs : List Text) (rest : List Frame)
      → PathInv adj s ((u, v ∷ vs) ∷ rest)
      → mem v s.rec_stack ≡ true
      → IsClosed (set_parent s v u) v
  unfolding set_parent
  closed_lem s u v vs rest inv on =
      let (reads, filled, link, more) = inv.stack in
      subst
        (λ z. Back adj (
          v
          ∷ (ancestors (length (set_parent s v u).visited) (set_parent s v u).parent v z
              ++ v ∷ [])))
        (sym (parent_same s v u))
        (ancestors_lem adj (length (set_parent s v u).visited) s.parent (set_parent s v u).parent v
          v u (v ∷ vs) rest inv.height (λ w d. parent_other s v u w d) inv.stack (inv.on_stack v on)
          (reads v (ground (arith, eq_refl v))))

  loop-Ends :
      (fuel : ℕ) (s : CycleState) (frames : List Frame)
      → PathInv adj s frames
      → Ends (cycle_loop adj fuel s frames)
  unfolding cycle_loop
  loop-Ends zero s frames inv = tt
  loop-Ends (suc fuel) s [] inv = inv
  loop-Ends (suc fuel) s ((u, []) ∷ rest) inv =
      loop-Ends fuel (leave s u) rest (PathInv-pop adj s u rest inv)
  loop-Ends (suc fuel) s ((u, v ∷ vs) ∷ rest) inv =
      let (reads, _, _, _) = inv.stack in
      let v_named = Child-named u v (reads v (ground (arith, eq_refl v))) in
      elim (Bool-cases (mem v s.visited)) [
        | inl old ↦ elim (Bool-cases (mem v s.rec_stack)) [
          | inl on ↦
              rw (cycle_loop, old, on) (head_filled v v_named, closed_lem s u v vs rest inv on)
          | inr off ↦
              rw (cycle_loop, old, off)
                (loop-Ends fuel s ((u, vs) ∷ rest) (PathInv-skip adj s u v vs rest inv))
        ]
        | inr new ↦
            rw (cycle_loop, new)
              (loop-Ends fuel (enter (set_parent s v u) v) ((v, adj v) ∷ (u, vs) ∷ rest)
                (PathInv-push adj s u v vs rest v_named new inv))
      ]

  PathInv-start :
      (s : CycleState) (k : Text)
      → k ≢ []
      → PathInv adj s []
      → PathInv adj (enter s k) ((k, adj k) ∷ [])
  unfolding enter
  PathInv-start s k filled inv = record {
    stack = ((λ x m. m), head_filled k filled, (λ w e. absurd (cc)), tt);
    on_stack = λ j m. elim (Bool-cases (k == j)) [
      | inl e ↦ subst (λ z. OnStack z ((k, adj k) ∷ [])) (==→eq k j e) top
      | inr e ↦ absurd (elim (inv.on_stack j (ground arith)) [ ])
    ];
    seen = λ j m. elim (OnStack-pop m) [
      | inl e ↦ rw e (ground (arith, eq_refl k))
      | inr gone ↦ absurd (elim gone [ ])
    ];
    height = omega arith;
  }

  -- The path of a report: the nodes of a closed walk, with the last node doubled.
  abbrev Reports : CycleReport → Type 0
  Reports (cycle_detected p) =
      (v : Text) × (ps : List Text) × (p ≡ reverse (v ∷ ps) ++ v ∷ [])
      × Back adj (v ∷ (ps ++ v ∷ []))
  Reports _ = Unit

  all-Reports :
      (fuel : ℕ) (s : CycleState) (ids : List Text)
      → mem [] ids ≡ false
      → PathInv adj s []
      → Reports (cycle_all adj fuel s ids)
  unfolding cycle_all cycle_dfs cycle_path
  all-Reports fuel s [] h inv = tt
  all-Reports fuel s (id ∷ rest) h inv = elim (Bool-cases (mem id s.visited)) [
    | inl old ↦ rw (cycle_all, old) (all-Reports fuel s rest (ground arith) inv)
    | inr new ↦
        rw (cycle_all, new)
          (entered (λ t i. all-Reports fuel t rest (ground arith) i) (cycle_dfs adj fuel s id)
            (loop-Ends fuel (enter s id) ((id, adj id) ∷ [])
              (PathInv-start s id (λ e. ground (arith, e, eq_refl [])) inv)))
  ]
    where
      entered :
          ((t : CycleState) → PathInv adj t [] → Reports (cycle_all adj fuel t rest))
          → (r : CycleOutcome) → Ends r
          → Reports (elim r [
            | exhausted after ↦ cycle_all adj fuel after rest
            | back_to v after ↦ elim (is_nil v) [
              | true ↦ cycle_all adj fuel after rest
              | false ↦ cycle_detected (cycle_path after v)
            ]
            | stuck ↦ unfinished
          ])
      entered ih (exhausted after) e = ih after e
      entered ih (back_to v after) (filled, closed) =
          rw filled
            (v, ancestors (length after.visited) after.parent v (after.parent v), refl, closed)
      entered ih stuck e = tt

-- The path that `has_cycle` reports for a well-formed graph is read off a closed walk: node by node each
-- one is entered from the one before it in the path, but the node that closes the walk stands twice at
-- the end of the path, and the edge from it to the path's first node is the one that the path leaves out.
pub has_cycle-Back :
    (g : DtGraph) (p : List Text)
    → IsWellFormed g
    → has_cycle g ≡ cycle_detected p
    → (v : Text) × (ps : List Text) × (p ≡ reverse (v ∷ ps) ++ v ∷ [])
      × Back (adjacency g) (v ∷ (ps ++ v ∷ []))
unfolding has_cycle
has_cycle-Back g p w found = subst (Reports (adjacency g) (named_targets g w)) found (
    all-Reports (adjacency g) (named_targets g w) (dfs_fuel (adjacency g) (enterable g)) unvisited
      (node_ids g) (no_empty_id g w)
      (record {
        stack = tt;
        on_stack = λ k m. absurd (cc);
        seen = λ k m. elim m [ ];
        height = omega arith;
      }))
