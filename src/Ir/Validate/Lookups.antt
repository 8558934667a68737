-- ===== src/Ir/Validate/Lookups.antt =====
-- The passes of `validate_ir` (smeme/reasoning/ir/validate.py) that look nodes and guards up.
use smeme.Base.{
  not-false, Bool, Text, ◌==◌, ==→eq, eq_iff, eq_refl, mem, mem→In, In→mem, Distinct, is_blank, ◌≡◌,
  ◌≢◌, refl, sym, subst, ap, ◌∙◌, ◌↔◌, inl, inr, true, false, not, some, List, [], ◌∷◌, map, keep,
  In, head, tail, In-keep, In-of_keep, In-map, In-of_map, arith, Option-cases, flat, flat-nil,
  nil-flat, find_last-some, find_last-key, key_known, Distinct-keep, length, length-sort,
  length-map, text_leb, In-cons,
}
use smeme.Ir.Types.{Ir, IrNode, IrEdge, Guard, question, IrQuestionShape, default_guard_expr}
use smeme.Ir.Validate.{
  unused_errors, guard_ids, node_by_id, guard_by_id, expr_errors, entry_ids, entry_errors,
}
use smeme.Ir.Validate.Spec.{ids_of, guard_ids_of}
use smeme.Ir.Validate.Passes.{mem-guard_ids}

module _ (ir : Ir) where
  unused→ :
      (gid : Text) → unused_errors ir gid ≡ [] → (e : IrEdge) × In e ir.edges × (e.guard_id ≡ gid)
  unfolding unused_errors
  unused→ gid h =
      let (e, m, q) =
        In-of_map (λ (e : IrEdge). e.guard_id)
          (keep (λ (e : IrEdge). mem e.guard_id (guard_ids ir)) ir.edges)
          (mem→In gid _ (ground arith)) in
      (e, (In-of_keep (λ (e : IrEdge). mem e.guard_id (guard_ids ir)) ir.edges m).0, q)

  unused← :
      (gid : Text)
      → mem gid (guard_ids ir) ≡ true
      → (e : IrEdge) × In e ir.edges × (e.guard_id ≡ gid)
      → unused_errors ir gid ≡ []
  unfolding unused_errors
  unused← gid known (e, m, q) =
      let listed : mem gid (
            map (λ (e : IrEdge). e.guard_id)
              (keep (λ (e : IrEdge). mem e.guard_id (guard_ids ir)) ir.edges))
          ≡ true =
        In→mem (
          subst
            (λ k. In k (
              map (λ (e : IrEdge). e.guard_id)
                (keep (λ (e : IrEdge). mem e.guard_id (guard_ids ir)) ir.edges)))
            q
            (In-map (λ (e : IrEdge). e.guard_id)
              (In-keep (λ (e : IrEdge). mem e.guard_id (guard_ids ir)) m (rw q known)))) in
      ground arith

  -- The pass over the guard ids.
  pub unused_errors-nil :
      (flat (unused_errors ir) (guard_ids ir) ≡ [])
      ↔ ((g : Guard) → In g ir.guards → (e : IrEdge) × In e ir.edges × (e.guard_id ≡ g.id))
  unused_errors-nil = (
    λ h g m. unused→ g.id (
        flat-nil (unused_errors ir) (guard_ids ir) h g.id (
          mem→In g.id (guard_ids ir)
            (rw (mem-guard_ids ir g.id) (In→mem (In-map (λ (x : Guard). x.id) m))))),
    λ h. nil-flat (unused_errors ir) (guard_ids ir) λ gid m.
        let known = In→mem m in
        let (g, n, q) =
          key_known (λ (x : Guard). x.id) ir.guards gid (rw (mem-guard_ids ir gid) at known) in
        let (e, l, r) = h g n in unused← gid known (e, l, r ∙ q),
  )

  -- The label test of one edge, between a node and a guard that are there.
  abbrev pub Offered : IrEdge → Type 0
  Offered e =
      (n : IrNode) (g : Guard) (q : IrQuestionShape)
      → In n ir.nodes
      → In g ir.guards
      → n.id ≡ e.source
      → g.id ≡ e.guard_id
      → n.kind ≡ question
      → n.question ≡ some q
      → g.expr ≢ default_guard_expr
      → (is_blank g.expr ≡ false) × (mem g.expr q.options ≡ true)

  module _ (nodes_distinct : Distinct (ids_of ir.nodes))
      (guards_distinct : Distinct (guard_ids_of ir.guards)) where
    pub node_by_id-found : {n : IrNode} → In n ir.nodes → node_by_id ir n.id ≡ some n
    unfolding node_by_id
    node_by_id-found m = find_last-key (λ (x : IrNode). x.id) ir.nodes nodes_distinct m

    pub guard_by_id-found : {g : Guard} → In g ir.guards → guard_by_id ir g.id ≡ some g
    unfolding guard_by_id
    guard_by_id-found m = find_last-key (λ (x : Guard). x.id) ir.guards guards_distinct m

    expr_errors→ : (e : IrEdge) → expr_errors ir e ≡ [] → Offered e
    unfolding expr_errors
    expr_errors→ e h n g q m k a b kind shape written =
        let found : node_by_id ir e.source ≡ some n =
          subst (λ i. node_by_id ir i ≡ some n) a (node_by_id-found m) in
        let guard : guard_by_id ir e.guard_id ≡ some g =
          subst (λ i. guard_by_id ir i ≡ some g) b (guard_by_id-found k) in
        ground (arith, eq_iff g.expr default_guard_expr)

    expr_errors← : (e : IrEdge) → Offered e → expr_errors ir e ≡ []
    unfolding expr_errors node_by_id guard_by_id
    expr_errors← e h = elim (Option-cases (node_by_id ir e.source)) [
      | inl a ↦ ground arith
      | inr (n, a) ↦ elim (Option-cases (guard_by_id ir e.guard_id)) [
        | inl b ↦ ground arith
        | inr (g, b) ↦
            let (m, p) = find_last-some (λ (x : IrNode). x.id == e.source) ir.nodes a in
            let (k, r) = find_last-some (λ (x : Guard). x.id == e.guard_id) ir.guards b in
            elim (Option-cases n.question) [
              | inl c ↦ ground arith
              | inr (q, c) ↦ ground (
                arith,
                h n g q m k (==→eq n.id e.source p) (==→eq g.id e.guard_id r),
                eq_iff g.expr default_guard_expr,
              )
            ]
      ]
    ]

    -- The pass over the edges' labels.
    pub expr_errors-nil :
        (flat (expr_errors ir) ir.edges ≡ []) ↔ ((e : IrEdge) → In e ir.edges → Offered e)
    expr_errors-nil = (
      λ h e m. expr_errors→ e (flat-nil (expr_errors ir) ir.edges h e m),
      λ h. nil-flat (expr_errors ir) ir.edges (λ e m. expr_errors← e (h e m)),
    )

  abbrev pub has_no_incoming : IrNode → Bool
  has_no_incoming n = not (mem n.id (map (λ (e : IrEdge). e.target) ir.edges))

  length-entry_ids : length (entry_ids ir) ≡ length (keep has_no_incoming ir.nodes)
  unfolding entry_ids
  length-entry_ids = length-sort text_leb _ ∙ length-map (λ (n : IrNode). n.id) _

  abbrev pub OneEntry : Type 0
  OneEntry =
      (n : IrNode) × In n ir.nodes
      × (mem n.id (map (λ (e : IrEdge). e.target) ir.edges) ≡ false)
      × ((m : IrNode)
          → In m ir.nodes
          → mem m.id (map (λ (e : IrEdge). e.target) ir.edges) ≡ false
          → m ≡ n)

  -- A list of distinct nodes that holds one node only has length one.
  length_one :
      (n : IrNode) (xs : List IrNode)
      → Distinct (ids_of xs)
      → In n xs
      → ((m : IrNode) → In m xs → m ≡ n)
      → length xs ≡ 1
  length_one n [] d m h = elim m [ ]
  length_one n (x ∷ []) d m h = refl
  length_one n (x ∷ y ∷ zs) d m h =
      let same : x ≡ y = h x head ∙ sym (h y (tail head)) in
      absurd (cc (d.0, ap (λ (z : IrNode). z.id) same, eq_refl y.id))

  one_of_length :
      (xs : List IrNode) → length xs ≡ 1 → (n : IrNode) × In n xs × ((m : IrNode) → In m xs → m ≡ n)
  one_of_length [] h = absurd (omega arith)
  one_of_length (x ∷ []) h =
      (x, head, λ m i. elim (In-cons i) [ inl e ↦ e | inr none_left ↦ elim none_left [ ] ])
  one_of_length (x ∷ y ∷ zs) h = absurd (omega arith)

  -- The entry check.
  pub entry_errors-nil : Distinct (ids_of ir.nodes) → (entry_errors ir ≡ []) ↔ OneEntry
  unfolding entry_errors
  entry_errors-nil d = (
    λ h.
        let one : length (keep has_no_incoming ir.nodes) ≡ 1 = ground (arith, length-entry_ids) in
        let (n, m, u) = one_of_length (keep has_no_incoming ir.nodes) one in
        let (l, r) = In-of_keep has_no_incoming ir.nodes m in
        (n, l, not-false _ r, λ k i c. u k (In-keep has_no_incoming i (rw c refl))),
    λ (n, m, c, u).
        let one : length (keep has_no_incoming ir.nodes) ≡ 1 =
          length_one n (keep has_no_incoming ir.nodes)
            (Distinct-keep (λ (x : IrNode). x.id) has_no_incoming ir.nodes d)
            (In-keep has_no_incoming m (rw c refl))
            (λ k i. let (l, r) = In-of_keep has_no_incoming ir.nodes i in u k l (not-false _ r)) in
        ground (arith, length-entry_ids),
  )
