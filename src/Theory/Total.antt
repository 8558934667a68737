-- ===== src/Theory/Total.antt =====
-- The lookups of `compile_ir_to_z3` (smeme/reasoning/theory/compile_to_z3.py) on a valid Ir.
use smeme.Base.{
  sym, find_last, map, Text, ◌==◌, ==→eq, eq_iff, Option, none, some, List, [], ◌∷◌, ◌≡◌, refl, In,
  head, tail, Option-cases, Bool-cases, arith, inl, inr, mem, find_last-some, In-of_keep, is_nil,
  ◌≢◌,
}
use smeme.Ir.Types.{
  Ir, IrNode, IrEdge, Guard, IrNodeKind, question, conclusion, IrQuestionShape, radio,
  default_guard_expr,
}
use smeme.Ir.Validate.{node_by_id}
use smeme.Ir.Validate.Spec.{IsValidIr}
use smeme.Theory.Formula.{Formula}
use smeme.Theory.Symbols.{Platform}
use smeme.Theory.Guards.{guard_source, guard_wiring_at, guard_wiring, apply_radio_guard_semantics}
use smeme.Theory.Compile.{
  reached_ids, incoming, edge_term, edge_terms, reach_assertion, compile_ir_to_z3,
}
use smeme.Theory.Collect.{collect-total}

module _ (p : Platform) (ir : Ir) (v : IsValidIr ir) where
  edge_term-total : (e : IrEdge) → In e ir.edges → (t : Formula) × (edge_term p ir e ≡ some t)
  unfolding edge_term
  edge_term-total e m = rw (v.source_known e m, v.guard_known e m) (_, refl)

  edge_terms-total :
      (es : List IrEdge)
      → ((e : IrEdge) → In e es → In e ir.edges)
      → (ts : List Formula) × (edge_terms p ir es ≡ some ts)
  unfolding edge_terms
  edge_terms-total [] h = ([], refl)
  edge_terms-total (e ∷ es) h =
      let (t, a) = edge_term-total e (h e head) in
      let (ts, b) = edge_terms-total es (λ x m. h x (tail m)) in (t ∷ ts, rw (a, b) refl)

  reach_assertion-total : (id : Text) → (fs : List Formula) × (reach_assertion p ir id ≡ some fs)
  unfolding reach_assertion incoming
  reach_assertion-total id =
      let (ts, a) =
        edge_terms-total (incoming ir id)
          (λ e m. (In-of_keep (λ (x : IrEdge). x.target == id) ir.edges m).0) in
      elim (Bool-cases (mem id (map (λ (e : IrEdge). e.target) ir.edges))) [
        | inl b ↦ rw (b, a) (_, refl)
        | inr b ↦ rw b (_, refl)
      ]

  -- A written label of a used guard is an option of its question.
  wiring_at-total :
      (g : Guard) (e : IrEdge) (on : Option IrNode)
      → In g ir.guards
      → In e ir.edges
      → g.id ≡ e.guard_id
      → g.expr ≢ default_guard_expr
      → ((n : IrNode) → on ≡ some n → In n ir.nodes × (n.id ≡ e.source))
      → (fs : List Formula) × (guard_wiring_at p g on ≡ some fs)
  unfolding guard_wiring_at
  wiring_at-total g e none m k a d h = ([], refl)
  wiring_at-total g e (some n) m k a d h = at_kind n.kind n.question refl refl
    where
      at_kind :
          (kind : IrNodeKind) (q : Option IrQuestionShape)
          → n.kind ≡ kind
          → n.question ≡ q
          → (fs : List Formula) × (guard_wiring_at p g (some n) ≡ some fs)
      at_kind conclusion q x y = ([], ground arith)
      at_kind question none x y = ([], ground arith)
      at_kind question (some q) x y =
          let (l, s) = h n refl in
          let (blank, listed) = v.offered e n g q k l m s a x y d in
          elim (Bool-cases (q.qtype == radio)) [
            | inl r ↦ elim (Bool-cases (is_nil q.options)) [
              | inl z ↦ rw (x, y, guard_wiring_at) (rw (r, z) (_, refl))
              | inr z ↦ rw (x, y, guard_wiring_at) (rw (r, z, listed) (_, refl))
            ]
            | inr r ↦ rw (x, y, guard_wiring_at) (rw r (_, refl))
          ]

  guard_wiring-total :
      (g : Guard) → In g ir.guards → (fs : List Formula) × (guard_wiring p ir g ≡ some fs)
  unfolding guard_wiring guard_source node_by_id
  guard_wiring-total g m = elim (Bool-cases (g.expr == default_guard_expr)) [
    | inl d ↦ ([], rw d refl)
    | inr d ↦ elim (Option-cases (find_last (λ (e : IrEdge). e.guard_id == g.id) ir.edges)) [
      | inl a ↦ ([], rw (d, guard_wiring) (rw a refl))
      | inr (e, a) ↦
          let (k, q) = find_last-some (λ (x : IrEdge). x.guard_id == g.id) ir.edges a in
          let (fs, r) =
            wiring_at-total g e (node_by_id ir e.source) m k (sym (==→eq e.guard_id g.id q))
              (λ same. cc ((eq_iff g.expr default_guard_expr).1 same))
              (λ n s.
                let (l, t) = find_last-some (λ (x : IrNode). x.id == e.source) ir.nodes s in
                (l, ==→eq n.id e.source t)) in
          (fs, rw (d, guard_wiring) (rw (a, guard_wiring) r))
    ]
  ]

  -- On a valid Ir the compiler returns its assertions: no lookup of a node, a guard or an option
  -- misses its key.
  pub compile_ir_to_z3_total : (fs : List Formula) × (compile_ir_to_z3 p ir ≡ some fs)
  unfolding compile_ir_to_z3 apply_radio_guard_semantics
  compile_ir_to_z3_total =
      let (ws, a) = collect-total (guard_wiring p ir) ir.guards guard_wiring-total in
      let (rs, b) =
        collect-total (reach_assertion p ir) (reached_ids ir) (λ id m. reach_assertion-total id) in
      rw (a, b) (_, refl)
