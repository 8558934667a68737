-- ===== src/Theory/Reach.antt =====
-- What the assertions of `compile_ir_to_z3` (smeme/reasoning/theory/compile_to_z3.py) say of
-- reachability.
use smeme.Ir.Dag.Parents.{parents}
use smeme.Theory.Guards.{collect, apply_radio_guard_semantics}
use smeme.Ir.Dag.Acyclic.{Arrow}
use mathlib.Core.WellFounded.{Acc}
use smeme.Ir.Validate.Spec.{ids_of, IsValidIr}
use smeme.Base.{
  In-append_right, ◌++◌, flat, ==→eq, true_of_and, mem-distinct_nil, In-of_keep, distinct,
  and_intro, sym, mem→In, eq_refl, any→In, text_leb, ◌==◌, In-keep, inl, In-sort, inr, In→any,
  Bool-cases, In-map, ◌↔◌, In→mem, ◌∙◌, Text, mem, some, List, [], ◌∷◌, ◌≡◌, refl, subst, In, head,
  arith, true, false, Bool, any, ◌&&◌, ◌||◌, map,
}
use smeme.Ir.Types.{IrNode, Ir, IrEdge}
use smeme.Theory.Formula.{atom, Formula, Model, holds, or_all, Satisfies}
use smeme.Theory.Symbols.{Platform, reach_symbol, guard_symbol}
use smeme.Theory.Compile.{
  default_guard, reached_ids, compile_ir_to_z3, incoming, edge_term, edge_terms, reach_equation,
  reach_assertion,
}
use smeme.Theory.Collect.{collect-In, >>=-eq-some}

holds-or_all :
    (m : Model) (t : Formula) (ts : List Formula)
    → holds m (or_all t ts) ≡ (holds m t || any (holds m) ts)
unfolding holds or_all
holds-or_all m t [] = ground arith
holds-or_all m t (u ∷ us) = rw (holds-or_all m u us) refl

module _ (p : Platform) (ir : Ir) (m : Model) where
  abbrev targets : List Text
  targets = map (λ (e : IrEdge). e.target) ir.edges

  -- An edge fires: its source is reached and its guard holds.
  abbrev pub fires : IrEdge → Bool
  fires e = m (reach_symbol p e.source) && m (guard_symbol p e.guard_id)

  -- A path of open guards from the entry.
  pub data Reached : Text → Type 0 where
    entry : {id : Text} → mem id (map (λ (e : IrEdge). e.target) ir.edges) ≡ false → Reached id
    via :
        {id : Text} (e : IrEdge)
        → In e ir.edges
        → e.target ≡ id
        → Reached e.source
        → m (guard_symbol p e.guard_id) ≡ true
        → Reached id

  edge_term-holds : (e : IrEdge) {t : Formula} → edge_term p ir e ≡ some t → holds m t ≡ fires e
  unfolding edge_term holds
  edge_term-holds e h = ground arith

  edge_terms-any :
      (es : List IrEdge) {ts : List Formula}
      → edge_terms p ir es ≡ some ts
      → any (holds m) ts ≡ any fires es
  unfolding edge_terms
  edge_terms-any [] h = ground arith
  edge_terms-any (e ∷ es) h =
      let (t, a, h') = >>=-eq-some (edge_term p ir e) _ h in
      let (us, b, h'') = >>=-eq-some (edge_terms p ir es) _ h' in
      cc (edge_term-holds e a, edge_terms-any es b)

  equation-holds :
      (id : Text) (ts : List Formula)
      → holds m (reach_equation p id ts) ≡ true
      → m (reach_symbol p id) ≡ any (holds m) ts
  unfolding reach_equation holds
  equation-holds id [] h = ground arith
  equation-holds id (t ∷ ts) h = ground (arith, holds-or_all m t ts)

  -- The assertion about one node.
  assertion-entry :
      (id : Text) {fs : List Formula}
      → reach_assertion p ir id ≡ some fs
      → Satisfies m fs
      → mem id targets ≡ false
      → m (reach_symbol p id) ≡ true
  unfolding reach_assertion
  assertion-entry id {fs} h s e =
      let same : atom (reach_symbol p id) ∷ [] ≡ fs = ground arith in
      let t =
        s (atom (reach_symbol p id)) (subst (λ l. In (atom (reach_symbol p id)) l) same head) in
      unfold holds in t

  assertion-inner :
      (id : Text) {fs : List Formula}
      → reach_assertion p ir id ≡ some fs
      → Satisfies m fs
      → mem id targets ≡ true
      → m (reach_symbol p id) ≡ any fires (incoming ir id)
  unfolding reach_assertion
  assertion-inner id {fs} h s e =
      let (ts, a, h') = >>=-eq-some (edge_terms p ir (incoming ir id)) _ (rw e at h) in
      let same : reach_equation p id ts ∷ [] ≡ fs = cc in
      let t = s (reach_equation p id ts) (subst (λ l. In (reach_equation p id ts) l) same head) in
      equation-holds id ts t ∙ edge_terms-any (incoming ir id) a

  module _ (v : IsValidIr ir) (fs : List Formula) (compiled : compile_ir_to_z3 p ir ≡ some fs)
      (s : Satisfies m fs) where
    -- The assertion about a node is among the compiled ones.
    about :
        (id : Text)
        → mem id (ids_of ir.nodes) ≡ true
        → (gs : List Formula) × (reach_assertion p ir id ≡ some gs) × Satisfies m gs
    unfolding compile_ir_to_z3
    about id known =
        let (radios, a, h) = >>=-eq-some (apply_radio_guard_semantics p ir) _ compiled in
        let (reaches, b, h') = >>=-eq-some (collect (reach_assertion p ir) (reached_ids ir)) _ h in
        let listed = In-sort text_leb _ (
          mem→In id (distinct [] (ids_of ir.nodes))
            (mem-distinct_nil id (ids_of ir.nodes) ∙ known)) in
        let (gs, c, inside) = collect-In (reach_assertion p ir) (reached_ids ir) reaches b listed in
        let same : flat (default_guard p) ir.guards ++ (radios ++ reaches) ≡ fs = cc in
        (
          gs,
          c,
          λ f i. s f (
              subst (λ l. In f l) same
                (In-append_right (flat (default_guard p) ir.guards)
                  (In-append_right radios (inside f i)))),
        )

    Reached-true :
        {id : Text} → mem id (ids_of ir.nodes) ≡ true → Reached id → m (reach_symbol p id) ≡ true
    unfolding incoming
    Reached-true {id} known (entry e) = let (gs, a, t) = about id known in assertion-entry id a t e
    Reached-true {id} known (via e i to r g) =
        let (gs, a, t) = about id known in
        let inner : mem id targets ≡ true =
          subst (λ x. mem x targets ≡ true) to (In→mem (In-map (λ (x : IrEdge). x.target) i)) in
        assertion-inner id a t inner
        ∙ In→any fires
            (In-keep (λ (x : IrEdge). x.target == id) i
              (subst (λ x. (e.target == x) ≡ true) to (eq_refl e.target)))
            (and_intro _ _ (Reached-true (v.source_known e i) r) g)

    true-Reached :
        {id : Text}
        → Acc (λ u w. Arrow ir.edges (ids_of ir.nodes) w u) id
        → mem id (ids_of ir.nodes) ≡ true
        → m (reach_symbol p id) ≡ true
        → Reached id
    unfolding incoming
    true-Reached {id} (Acc.intro _ smaller) known h = elim (Bool-cases (mem id targets)) [
      | inr e ↦ entry e
      | inl inner ↦
          let (gs, a, t) = about id known in
          let (e, i, f) = any→In fires (incoming ir id) (sym (assertion-inner id a t inner) ∙ h) in
          let (j, same) = In-of_keep (λ (x : IrEdge). x.target == id) ir.edges i in
          let (src, open_guard) =
            true_of_and (m (reach_symbol p e.source)) (m (guard_symbol p e.guard_id)) f in
          via e j (==→eq e.target id same)
            (true-Reached
              (smaller e.source (record {
                edge = e;
                listed = j;
                from = refl;
                to = ==→eq e.target id same;
                source_known = v.source_known e j;
                target_known = known;
              }))
              (v.source_known e j) src)
            open_guard
    ]

    -- In every model of a valid Ir's theory a node's `reach` variable is true exactly if a path of
    -- edges whose guards are true leads to the node from the entry.
    pub reach_iff : (n : IrNode) → In n ir.nodes → (m (reach_symbol p n.id) ≡ true) ↔ Reached n.id
    reach_iff n i =
        let known : mem n.id (ids_of ir.nodes) ≡ true = In→mem (In-map (λ (x : IrNode). x.id) i) in
        (
          true-Reached ((parents ir.edges (ids_of ir.nodes) v.acyclic).apply n.id) known,
          Reached-true known,
        )
