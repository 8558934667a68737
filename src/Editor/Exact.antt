-- ===== src/Editor/Exact.antt =====
-- What the deletions of smeme/decision_tree/editor/operations.py leave.
use smeme.Base.{
  inl, is_nil, Bool-cases, strip, none, some, Bool, In-keep, ◌↔◌, Text, ◌==◌, mem, ◌≡◌, refl, true,
  false, not, ◌&&◌, Option, List, [], ◌∷◌, map, keep, any, any→In, In, inl, inr, Bool-cases, is_nil,
  strip, none, some, if◌then◌else◌, eq_iff, eq_refl, ==→eq, arith, subst, In-of_keep, not-false,
  true_of_and,
}
use smeme.Base.Result.{ok, >>-eq-ok, ok_injective}
use smeme.Tree.Types.{DtGraph, GraphNode, GraphEdge}
use smeme.Tree.Queries.{node_ids}
use smeme.Editor.Nodes.{has_node, delete_node}
use smeme.Editor.Edges.{normalize, same_condition, delete_edge, edge_matches}

ids-keep :
    (k : Text) (xs : List GraphNode)
    → mem k (map (λ (n : GraphNode). n.id) (keep (λ (n : GraphNode). not (n.id == k)) xs)) ≡ false
ids-keep k [] = refl
ids-keep k (x ∷ xs) = ground (arith, ids-keep k xs)

-- The items that a deletion keeps are those that it does not drop.
In-keep-not {ℓ} :
    {A : Type ℓ} (p : A → Bool) (xs : List A) (a : A)
    → In a (keep (λ x. not (p x)) xs) ↔ (In a xs × p a ≡ false)
In-keep-not p xs a = (
  (λ m. let (i, t) = In-of_keep (λ x. not (p x)) xs m in (i, not-false _ t)),
  (λ (i, t). In-keep (λ x. not (p x)) i (rw t refl)),
)

-- A deletion of a node that returns leaves no node of that id and all other nodes, and of the edges
-- exactly those that neither start nor end at it.
pub delete_node_gone :
    (g g' : DtGraph) (id : Text) (n : GraphNode) (e : GraphEdge)
    → delete_node g id ≡ ok g'
    → (mem id (node_ids g') ≡ false)
      × (In n g'.nodes ↔ (In n g.nodes × (n.id == id) ≡ false))
      × (In e g'.edges ↔ (In e g.edges × (e.source == id) ≡ false × (e.target == id) ≡ false))
unfolding delete_node
delete_node_gone g g' id n e h =
    let (_, h') = >>-eq-ok (not (has_node g id)) _ _ h in
    subst
      (λ (x : DtGraph).
        (mem id (node_ids x) ≡ false)
        × (In n x.nodes ↔ (In n g.nodes × (n.id == id) ≡ false))
        × (In e x.edges ↔ (In e g.edges × (e.source == id) ≡ false × (e.target == id) ≡ false)))
      (ok_injective h')
      (
        ids-keep id g.nodes,
        In-keep-not (λ (x : GraphNode). x.id == id) g.nodes n,
        (
          (λ m.
              let (i, t) =
                In-of_keep (λ (e : GraphEdge). not (e.source == id) && not (e.target == id)) g.edges
                  m in
              let (a, b) = true_of_and (not (e.source == id)) (not (e.target == id)) t in
              (i, not-false _ a, not-false _ b)),
          (λ (i, a, b).
              In-keep (λ (e : GraphEdge). not (e.source == id) && not (e.target == id)) i
                (rw (a, b) refl)),
        ),
      )

-- A condition without the white space around it; none counts as an empty one.
abbrev pub trimmed : Option Text → Text
trimmed none = []
trimmed (some c) = strip c

-- The edge goes from `source` to `target`, under the condition up to white space.
abbrev pub IsNamed : Text → Text → Option Text → GraphEdge → Type 0
IsNamed source target condition e =
    (e.source ≡ source) × (e.target ≡ target) × (trimmed e.condition ≡ trimmed condition)

abbrev packed : Text → Option Text
packed [] = none
packed (c ∷ s) = some (c ∷ s)

normalize-packed : (c : Option Text) → normalize c ≡ packed (trimmed c)
unfolding normalize
normalize-packed none = refl
normalize-packed (some c) = parts (strip c)
  where
    parts : (t : Text) → (if is_nil t then none else some t) ≡ packed t
    parts [] = refl
    parts (x ∷ t) = refl

same_packed : (s t : Text) → (same_condition (packed s) (packed t) ≡ true) ↔ (s ≡ t)
unfolding same_condition
same_packed [] [] = ((λ _. refl), (λ _. refl))
same_packed [] (y ∷ t) = ((λ e. absurd (cc)), (λ e. absurd (cc)))
same_packed (x ∷ s) [] = ((λ e. absurd (cc)), (λ e. absurd (cc)))
same_packed (x ∷ s) (y ∷ t) = eq_iff (x ∷ s) (y ∷ t)

edge_matches_iff :
    (source target : Text) (condition : Option Text) (e : GraphEdge)
    → (edge_matches source target condition e ≡ true) ↔ IsNamed source target condition e
unfolding edge_matches
edge_matches_iff source target condition e =
    let (there, back) = same_packed (trimmed e.condition) (trimmed condition) in
    let a = normalize-packed e.condition in
    let b = normalize-packed condition in
    (
      (λ h.
          let (ends, z) =
            true_of_and (e.source == source && e.target == target)
              (same_condition (normalize e.condition) (normalize condition)) h in
          let (x, y) = true_of_and (e.source == source) (e.target == target) ends in
          (==→eq _ _ x, ==→eq _ _ y, there (rw (a, b) at z))),
      (λ (x, y, z). rw (x, y, eq_refl source, eq_refl target, a, b) (back z)),
    )

-- A deletion of an edge that returns has found an edge from `source` to `target` under the condition,
-- up to white space around it, and leaves exactly the edges of the graph that are none such.
pub delete_edge_gone :
    (g g' : DtGraph) (source target : Text) (condition : Option Text) (e : GraphEdge)
    → delete_edge g source target condition ≡ ok g'
    → ((d : GraphEdge) × In d g.edges × IsNamed source target condition d)
      × (In e g'.edges ↔ (In e g.edges × ¬ IsNamed source target condition e))
unfolding delete_edge
delete_edge_gone g g' source target condition e h =
    let (found, h') = >>-eq-ok (not (any (edge_matches source target condition) g.edges)) _ _ h in
    let (d, i, t) = any→In (edge_matches source target condition) g.edges (ground arith) in
    let (there, back) = edge_matches_iff source target condition e in
    let (drop, kept) = In-keep-not (edge_matches source target condition) g.edges e in
    (
      (d, i, (edge_matches_iff source target condition d).0 t),
      subst (λ (x : DtGraph). In e x.edges ↔ (In e g.edges × ¬ IsNamed source target condition e))
          (ok_injective h')
          (
            (λ m. let (j, u) = drop m in (j, λ named. absurd (cc (back named, u)))),
            (λ (j, other). kept (
              j,
              elim (Bool-cases (edge_matches source target condition e)) [
                | inl u ↦ absurd (other (there u))
                | inr u ↦ u
              ],
            )),
          ),
    )
