-- ===== src/Editor/WellFormed.antt =====
-- The well-formed graphs of smeme/decision_tree/editor/operations.py, and the steps between them.
use smeme.Runtime.Input.{max_radio_or_option_str_len}
use smeme.Base.{
  length, ltb, Text, ◌==◌, eq_iff, ==→eq, mem, Distinct, ◌≡◌, ◌≢◌, refl, true, false, not, ◌||◌,
  Option, List, [], ◌∷◌, ◌++◌, map, any, is_nil, In, head, tail, In-cons, arith, inl, inr, subst,
  sym, ap, ◌∙◌, ◌⊎◌, In-append_cases, Bool-cases, Bool,
}
use smeme.Base.Result.{ok, >>-eq-ok, ok_injective}
use smeme.Tree.Types.{
  DtGraph, GraphNode, GraphEdge, NodeType, question, conclusion, NodeData, asks, concludes,
  QuestionData, is_node_id, make_question_data, make_node,
}
use smeme.Tree.Queries.{node_ids}
use smeme.Editor.Nodes.{has_node, replace_first, add_node}

-- A question node holds a question with an option, a conclusion node a conclusion.
abbrev pub IsTyped : NodeType → NodeData → Type 0
IsTyped question (asks q) = q.options ≢ []
IsTyped question (concludes _) = ⊥
IsTyped conclusion (asks _) = ⊥
IsTyped conclusion (concludes _) = Unit

pub record IsWellFormed (g : DtGraph) : Type 0 where
  pub distinct : Distinct (node_ids g)
  pub named : (n : GraphNode) → In n g.nodes → is_node_id n.id ≡ true
  pub typed : (n : GraphNode) → In n g.nodes → IsTyped n.type n.content
  pub source_known : (e : GraphEdge) → In e g.edges → mem e.source (node_ids g) ≡ true
  pub target_known : (e : GraphEdge) → In e g.edges → mem e.target (node_ids g) ≡ true

abbrev ids : List GraphNode → List Text
ids = map (λ (n : GraphNode). n.id)

any-ids : (xs : List GraphNode) (k : Text) → any (λ (n : GraphNode). n.id == k) xs ≡ mem k (ids xs)
any-ids [] k = refl
any-ids (x ∷ xs) k = rw (any-ids xs k) refl

mem-concat :
    (k : Text) (xs : List GraphNode) (n : GraphNode)
    → mem k (ids (xs ++ n ∷ [])) ≡ (mem k (ids xs) || n.id == k)
mem-concat k [] n = ground arith
mem-concat k (x ∷ xs) n = ground (arith, mem-concat k xs n)

Distinct-concat :
    (xs : List GraphNode) (n : GraphNode)
    → Distinct (ids xs)
    → mem n.id (ids xs) ≡ false
    → Distinct (ids (xs ++ n ∷ []))
Distinct-concat [] n d h = (refl, tt)
Distinct-concat (x ∷ xs) n d h = (
  ground (arith, mem-concat x.id xs n, d.0, eq_iff x.id n.id, eq_iff n.id x.id),
  Distinct-concat xs n d.1 (ground arith),
)

pub In-replace_first {ℓ} :
    {A : Type ℓ} (p : A → Bool) (new : A) {x : A} (xs : List A)
    → In x (replace_first p new xs)
    → (x ≡ new) ⊎ In x xs
unfolding replace_first
In-replace_first p new [] m = elim m [ ]
In-replace_first p new {x} (y ∷ ys) m = elim (Bool-cases (p y)) [
  | inl e ↦ elim (In-cons (rw e at m)) [ inl s ↦ inl s | inr later ↦ inr (tail later) ]
  | inr e ↦ elim (In-cons (rw e at m)) [
    | inl s ↦ inr (subst (λ z. In z (y ∷ ys)) (sym s) head)
    | inr later ↦ elim (In-replace_first p new ys later) [
      | inl s ↦ inl s
      | inr old ↦ inr (tail old)
    ]
  ]
]

-- A node replaced by one of the same id leaves the ids.
ids-replace_first :
    (k : Text) (new : GraphNode) (xs : List GraphNode)
    → new.id ≡ k
    → ids (replace_first (λ (x : GraphNode). x.id == k) new xs) ≡ ids xs
unfolding replace_first
ids-replace_first k new [] e = refl
ids-replace_first k new (x ∷ xs) e = elim (Bool-cases (x.id == k)) [
  | inl s ↦ rw s (ap (λ j. j ∷ ids xs) (e ∙ sym (==→eq x.id k s)))
  | inr s ↦ rw s (ap (λ l. x.id ∷ l) (ids-replace_first k new xs e))
]

-- The parts of the constructions that returned.
pub make_node-parts :
    (id : Text) (t : NodeType) (c : NodeData) {n : GraphNode}
    → make_node id t c ≡ ok n
    → (is_node_id id ≡ true) × (n ≡ record { id = id; type = t; content = c })
unfolding make_node
make_node-parts id t c h =
    let (b, e) = >>-eq-ok (not (is_node_id id)) _ _ h in (ground arith, sym (ok_injective e))

pub make_question_data-options :
    (text : Text) (options : List Text) (help : Option Text) (r : Bool) (us : _) (vs : _)
    {q : QuestionData}
    → make_question_data text options help r us vs ≡ ok q
    → q.options ≢ []
unfolding make_question_data
make_question_data-options text options help r us vs {q} h =
    let (b, h1) = >>-eq-ok (is_nil options) _ _ h in
    let (_, h2) = >>-eq-ok (any (λ o. ltb max_radio_or_option_str_len (length o)) options) _ _ h1 in
    let same : q.options ≡ options = ground arith in λ e. cc (ap is_nil (sym same ∙ e))

module _ (g : DtGraph) (w : IsWellFormed g) where
  pub add_node-IsWellFormed :
      (n : GraphNode)
      → has_node g n.id ≡ false
      → is_node_id n.id ≡ true
      → IsTyped n.type n.content
      → IsWellFormed (add_node g n)
  add_node-IsWellFormed n new valid typed = record {
    distinct = Distinct-concat g.nodes n w.distinct (sym (any-ids g.nodes n.id) ∙ new);
    named = λ x m. elim (In-append_cases g.nodes m) [
      | inl old ↦ w.named x old
      | inr last ↦ elim (In-cons last) [ inl e ↦ rw e valid | inr gone ↦ elim gone [ ] ]
    ];
    typed = λ x m. elim (In-append_cases g.nodes m) [
      | inl old ↦ w.typed x old
      | inr last ↦ elim (In-cons last) [
        | inl e ↦ subst (λ (y : GraphNode). IsTyped y.type y.content) (sym e) typed
        | inr gone ↦ elim gone [ ]
      ]
    ];
    source_known = λ e m. ground (arith, mem-concat e.source g.nodes n, w.source_known e m);
    target_known = λ e m. ground (arith, mem-concat e.target g.nodes n, w.target_known e m);
  }

  pub replace_node-IsWellFormed :
      (k : Text) (n : GraphNode)
      → n.id ≡ k
      → is_node_id n.id ≡ true
      → IsTyped n.type n.content
      → IsWellFormed (record g { nodes = replace_first (λ (x : GraphNode). x.id == k) n g.nodes })
  replace_node-IsWellFormed k n e valid typed =
      let same = ids-replace_first k n g.nodes e in
      record {
        distinct = rw same w.distinct;
        named = λ x m. elim (In-replace_first (λ (x : GraphNode). x.id == k) n g.nodes m) [
          | inl s ↦ rw s valid
          | inr old ↦ w.named x old
        ];
        typed = λ x m. elim (In-replace_first (λ (x : GraphNode). x.id == k) n g.nodes m) [
          | inl s ↦ subst (λ (y : GraphNode). IsTyped y.type y.content) (sym s) typed
          | inr old ↦ w.typed x old
        ];
        source_known = λ e m. rw same (w.source_known e m);
        target_known = λ e m. rw same (w.target_known e m);
      }

  -- New edges between known nodes, and fewer edges, keep the graph well formed.
  pub edges-IsWellFormed :
      (es : List GraphEdge)
      → ((e : GraphEdge)
          → In e es
          → (mem e.source (node_ids g) ≡ true) × (mem e.target (node_ids g) ≡ true))
      → IsWellFormed (record g { edges = es })
  edges-IsWellFormed es h = record {
    distinct = w.distinct;
    named = w.named;
    typed = w.typed;
    source_known = λ e m. (h e m).0;
    target_known = λ e m. (h e m).1;
  }
