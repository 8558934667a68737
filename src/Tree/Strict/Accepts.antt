-- ===== src/Tree/Strict/Accepts.antt =====
-- What a graph has that `validate_graph` of smeme/decision_tree/helpers/validation.py accepts.
use smeme.Base.{
  Text, ◌==◌, eq_refl, distinct, mem, strip, is_nil, Bool, true, false, not, ltb, nat_beq, ◌≡◌,
  refl, none, some, List, [], ◌∷◌, map, keep, length, In, head, In-cons, In-keep, In-of_keep, inl,
  inr, subst, sym, ap, ◌∙◌, arith, Distinct, Distinct-length, not-false, length-map,
}
use smeme.Base.Result.{Result, ok, raise_if, ◌>>◌, >>=-eq-ok, >>-eq-ok}
use smeme.Tree.Types.{
  DtGraph, GraphNode, GraphEdge, NodeType, question, conclusion, asks, concludes, QuestionData,
}
use smeme.Tree.Queries.{
  node_ids, is_question, question_data, get_outgoing_edges, get_incoming_edges, get_entry_nodes,
}
use smeme.Tree.Strict.{
  GraphFault, for_each, get_question_nodes, get_conclusion_nodes, get_terminal_nodes, check_ends,
  check_content, first_candidates, entry_ids, check_entry, check_conclusions, check_coverage,
  check_condition, check_edges_of, check_question, validate_graph,
}

-- The targets of a graph's edges.
abbrev pub targets : DtGraph → List Text
targets g = map (λ (e : GraphEdge). e.target) g.edges

pub record IsStrict (g : DtGraph) : Type 0 where
  pub distinct_ids : Distinct (node_ids g)
  pub source_known : (e : GraphEdge) → In e g.edges → mem e.source (node_ids g) ≡ true
  pub target_known : (e : GraphEdge) → In e g.edges → mem e.target (node_ids g) ≡ true
  -- exactly one node is no edge's target
  pub entry :
      (n : GraphNode) × In n g.nodes
      × (mem n.id (targets g) ≡ false)
      × ((m : GraphNode) → In m g.nodes → mem m.id (targets g) ≡ false → m ≡ n)
  -- a condition that is not blank is an option of the question that its edge leaves
  pub offered :
      (n : GraphNode) (q : QuestionData) (e : GraphEdge) (c : Text)
      → In n g.nodes
      → question_data n ≡ some q
      → In e g.edges
      → e.source ≡ n.id
      → e.condition ≡ some c
      → is_nil (strip c) ≡ false
      → mem (strip c) q.options ≡ true

pub for_each-In :
    {A : Type 0} (check : A → Result GraphFault Unit) (xs : List A) {x : A}
    → for_each check xs ≡ ok tt
    → In x xs
    → check x ≡ ok tt
unfolding for_each
for_each-In check [] h m = elim m [ ]
for_each-In check (y ∷ ys) h m =
    let (u, first, rest) = >>=-eq-ok (check y) (λ _. for_each check ys) h in
    elim (In-cons m) [ inl same ↦ rw same first | inr later ↦ for_each-In check ys rest later ]

-- Of two tests that passed the second did.
second_passed : (a b : Bool) (e f : GraphFault) → (raise_if a e >> raise_if b f) ≡ ok tt → b ≡ false
second_passed a b e f h = ground arith

is_nil-incoming :
    (id : Text) (es : List GraphEdge)
    → is_nil (keep (λ (e : GraphEdge). e.target == id) es)
      ≡ not (mem id (map (λ (e : GraphEdge). e.target) es))
is_nil-incoming id [] = refl
is_nil-incoming id (e ∷ es) = ground (arith, is_nil-incoming id es)

one_item {ℓ} :
    {A : Type ℓ} (xs : List A) {x y : A} → ltb 1 (length xs) ≡ false → In x xs → In y xs → x ≡ y
one_item [] h m n = elim m [ ]
one_item (a ∷ []) h m n = elim (In-cons m) [
  | inl e ↦ elim (In-cons n) [ inl f ↦ cc | inr gone ↦ elim gone [ ] ]
  | inr gone ↦ elim gone [ ]
]
one_item (a ∷ b ∷ xs) h m n = absurd (ground arith)

is_nil-map {ℓ κ} :
    {A : Type ℓ} {B : Type κ} (f : A → B) (xs : List A) → is_nil (map f xs) ≡ is_nil xs
is_nil-map f [] = refl
is_nil-map f (x ∷ xs) = refl

first_item {ℓ} : {A : Type ℓ} (xs : List A) → is_nil xs ≡ false → (x : A) × In x xs
first_item [] h = absurd (cc)
first_item (x ∷ xs) h = (x, head)

module _ (g : DtGraph) where
  abbrev is_entry : GraphNode → Bool
  is_entry n = not (mem n.id (targets g))

  -- A node without incoming edges is an entry node, and there is one at most.
  entry_lem :
      check_entry g ≡ ok tt
      → (n : GraphNode) × In n g.nodes
        × (mem n.id (targets g) ≡ false)
        × ((m : GraphNode) → In m g.nodes → mem m.id (targets g) ≡ false → m ≡ n)
  unfolding check_entry first_candidates entry_ids get_entry_nodes get_incoming_edges
  entry_lem h =
      let (some_first, h1) = >>-eq-ok (is_nil (first_candidates g)) _ _ h in
      let (few, h2) = >>-eq-ok (ltb 1 (length (entry_ids g))) _ _ h1 in
      let (n, i) =
        first_item (keep (λ (n : GraphNode). is_nil (get_incoming_edges g n.id)) g.nodes)
          (sym (is_nil-map (λ (n : GraphNode). n.id) _) ∙ some_first) in
      let (j, lonely) =
        In-of_keep (λ (n : GraphNode). is_nil (get_incoming_edges g n.id)) g.nodes i in
      let free : mem n.id (targets g) ≡ false =
        not-false _ (sym (is_nil-incoming n.id g.edges) ∙ lonely) in
      (
        n,
        j,
        free,
        λ m k f.
            one_item (get_entry_nodes g)
              (ap (λ l. ltb 1 l) (sym (length-map (λ (n : GraphNode). n.id) (get_entry_nodes g)))
                ∙ few)
              (In-keep is_entry k (rw f refl)) (In-keep is_entry j (rw free refl)),
      )

  condition_lem :
      (n : GraphNode) (q : QuestionData) (e : GraphEdge) (c : Text)
      → check_condition n.id q e ≡ ok tt
      → e.condition ≡ some c
      → is_nil (strip c) ≡ false
      → mem (strip c) q.options ≡ true
  unfolding check_condition
  condition_lem n q e c h same filled =
      let missing = second_passed _ _ _ _ (rw (check_condition, same, filled) at h) in ground arith

  edges_of-In :
      (n : GraphNode) (q : QuestionData) (es : List GraphEdge) {e : GraphEdge}
      → check_edges_of g n q es ≡ ok tt
      → In e es
      → check_condition n.id q e ≡ ok tt
  unfolding check_edges_of
  edges_of-In n q [] h m = elim m [ ]
  edges_of-In n q (x ∷ xs) h m =
      let (_, _, rest) =
        >>=-eq-ok (check_coverage n.id q (x ∷ xs)) (λ _. for_each (check_condition n.id q) (x ∷ xs))
          h in
      for_each-In (check_condition n.id q) (x ∷ xs) rest m

  question_lem :
      (n : GraphNode) (q : QuestionData) (e : GraphEdge)
      → check_question g n ≡ ok tt
      → question_data n ≡ some q
      → In e g.edges
      → e.source ≡ n.id
      → check_condition n.id q e ≡ ok tt
  unfolding check_question get_outgoing_edges
  question_lem n q e h d i s =
      edges_of-In n q (get_outgoing_edges g n.id) (rw (check_question, d) at h) (
        In-keep (λ (e : GraphEdge). e.source == n.id) i
          (subst (λ k. (k == n.id) ≡ true) (sym s) (eq_refl n.id)))

  is_question-data :
      (n : GraphNode) {q : QuestionData} → question_data n ≡ some q → is_question n ≡ true
  unfolding question_data is_question
  is_question-data n {q} h = parts n.type h
    where
      parts :
          (t : NodeType)
          → (elim t [
            | conclusion ↦ none
            | question ↦ elim n.content [ asks q ↦ some q | concludes _ ↦ none ]
          ])
            ≡ some q
          → (elim t [ question ↦ true | conclusion ↦ false ]) ≡ true
      parts question h = refl
      parts conclusion h = absurd (cc)

  pub validate_graph-IsStrict : validate_graph g ≡ ok tt → IsStrict g
  unfolding validate_graph get_question_nodes check_ends
  validate_graph-IsStrict h =
      let (_, h1) = >>-eq-ok (is_nil g.nodes) _ _ h in
      let (all_new, h2) =
        >>-eq-ok (not (nat_beq (length (distinct [] (node_ids g))) (length g.nodes))) _ _ h1 in
      let (_, ends, h3) = >>=-eq-ok (for_each (check_ends g) g.edges) _ h2 in
      let (_, _, h4) = >>=-eq-ok (for_each check_content g.nodes) _ h3 in
      let (_, entry, h5) = >>=-eq-ok (check_entry g) _ h4 in
      let (_, _, h6) = >>=-eq-ok (check_conclusions g (get_conclusion_nodes g)) _ h5 in
      let (_, h7) = >>-eq-ok (is_nil (get_terminal_nodes g)) _ _ h6 in
      let (_, questions, _) = >>=-eq-ok (for_each (check_question g) (get_question_nodes g)) _ h7 in
      let same_length : length (distinct [] (node_ids g)) ≡ length (node_ids g) =
        ground (arith, length-map (λ (n : GraphNode). n.id) g.nodes) in
      record {
        distinct_ids = (Distinct-length [] (node_ids g) same_length).0;
        source_known = λ e m.
            let (b, _) =
              >>-eq-ok (not (mem e.source (node_ids g))) _ _
                (for_each-In (check_ends g) g.edges ends m) in
            ground arith;
        target_known = λ e m.
            let b = second_passed _ _ _ _ (for_each-In (check_ends g) g.edges ends m) in
            ground arith;
        entry = entry_lem entry;
        offered = λ n q e c i d m s same filled.
            let asked =
              for_each-In (check_question g) (get_question_nodes g) questions
                (In-keep is_question i (is_question-data n d)) in
            condition_lem n q e c (question_lem n q e asked d m s) same filled;
      }
