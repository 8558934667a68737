-- ===== src/Ir/Json/RoundTrip.antt =====
-- About reading back what smeme/reasoning/ir/serialize.py stores.
use smeme.Base.{
  Text, codes, ◌==◌, is_nil, false, not, nat_beq, ◌≡◌, ◌≢◌, refl, sym, subst, ap, ◌∙◌, Option, none,
  some, List, [], ◌∷◌, map, In, head, tail, In-cons, inl, inr, arith,
}
use smeme.Base.Result.{Result, ok, err, ◌>>=◌, >>=-eq-ok, >>-eq-ok, ok_injective}
use smeme.Ir.Types.{
  Ir, IrNode, IrEdge, Guard, IrNodeKind, question, conclusion, IrQuestionShape, radio,
  ir_format_version,
}
use smeme.Ir.Json.{
  Json, text, null, JsonError, items, items_list, question_json, kind_value, node_json, edge_json,
  guard_json, ir_to_json, at_key, get, iterate, as_text, each, int, kind_of, is_radio, options_of,
  shape_from, question_from, text_at, node_from, edge_from, guard_from, rows, ir_from_json,
}

-- A question that can be read back is a radio question with an option.
abbrev pub IsStorable : Option IrQuestionShape → Type 0
IsStorable none = Unit
IsStorable (some q) = (q.qtype ≡ radio) × (q.options ≢ [])

pub items_list-items : (xs : List Json) → items_list (items xs) ≡ xs
unfolding items items_list
items_list-items [] = refl
items_list-items (x ∷ xs) = ap (λ l. x ∷ l) (items_list-items xs)

-- Reading undoes writing if it does so for each item.
each-map :
    {A : Type 0} (write : A → Json) (read : Json → Result JsonError A) (xs : List A)
    → ((x : A) → In x xs → read (write x) ≡ ok x)
    → each read (map write xs) ≡ ok xs
unfolding each
each-map write read [] h = refl
each-map write read (x ∷ xs) h = rw (h x head, each-map write read xs (λ y m. h y (tail m))) refl

as_text-each : (ts : List Text) → each as_text (map text ts) ≡ ok ts
unfolding as_text
as_text-each ts = each-map text as_text ts (λ t m. refl)

shape_from-json :
    (t : Text) (os : List Text)
    → t ≡ radio
    → os ≢ []
    → question_from (question_json (some (record { qtype = t; options = os })))
      ≡ ok (some (record { qtype = t; options = os }))
unfolding question_from question_json shape_from get is_radio ◌==◌
shape_from-json t [] r filled = absurd (filled refl)
shape_from-json t (o ∷ os) r filled = rw (r, items_list-items (map text os), as_text-each os) refl

question_from-json :
    (q : Option IrQuestionShape) → IsStorable q → question_from (question_json q) ≡ ok q
unfolding question_from question_json
question_from-json none h = refl
question_from-json (some q) (r, filled) = shape_from-json q.qtype q.options r filled

node_parts :
    (id : Text) (k : IrNodeKind) (q : Option IrQuestionShape)
    → IsStorable q
    → node_from (node_json (record { id = id; kind = k; question = q }))
      ≡ ok (record { id = id; kind = k; question = q })
unfolding node_from node_json at_key get kind_of kind_value text_at as_text ◌==◌
node_parts id question q h = rw (question_from-json q h) refl
node_parts id conclusion q h = rw (question_from-json q h) refl

node_from-json : (n : IrNode) → IsStorable n.question → node_from (node_json n) ≡ ok n
node_from-json n h = node_parts n.id n.kind n.question h

edge_from-json : (e : IrEdge) → edge_from (edge_json e) ≡ ok e
unfolding edge_from edge_json at_key text_at as_text ◌==◌
edge_from-json e = refl

guard_from-json : (g : Guard) → guard_from (guard_json g) ≡ ok g
unfolding guard_from guard_json at_key text_at as_text ◌==◌
guard_from-json g = refl

-- Storing an Ir and reading it gives the Ir back, if it has the current version and its questions are
-- radio questions with an option.
pub ir_from_json-to_json :
    (ir : Ir)
    → ir.format_version ≡ ir_format_version
    → ((n : IrNode) → In n ir.nodes → IsStorable n.question)
    → ir_from_json (ir_to_json ir) ≡ ok ir
unfolding ir_from_json ir_to_json rows at_key int iterate ◌==◌
ir_from_json-to_json ir version stored =
    rw
      (
        version,
        items_list-items (map node_json ir.nodes),
        items_list-items (map edge_json ir.edges),
        items_list-items (map guard_json ir.guards),
        each-map node_json node_from ir.nodes (λ n m. node_from-json n (stored n m)),
        each-map edge_json edge_from ir.edges (λ e m. edge_from-json e),
        each-map guard_json guard_from ir.guards (λ g m. guard_from-json g),
      )
      refl

each-In :
    {A : Type 0} (read : Json → Result JsonError A) (xs : List Json) {ys : List A} {y : A}
    → each read xs ≡ ok ys
    → In y ys
    → (x : Json) × (read x ≡ ok y)
unfolding each
each-In read [] h m = elim (subst (In _) (sym (ok_injective h)) m) [ ]
each-In read (x ∷ xs) h m =
    let (a, first, h1) = >>=-eq-ok (read x) _ h in
    let (rest, others, h2) = >>=-eq-ok (each read xs) _ h1 in
    elim (In-cons (subst (In _) (sym (ok_injective h2)) m)) [
      | inl e ↦ (x, first ∙ ap ok (sym e))
      | inr later ↦ each-In read xs others later
    ]

each-filled :
    {A : Type 0} (read : Json → Result JsonError A) (xs : List Json) {ys : List A}
    → each read xs ≡ ok ys
    → is_nil xs ≡ false
    → ys ≢ []
unfolding each
each-filled read [] h f = absurd (cc)
each-filled read (x ∷ xs) h f =
    let (a, first, h1) = >>=-eq-ok (read x) _ h in
    let (rest, others, h2) = >>=-eq-ok (each read xs) _ h1 in λ e. absurd (cc (ok_injective h2))

shape_from_lem :
    (v : Json) {q : IrQuestionShape} → shape_from v ≡ ok q → (q.qtype ≡ radio) × (q.options ≢ [])
unfolding shape_from
shape_from_lem v {q} h =
    let (qt, a, h1) = >>=-eq-ok (get (codes "qtype") v) _ h in
    let (_, h2) = >>-eq-ok (not (is_radio qt)) _ _ h1 in
    let (raw, b, h3) = >>=-eq-ok (get (codes "options") v) _ h2 in
    let (opts, c, h4) = >>=-eq-ok (options_of raw) _ h3 in
    let (some_option, h5) = >>-eq-ok (is_nil opts) _ _ h4 in
    let (options, d, h6) = >>=-eq-ok (each as_text opts) _ h5 in
    let same = ok_injective h6 in
    (
      sym (ap (λ (s : IrQuestionShape). s.qtype) same),
      subst (λ l. l ≢ []) (ap (λ (s : IrQuestionShape). s.options) same)
          (each-filled as_text opts d some_option),
    )

read_shape :
    (r : Result JsonError IrQuestionShape) {q : Option IrQuestionShape}
    → (r >>= λ s. ok (some s)) ≡ ok q
    → ((s : IrQuestionShape) → r ≡ ok s → IsStorable (some s))
    → IsStorable q
read_shape (ok s) h storable = subst IsStorable (ok_injective h) (storable s refl)
read_shape (err e) h storable = absurd (cc)

question_from-IsStorable :
    (v : Json) {q : Option IrQuestionShape} → question_from v ≡ ok q → IsStorable q
unfolding question_from
question_from-IsStorable null h = subst IsStorable (ok_injective h) tt
question_from-IsStorable v h = read_shape (shape_from v) h (λ s read. shape_from_lem v read)

node_from-IsStorable : (row : Json) {n : IrNode} → node_from row ≡ ok n → IsStorable n.question
unfolding node_from
node_from-IsStorable row h =
    let (raw, _, h1) = >>=-eq-ok (at_key (codes "kind") row) _ h in
    let (kind, _, h2) = >>=-eq-ok (kind_of raw) _ h1 in
    let (qraw, _, h3) = >>=-eq-ok (get (codes "question") row) _ h2 in
    let (q, read, h4) = >>=-eq-ok (question_from qraw) _ h3 in
    let (id, _, h5) = >>=-eq-ok (text_at (codes "id") row) _ h4 in
    subst IsStorable (ap (λ (n : IrNode). n.question) (ok_injective h5))
      (question_from-IsStorable qraw read)

-- Whatever is read from a stored form, even from one that `ir_to_json` has not written, is written to
-- a form from which the same Ir is read.
pub ir_from_json-stable :
    (json : Json) (ir : Ir) → ir_from_json json ≡ ok ir → ir_from_json (ir_to_json ir) ≡ ok ir
unfolding ir_from_json rows
ir_from_json-stable json ir h =
    let (raw, _, h1) = >>=-eq-ok (at_key (codes "format_version") json) _ h in
    let (fv, _, h2) = >>=-eq-ok (int raw) _ h1 in
    let (current, h3) = >>-eq-ok (not (nat_beq fv ir_format_version)) _ _ h2 in
    let (nodes, read, h4) = >>=-eq-ok (rows (codes "nodes") node_from json) _ h3 in
    let (edges, _, h5) = >>=-eq-ok (rows (codes "edges") edge_from json) _ h4 in
    let (guards, _, h6) = >>=-eq-ok (rows (codes "guards") guard_from json) _ h5 in
    let same = ok_injective h6 in
    let (v, _, r1) = >>=-eq-ok (at_key (codes "nodes") json) _ read in
    let (xs, _, r2) = >>=-eq-ok (iterate v) _ r1 in
    let version : fv ≡ ir_format_version = ground arith in
    ir_from_json-to_json ir (sym (ap (λ (i : Ir). i.format_version) same) ∙ version) (λ n m.
      let (row, made) = each-In node_from xs r2 (subst (λ (i : Ir). In n i.nodes) (sym same) m) in
      node_from-IsStorable row made)
