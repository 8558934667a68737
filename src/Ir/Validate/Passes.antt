-- ===== src/Ir/Validate/Passes.antt =====
-- The passes of `validate_ir` (smeme/reasoning/ir/validate.py) over nodes, guards and edges.
use smeme.Base.{
  Text, ==→eq, eq_iff, eq_refl, mem, Distinct, mem-distinct_nil, ◌≡◌, refl, sym, subst, ◌↔◌, inl,
  inr, true, false, Option, none, some, List, [], ◌∷◌, report, In, head, tail, In-cons,
  append-eq-nil, arith, Bool-cases, Bool,
}
use smeme.Ir.Types.{
  Ir, IrNode, IrEdge, Guard, IrNodeKind, question, conclusion, IrQuestionShape, radio,
}
use smeme.Ir.Validate.{
  duplicate_node, duplicate_guard, shape_errors, node_errors, guard_errors, node_ids, guard_ids,
  edge_errors,
}
use smeme.Ir.Validate.Spec.{ids_of, guard_ids_of, IsShaped}

pub report-nil : {E : Type 0} (b : Bool) (x : E) → (report b x ≡ []) ↔ (b ≡ false)
report-nil b x = (λ h. ground arith, λ h. ground arith)

-- No text of the list stands in the set already.
abbrev Apart : List Text → List Text → Type 0
Apart seen xs = (a : Text) → mem a xs ≡ true → mem a seen ≡ false

Apart-cons :
    (seen : List Text) (x : Text) (xs : List Text)
    → mem x seen ≡ false
    → mem x xs ≡ false
    → Apart (x ∷ seen) xs
    → Apart seen (x ∷ xs)
Apart-cons seen x xs h k rest a m = ground (arith, rest a, eq_iff x a)

Apart-step :
    (seen : List Text) (x : Text) (xs : List Text)
    → mem x xs ≡ false
    → Apart seen (x ∷ xs)
    → Apart (x ∷ seen) xs
Apart-step seen x xs k h a m = ground (arith, h a, eq_iff x a)

Apart-fresh :
    (seen : List Text) (x : Text) (xs : List Text) → Apart (x ∷ seen) xs → mem x xs ≡ false
Apart-fresh seen x xs h = elim (Bool-cases (mem x xs)) [
  | inl m ↦ absurd (cc (h x m, eq_refl x))
  | inr n ↦ n
]

Apart-first :
    (seen : List Text) (x : Text) (xs : List Text) → Apart seen (x ∷ xs) → mem x seen ≡ false
Apart-first seen x xs h = h x (ground (arith, eq_refl x))

guard_errors→ :
    (seen : List Text) (gs : List Guard)
    → guard_errors seen gs ≡ []
    → Apart seen (guard_ids_of gs) × Distinct (guard_ids_of gs)
unfolding guard_errors
guard_errors→ seen [] h = (λ a m. absurd (cc), tt)
guard_errors→ seen (g ∷ gs) h =
    let (a, b) =
      append-eq-nil (report (mem g.id seen) (duplicate_guard g.id)) (guard_errors (g.id ∷ seen) gs)
        h in
    let new = (report-nil (mem g.id seen) (duplicate_guard g.id)).0 a in
    let (apart, rest) = guard_errors→ (g.id ∷ seen) gs b in
    let fresh = Apart-fresh seen g.id (guard_ids_of gs) apart in
    (Apart-cons seen g.id (guard_ids_of gs) new fresh apart, (fresh, rest))

guard_errors← :
    (seen : List Text) (gs : List Guard)
    → Apart seen (guard_ids_of gs)
    → Distinct (guard_ids_of gs)
    → guard_errors seen gs ≡ []
unfolding guard_errors
guard_errors← seen [] h d = refl
guard_errors← seen (g ∷ gs) h d =
    rw (Apart-first seen g.id (guard_ids_of gs) h)
      (guard_errors← (g.id ∷ seen) gs (Apart-step seen g.id (guard_ids_of gs) d.0 h) d.1)

-- The pass over the guards.
pub guard_errors-nil : (gs : List Guard) → (guard_errors [] gs ≡ []) ↔ Distinct (guard_ids_of gs)
guard_errors-nil gs = (λ h. (guard_errors→ [] gs h).1, λ d. guard_errors← [] gs (λ a m. refl) d)

shape_errors-nil :
    (id : Text) (k : IrNodeKind) (q : Option IrQuestionShape)
    → (shape_errors id k q ≡ []) ↔ IsShaped k q
unfolding shape_errors
shape_errors-nil id conclusion none = (λ h. tt, λ h. refl)
shape_errors-nil id conclusion (some q) = (λ h. absurd (cc), λ h. absurd h)
shape_errors-nil id question none = (λ h. absurd (cc), λ h. absurd h)
shape_errors-nil id question (some q) =
    (λ h. ground (arith, ==→eq q.qtype radio), λ h. ground (arith, eq_iff q.qtype radio))

node_errors→ :
    (seen : List Text) (ns : List IrNode)
    → node_errors seen ns ≡ []
    → Apart seen (ids_of ns)
      × Distinct (ids_of ns)
      × ((n : IrNode) → In n ns → IsShaped n.kind n.question)
unfolding node_errors
node_errors→ seen [] h = (λ a m. absurd (cc), tt, λ n m. elim m [ ])
node_errors→ seen (n ∷ ns) h =
    let (a, b) = append-eq-nil (report (mem n.id seen) (duplicate_node n.id)) _ h in
    let (c, d) = append-eq-nil (shape_errors n.id n.kind n.question) _ b in
    let new = (report-nil (mem n.id seen) (duplicate_node n.id)).0 a in
    let (apart, rest, shaped) = node_errors→ (n.id ∷ seen) ns (rw new at d) in
    let fresh = Apart-fresh seen n.id (ids_of ns) apart in
    (
      Apart-cons seen n.id (ids_of ns) new fresh apart,
      (fresh, rest),
      λ x m. elim (In-cons m) [
        | inl e ↦
            subst (λ (y : IrNode). IsShaped y.kind y.question) (sym e)
              ((shape_errors-nil n.id n.kind n.question).0 c)
        | inr later ↦ shaped x later
      ],
    )

node_errors← :
    (seen : List Text) (ns : List IrNode)
    → Apart seen (ids_of ns)
    → Distinct (ids_of ns)
    → ((n : IrNode) → In n ns → IsShaped n.kind n.question)
    → node_errors seen ns ≡ []
unfolding node_errors
node_errors← seen [] h d s = refl
node_errors← seen (n ∷ ns) h d s =
    rw (Apart-first seen n.id (ids_of ns) h, (shape_errors-nil n.id n.kind n.question).1 (s n head))
      (node_errors← (n.id ∷ seen) ns (Apart-step seen n.id (ids_of ns) d.0 h) d.1
        (λ x m. s x (tail m)))

-- The pass over the nodes.
pub node_errors-nil :
    (ns : List IrNode)
    → (node_errors [] ns ≡ [])
      ↔ (Distinct (ids_of ns) × ((n : IrNode) → In n ns → IsShaped n.kind n.question))
node_errors-nil ns = (
  λ h. let (_, d, s) = node_errors→ [] ns h in (d, s),
  λ h. node_errors← [] ns (λ a m. refl) h.0 h.1,
)

pub mem-node_ids : (ir : Ir) (a : Text) → mem a (node_ids ir) ≡ mem a (ids_of ir.nodes)
unfolding node_ids
mem-node_ids ir a = mem-distinct_nil a (ids_of ir.nodes)

pub mem-guard_ids : (ir : Ir) (a : Text) → mem a (guard_ids ir) ≡ mem a (guard_ids_of ir.guards)
unfolding guard_ids
mem-guard_ids ir a = mem-distinct_nil a (guard_ids_of ir.guards)

pub edge_errors-nil :
    (ir : Ir) (e : IrEdge)
    → (edge_errors ir e ≡ []) ↔ (
        (mem e.source (ids_of ir.nodes) ≡ true)
        × (mem e.target (ids_of ir.nodes) ≡ true)
        × (mem e.guard_id (guard_ids_of ir.guards) ≡ true))
unfolding edge_errors
edge_errors-nil ir e = (
  λ h.
      ground
        (arith, mem-node_ids ir e.source, mem-node_ids ir e.target, mem-guard_ids ir e.guard_id),
  λ h.
      ground
        (arith, mem-node_ids ir e.source, mem-node_ids ir e.target, mem-guard_ids ir e.guard_id),
)
