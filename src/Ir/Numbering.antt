-- ===== src/Ir/Numbering.antt =====
-- The guard ids `f"g_{i:06d}"` of smeme/reasoning/ir/dt_graph_to_ir.py.
use smeme.Base.{
  In, head, tail, In-cons, map, mem, ◌==◌, ==→eq, Distinct, false, ℕ, zero, suc, ◌+◌, ◌-◌, ◌*◌, ◌/◌,
  ◌%◌, ◌^◌, ◌≤◌, ◌<◌, Text, ltb, Bool-cases, if◌then◌else◌, ◌≡◌, refl, sym, ap, ◌∙◌, List, [], ◌∷◌,
  ◌++◌, inl, inr, arith,
}
use smeme.Tree.Types.{GraphEdge}
use smeme.Ir.Types.{IrEdge, Guard}
use smeme.Ir.Validate.Spec.{guard_ids_of}
use smeme.Ir.Build.{
  edge_expr, numbered_guards, numbered_edges, decimal, digit_count, numbered_guard,
}

-- The number that digits spell, on from `acc`.
abbrev read : ℕ → Text → ℕ
read acc [] = acc
read acc (c ∷ s) = read (acc * 10 + (c - 48)) s

read-append : (acc : ℕ) (s t : Text) → read acc (s ++ t) ≡ read (read acc s) t
read-append acc [] t = refl
read-append acc (c ∷ s) t = read-append (acc * 10 + (c - 48)) s t

ten_more : (w : ℕ) → 10 ^ suc w ≡ 10 * 10 ^ w
ten_more w = omega arith

-- Enough digits spell the number.
read-decimal : (w n : ℕ) → n < 10 ^ w → read 0 (decimal w n) ≡ n
unfolding decimal
read-decimal zero n h = ground arith
read-decimal (suc w) n h =
    let small : n / 10 < 10 ^ w = omega (arith, ten_more w) in
    read-append 0 (decimal w (n / 10)) ((48 + n % 10) ∷ [])
    ∙ omega (arith, read-decimal w (n / 10) small)

lt_digits : (fuel n : ℕ) → n ≤ fuel → n < 10 ^ digit_count fuel n
unfolding digit_count
lt_digits zero n h = ground arith
lt_digits (suc fuel) n h = elim (Bool-cases (ltb n 10)) [
  | inl small ↦ rw (digit_count, small) (ground arith)
  | inr large ↦
      let big : 10 ≤ n = ground arith in
      rw (digit_count, large)
        (omega (arith, ten_more (digit_count fuel (n / 10)), lt_digits fuel (n / 10) (omega arith)))
]

-- The width that `06d` gives a number.
abbrev width : ℕ → ℕ
width i = if ltb i 1000000 then 6 else digit_count i i

lt_width : (i : ℕ) → i < 10 ^ width i
lt_width i = elim (Bool-cases (ltb i 1000000)) [
  | inl small ↦ rw small (ground arith)
  | inr large ↦ rw large (lt_digits i i (omega arith))
]

abbrev skip_two : Text → Text
skip_two (_ ∷ _ ∷ s) = s
skip_two _ = []

read-numbered_guard : (i : ℕ) → read 0 (skip_two (numbered_guard i)) ≡ i
unfolding numbered_guard
read-numbered_guard i = read-decimal (width i) i (lt_width i)

-- Two edges have two guard ids, however many edges there are.
pub numbered_guard-injective : (i j : ℕ) → numbered_guard i ≡ numbered_guard j → i ≡ j
numbered_guard-injective i j e =
    sym (read-numbered_guard i) ∙ ap (λ t. read 0 (skip_two t)) e ∙ read-numbered_guard j

pub edges_known :
    (i : ℕ) (es : List GraphEdge) {e : IrEdge}
    → In e (numbered_edges i es)
    → (d : GraphEdge) × In d es × (d.source ≡ e.source) × (d.target ≡ e.target)
unfolding numbered_edges
edges_known i [] m = elim m [ ]
edges_known i (d ∷ es) m = elim (In-cons m) [
  | inl same ↦
      (d, head, sym (ap (λ (x : IrEdge). x.source) same), sym (ap (λ (x : IrEdge). x.target) same))
  | inr later ↦ let (c, n, s, t) = edges_known (suc i) es later in (c, tail n, s, t)
]

-- Guards and edges are numbered side by side.
pub guard_ids-edges :
    (i : ℕ) (es : List GraphEdge)
    → guard_ids_of (numbered_guards i es) ≡ map (λ (e : IrEdge). e.guard_id) (numbered_edges i es)
unfolding numbered_edges numbered_guards
guard_ids-edges i [] = refl
guard_ids-edges i (e ∷ es) = ap (λ l. numbered_guard i ∷ l) (guard_ids-edges (suc i) es)

-- A guard of the rest has a later number.
guard_number :
    (i : ℕ) (es : List GraphEdge) {gd : Guard}
    → In gd (numbered_guards i es)
    → (j : ℕ) × (i ≤ j) × (gd.id ≡ numbered_guard j)
unfolding numbered_guards
guard_number i [] m = elim m [ ]
guard_number i (e ∷ es) m = elim (In-cons m) [
  | inl same ↦ (i, omega arith, ap (λ (x : Guard). x.id) same)
  | inr later ↦ let (j, le, named) = guard_number (suc i) es later in (j, omega arith, named)
]

edge_number :
    (i : ℕ) (es : List GraphEdge) {e : IrEdge}
    → In e (numbered_edges i es)
    → (j : ℕ) × (i ≤ j) × (e.guard_id ≡ numbered_guard j)
unfolding numbered_edges
edge_number i [] m = elim m [ ]
edge_number i (e ∷ es) m = elim (In-cons m) [
  | inl same ↦ (i, omega arith, ap (λ (x : IrEdge). x.guard_id) same)
  | inr later ↦ let (j, le, named) = edge_number (suc i) es later in (j, omega arith, named)
]

-- The graph's edge behind an edge and its guard.
abbrev pub IsDrawn : List GraphEdge → IrEdge → Guard → Type 0
IsDrawn es e gd =
    (d : GraphEdge) × In d es
    × (d.source ≡ e.source)
    × (d.target ≡ e.target)
    × (edge_expr d ≡ gd.expr)

pub labelled_lem :
    (i : ℕ) (es : List GraphEdge) {e : IrEdge} {gd : Guard}
    → In e (numbered_edges i es)
    → In gd (numbered_guards i es)
    → gd.id ≡ e.guard_id
    → IsDrawn es e gd
unfolding numbered_edges numbered_guards
labelled_lem i [] m n same = elim m [ ]
labelled_lem i (d ∷ es) {e} {gd} m n same = elim (In-cons m) [
  | inl a ↦ elim (In-cons n) [
    | inl b ↦ (
      d,
      head,
      sym (ap (λ (x : IrEdge). x.source) a),
      sym (ap (λ (x : IrEdge). x.target) a),
      sym (ap (λ (x : Guard). x.expr) b),
    )
    | inr b ↦
        let (j, le, named) = guard_number (suc i) es b in
        let clash =
          numbered_guard-injective j i (sym named ∙ same ∙ ap (λ (x : IrEdge). x.guard_id) a) in
        absurd (omega arith)
  ]
  | inr a ↦ elim (In-cons n) [
    | inl b ↦
        let (j, le, named) = edge_number (suc i) es a in
        let clash =
          numbered_guard-injective j i (sym named ∙ sym same ∙ ap (λ (x : Guard). x.id) b) in
        absurd (omega arith)
    | inr b ↦ let (c, k, s, t, x) = labelled_lem (suc i) es a b same in (c, tail k, s, t, x)
  ]
]

guard_fresh :
    (k i : ℕ) (es : List GraphEdge)
    → k < i
    → mem (numbered_guard k) (guard_ids_of (numbered_guards i es)) ≡ false
unfolding numbered_guards
guard_fresh k i [] h = refl
guard_fresh k i (e ∷ es) h = elim (Bool-cases (numbered_guard i == numbered_guard k)) [
  | inl same ↦ let clash = numbered_guard-injective i k (==→eq _ _ same) in absurd (omega arith)
  | inr other ↦ rw other (guard_fresh k (suc i) es (omega arith))
]

pub Distinct-guards : (i : ℕ) (es : List GraphEdge) → Distinct (guard_ids_of (numbered_guards i es))
unfolding numbered_guards
Distinct-guards i [] = tt
Distinct-guards i (e ∷ es) = (guard_fresh i (suc i) es (omega arith), Distinct-guards (suc i) es)

pub targets-edges :
    (i : ℕ) (es : List GraphEdge)
    → map (λ (e : IrEdge). e.target) (numbered_edges i es) ≡ map (λ (e : GraphEdge). e.target) es
unfolding numbered_edges
targets-edges i [] = refl
targets-edges i (e ∷ es) = ap (λ l. e.target ∷ l) (targets-edges (suc i) es)

pub kept_lem :
    (i : ℕ) (es : List GraphEdge) {d : GraphEdge}
    → In d es
    → (e : IrEdge) × (gd : Guard) × In e (numbered_edges i es)
      × In gd (numbered_guards i es)
      × (e.source ≡ d.source)
      × (e.target ≡ d.target)
      × (e.guard_id ≡ gd.id)
      × (gd.expr ≡ edge_expr d)
unfolding numbered_edges numbered_guards
kept_lem i [] m = elim m [ ]
kept_lem i (d ∷ es) head = (_, _, head, head, refl, refl, refl, refl)
kept_lem i (x ∷ es) (tail m) =
    let (e, gd, a, b, x, y, z, w) = kept_lem (suc i) es m in (e, gd, tail a, tail b, x, y, z, w)
