-- ===== src/Theory/Guards.antt =====
-- `apply_radio_guard_semantics` of smeme/reasoning/theory/guards_radio.py. A dict lookup that would
-- raise KeyError gives `none`. The dicts `reach` and `guard_bools` give each key's variable name.
use smeme.Base.{
  flat, Text, ◌==◌, mem, distinct, Option, none, some, List, [], ◌∷◌, ◌++◌, map, find_last, is_nil,
  if◌then◌else◌,
}
use smeme.Ir.Types.{Ir, IrNode, IrEdge, Guard, question, conclusion, radio, default_guard_expr}
use smeme.Ir.Validate.{node_by_id}
use smeme.Theory.Formula.{Formula, atom, neg, implies, iff, exactly_one}
use smeme.Theory.Symbols.{Platform, radio_option_symbol_name, reach_symbol, guard_symbol}

infixl 5 ◌>>=◌
abbrev pub ◌>>=◌ {ℓ κ} : {A : Type ℓ} {B : Type κ} → Option A → (A → Option B) → Option B
none >>= f = none
some a >>= f = f a

-- A loop whose body may raise.
abbrev pub collect : {A B : Type 0} → (A → Option (List B)) → List A → Option (List B)
collect f [] = some []
collect f (x ∷ xs) = do ys ← f x; zs ← collect f xs; some (ys ++ zs)

-- `guard_source.get(gid)`: the source of the last edge with the guard.
unfoldable pub guard_source : Ir → Text → Option Text
guard_source ir gid = elim (find_last (λ (e : IrEdge). e.guard_id == gid) ir.edges) [
  | none ↦ none
  | some e ↦ some e.source
]

module _ (p : Platform) where
  -- `atoms.values()`: the keys of a dict are distinct, in the order of their first occurrence.
  unfoldable pub option_atoms : Text → List Text → List Text
  unfolding distinct
  option_atoms qid options = map (radio_option_symbol_name p qid) (distinct [] options)

  -- The dict of the option atoms is read as one entry for each node, as it is when ids are distinct.
  -- One assertion for a question that is reached: its single option, or exactly one of several.
  unfoldable pub choice : Text → List Text → List Formula
  choice r [] = []
  choice r (b ∷ []) = implies (atom r) (atom b) ∷ []
  choice r (b ∷ c ∷ bs) = implies (atom r) (exactly_one (b ∷ c ∷ bs)) ∷ []

  unfoldable pub node_choice : IrNode → List Formula
  unfolding option_atoms choice
  node_choice n = elim n.kind [
    | conclusion ↦ []
    | question ↦ elim n.question [
      | none ↦ []
      | some q ↦
          if q.qtype == radio
          then choice (reach_symbol p n.id) (option_atoms n.id q.options)
          else []
    ]
  ]

  -- The wiring of one guard, given the node that its source resolves to.
  unfoldable pub guard_wiring_at : Guard → Option IrNode → Option (List Formula)
  guard_wiring_at g none = some []
  guard_wiring_at g (some n) = elim n.kind [
    | conclusion ↦ some []
    | question ↦ elim n.question [
      | none ↦ some []
      | some q ↦
          if q.qtype == radio
          then (if is_nil q.options
              then some (neg (atom (guard_symbol p g.id)) ∷ [])
              else if mem g.expr q.options
              then some (
                  iff (atom (guard_symbol p g.id)) (atom (radio_option_symbol_name p n.id g.expr))
                  ∷ [])
              else none)
          else some []
    ]
  ]

  unfoldable pub guard_wiring : Ir → Guard → Option (List Formula)
  unfolding guard_wiring_at guard_source node_by_id
  guard_wiring ir g =
      if g.expr == default_guard_expr then some [] else elim (guard_source ir g.id) [
        | none ↦ some []
        | some src ↦ guard_wiring_at g (node_by_id ir src)
      ]

  unfoldable pub apply_radio_guard_semantics : Ir → Option (List Formula)
  unfolding node_choice guard_wiring
  apply_radio_guard_semantics ir = do
    wired ← collect (guard_wiring ir) ir.guards
    some (flat node_choice ir.nodes ++ wired)
