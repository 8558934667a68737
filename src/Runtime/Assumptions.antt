-- ===== src/Runtime/Assumptions.antt =====
-- smeme/reasoning/runtime/assumptions.py. A frozenset of ids is a list of which only the set of its
-- items is read.
use smeme.Base.{
  find, sort, text_leb, ℕ, ◌+◌, Text, distinct, mem, strip, is_nil, Bool, not, ◌&&◌, ltb, keep,
  if◌then◌else◌, Option, none, some, List, [], ◌∷◌, ◌++◌, map, length,
}
use smeme.Base.Result.{err, Result, ok, raise_if, ◌>>◌}
use smeme.Ir.Types.{Ir, IrNode}
use smeme.Theory.Formula.{Formula, atom, neg}
use smeme.Theory.Symbols.{Platform, reach_symbol}

abbrev pub max_assumption_node_ids : ℕ
max_assumption_node_ids = 32

pub record ReasoningAssumptions : Type 0 where
  pub force_reachable : List Text
  pub force_unreachable : List Text

pub data AssumptionsError : Type 0 where
  cap_exceeded : ℕ → AssumptionsError
  conflicting : List Text → AssumptionsError
  invalid_node_id : Text → AssumptionsError

unfoldable pub is_empty : ReasoningAssumptions → Bool
is_empty phi = is_nil phi.force_reachable && is_nil phi.force_unreachable

-- `_normalize_id_list`; `seen` holds the ids so far.
unfoldable pub normalize_ids : List Text → List (Option Text) → List Text
unfolding strip
normalize_ids seen [] = []
normalize_ids seen (none ∷ ids) = normalize_ids seen ids
normalize_ids seen (some raw ∷ ids) =
    let rest = normalize_ids seen ids in
    let more = normalize_ids (strip raw ∷ seen) ids in
    if is_nil (strip raw) then rest else if mem (strip raw) seen then rest else strip raw ∷ more

unfoldable pub assumptions_from_lists :
    List (Option Text) → List (Option Text) → ReasoningAssumptions
unfolding normalize_ids
assumptions_from_lists force_reachable_ids force_unreachable_ids = record {
  force_reachable = normalize_ids [] force_reachable_ids;
  force_unreachable = normalize_ids [] force_unreachable_ids;
}

unfoldable pub conflict : ReasoningAssumptions → List Text
conflict phi =
    sort text_leb (keep (λ id. mem id phi.force_unreachable) (distinct [] phi.force_reachable))

-- The first id, in sorted order, that no node has.
unfoldable pub unknown_id : Ir → ReasoningAssumptions → Option Text
unfolding distinct
unknown_id ir phi =
    find (λ id. not (mem id (map (λ (n : IrNode). n.id) ir.nodes)))
      (sort text_leb (distinct [] (phi.force_reachable ++ phi.force_unreachable)))

unfoldable pub validate_assumptions : Ir → ReasoningAssumptions → Result AssumptionsError Unit
unfolding is_empty conflict unknown_id distinct
validate_assumptions ir phi =
    let total =
      length (distinct [] phi.force_reachable) + length (distinct [] phi.force_unreachable) in
    if is_empty phi then ok tt else (do
      raise_if (ltb max_assumption_node_ids total) (cap_exceeded total)
      raise_if (not (is_nil (conflict phi))) (conflicting (conflict phi))
      elim (unknown_id ir phi) [ none ↦ ok tt | some id ↦ err (invalid_node_id id) ])

-- The literals that `apply_assumptions_to_solver` adds.
unfoldable pub assumption_literals : Platform → ReasoningAssumptions → List Formula
unfolding distinct
assumption_literals p phi =
    map (λ id. atom (reach_symbol p id)) (sort text_leb (distinct [] phi.force_reachable))
    ++ map (λ id. neg (atom (reach_symbol p id)))
        (sort text_leb (distinct [] phi.force_unreachable))
