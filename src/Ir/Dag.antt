-- ===== src/Ir/Dag.antt =====
-- `_dag_structure_errors` of smeme/reasoning/ir/validate.py: self-loops, and the search for a
-- directed cycle by an iterative depth-first walk over three colours. The Python loop has no fuel;
-- here it has `dfs_fuel`.
pub mod Walk
pub mod Invariant
pub mod Search
pub mod Acyclic
pub mod Parents
use smeme.Base.{
  ℕ, zero, suc, ◌+◌, Text, ◌==◌, text_leb, sort, mem, Bool, true, false, not, ◌&&◌, if◌then◌else◌,
  List, [], ◌∷◌, ◌++◌, map, keep, length,
}
use smeme.Ir.Types.{IrEdge}

pub data Color : Type 0 where
  unseen visiting done : Color

-- The dict `state`; a key that is not in it is `_UNSEEN`.
abbrev pub State : Type 0
State = Text → Color

unfoldable pub update : State → Text → Color → State
update st k c j = if k == j then c else st j

-- A stack entry: a node and what is left of the iterator over its successors.
abbrev pub Frame : Type 0
Frame = Text × List Text

pub data Outcome : Type 0 where
  finished : State → Outcome
  cycle_found : Outcome
  out_of_fuel : Outcome

-- The entries of `adj`: edges between known nodes that are no self-loops, in the edges' order.
unfoldable pub is_arc : List Text → IrEdge → Bool
is_arc ids e = mem e.source ids && mem e.target ids && not (e.source == e.target)

unfoldable pub successors : List IrEdge → List Text → Text → List Text
unfolding is_arc
successors edges ids u = map (λ e. e.target) (keep (λ e. is_arc ids e && e.source == u) edges)

unfoldable pub is_self_loop : List Text → IrEdge → Bool
is_self_loop ids e = mem e.source ids && mem e.target ids && e.source == e.target

module _ (adj : Text → List Text) where
  -- The `while stack` loop of `dfs`. The top of the stack is the head of the list.
  unfoldable pub dfs_loop : ℕ → State → List Frame → Outcome
  dfs_loop zero st frames = out_of_fuel
  dfs_loop (suc fuel) st [] = finished st
  dfs_loop (suc fuel) st ((u, []) ∷ rest) = dfs_loop fuel (update st u done) rest
  dfs_loop (suc fuel) st ((u, v ∷ vs) ∷ rest) = elim (st v) [
    | unseen ↦ dfs_loop fuel (update st v visiting) ((v, adj v) ∷ (u, vs) ∷ rest)
    | visiting ↦ cycle_found
    | done ↦ dfs_loop fuel st ((u, vs) ∷ rest)
  ]

  unfoldable pub dfs : ℕ → State → Text → Outcome
  unfolding dfs_loop
  dfs fuel st start = dfs_loop fuel (update st start visiting) ((start, adj start) ∷ [])

  -- `for nid in sorted(node_ids)`, which ends at the first cycle.
  unfoldable pub dfs_all : ℕ → State → List Text → Outcome
  unfolding dfs
  dfs_all fuel st [] = finished st
  dfs_all fuel st (nid ∷ rest) = elim (st nid) [
    | unseen ↦ elim (dfs fuel st nid) [ finished st' ↦ dfs_all fuel st' rest | other ↦ other ]
    | _ ↦ dfs_all fuel st rest
  ]

  -- One step for each node that is entered or left, and one for each successor that is read.
  unfoldable pub dfs_fuel : List Text → ℕ
  dfs_fuel [] = 1
  dfs_fuel (n ∷ ns) = suc (length (adj n)) + dfs_fuel ns

abbrev pub all_unseen : State
all_unseen _ = unseen

-- Whether `_dag_structure_errors` reports a directed cycle.
unfoldable pub has_cycle : List IrEdge → List Text → Bool
unfolding successors dfs_all dfs_fuel
has_cycle edges ids =
    elim (dfs_all (successors edges ids) (dfs_fuel (successors edges ids) ids) all_unseen
      (sort text_leb ids)) [ finished _ ↦ false | _ ↦ true ]

-- What `_dag_structure_errors` reports, a self-loop by its edge.
pub data DagError : Type 0 where
  self_loop : IrEdge → DagError
  directed_cycle : DagError

unfoldable pub dag_structure_errors : List IrEdge → List Text → List DagError
unfolding is_self_loop has_cycle
dag_structure_errors edges ids =
    map self_loop (keep (is_self_loop ids) edges)
    ++ (if has_cycle edges ids then directed_cycle ∷ [] else [])
