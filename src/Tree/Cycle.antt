-- ===== src/Tree/Cycle.antt =====
-- `has_cycle` of smeme/decision_tree/helpers/validation.py: an iterative depth-first search that keeps
-- the nodes it has seen, the nodes on its path and, for the message, each node's parent. The Python
-- loops have no fuel; here the search has one step for each node and edge that it can meet, and the
-- walk over the parents one for each node that was seen.
pub mod Colors
pub mod Exact
pub mod Path
use smeme.Base.{
  ℕ, zero, suc, Text, ◌==◌, mem, is_nil, Bool, true, false, not, if◌then◌else◌, Option, none, some,
  List, [], ◌∷◌, ◌++◌, map, keep, length, reverse,
}
use smeme.Tree.Types.{DtGraph, GraphEdge}
use smeme.Tree.Queries.{node_ids, get_outgoing_edges}
use smeme.Ir.Dag.{Frame, dfs_fuel}

-- The sets `visited` and `rec_stack` and the dict `parent` that the nested function shares.
pub record CycleState : Type 0 where
  pub visited : List Text
  pub rec_stack : List Text
  pub parent : Text → Option Text

unfoldable pub set_parent : CycleState → Text → Text → CycleState
set_parent s k p = record {
  visited = s.visited;
  rec_stack = s.rec_stack;
  parent = λ j. if k == j then some p else s.parent j;
}

-- `visited.add(k)` and `rec_stack.add(k)`
unfoldable pub enter : CycleState → Text → CycleState
enter s k = record { visited = k ∷ s.visited; rec_stack = k ∷ s.rec_stack; parent = s.parent }

-- `rec_stack.remove(k)`, for a node that was entered when its frame was pushed.
unfoldable pub leave : CycleState → Text → CycleState
leave s k = record {
  visited = s.visited;
  rec_stack = keep (λ j. not (j == k)) s.rec_stack;
  parent = s.parent;
}

-- What `adjacency.get(id, [])` holds: the targets of the edges out of the node, in the edges' order.
unfoldable pub adjacency : DtGraph → Text → List Text
unfolding get_outgoing_edges
adjacency g id = map (λ (e : GraphEdge). e.target) (get_outgoing_edges g id)

-- How `dfs` ends: with the stack empty, or at a neighbour that is on the path.
pub data CycleOutcome : Type 0 where
  exhausted : CycleState → CycleOutcome
  back_to : Text → CycleState → CycleOutcome
  stuck : CycleOutcome

-- What `has_cycle` returns: `(False, None)`, or `True` with a message that spells a path.
pub data CycleReport : Type 0 where
  no_cycle : CycleReport
  cycle_detected : List Text → CycleReport
  unfinished : CycleReport

-- The loop `while current and current != cycle_node`.
unfoldable pub ancestors : ℕ → (Text → Option Text) → Text → Option Text → List Text
ancestors zero parent node current = []
ancestors (suc fuel) parent node none = []
ancestors (suc fuel) parent node (some k) = elim (is_nil k) [
  | true ↦ []
  | false ↦ elim (k == node) [ true ↦ [] | false ↦ k ∷ ancestors fuel parent node (parent k) ]
]

-- The path of the message: the node and its ancestors, reversed, and the node once more.
unfoldable pub cycle_path : CycleState → Text → List Text
unfolding ancestors
cycle_path s node =
    reverse (node ∷ ancestors (length s.visited) s.parent node (s.parent node)) ++ node ∷ []

module _ (adj : Text → List Text) where
  -- The loop `while stack` of `dfs`. The top of the stack is the head of the list.
  unfoldable pub cycle_loop : ℕ → CycleState → List Frame → CycleOutcome
  unfolding set_parent enter leave
  cycle_loop zero s frames = stuck
  cycle_loop (suc fuel) s [] = exhausted s
  cycle_loop (suc fuel) s ((u, []) ∷ rest) = cycle_loop fuel (leave s u) rest
  cycle_loop (suc fuel) s ((u, v ∷ vs) ∷ rest) = elim (mem v s.visited) [
    | false ↦ cycle_loop fuel (enter (set_parent s v u) v) ((v, adj v) ∷ (u, vs) ∷ rest)
    | true ↦ elim (mem v s.rec_stack) [
      | true ↦ back_to v (set_parent s v u)
      | false ↦ cycle_loop fuel s ((u, vs) ∷ rest)
    ]
  ]

  unfoldable pub cycle_dfs : ℕ → CycleState → Text → CycleOutcome
  unfolding cycle_loop enter
  cycle_dfs fuel s start = cycle_loop fuel (enter s start) ((start, adj start) ∷ [])

  -- `for node in graph.nodes`. An empty `cycle_node` is false, and the loop goes on.
  unfoldable pub cycle_all : ℕ → CycleState → List Text → CycleReport
  unfolding cycle_dfs cycle_path
  cycle_all fuel s [] = no_cycle
  cycle_all fuel s (id ∷ rest) = elim (mem id s.visited) [
    | true ↦ cycle_all fuel s rest
    | false ↦ elim (cycle_dfs fuel s id) [
      | exhausted after ↦ cycle_all fuel after rest
      | back_to v after ↦ elim (is_nil v) [
        | true ↦ cycle_all fuel after rest
        | false ↦ cycle_detected (cycle_path after v)
      ]
      | stuck ↦ unfinished
    ]
  ]

abbrev pub unvisited : CycleState
unvisited = record { visited = []; rec_stack = []; parent = λ _. none }

-- Every node that the search can enter: the graph's, and the targets of its edges.
abbrev pub enterable : DtGraph → List Text
enterable g = node_ids g ++ map (λ (e : GraphEdge). e.target) g.edges

unfoldable pub has_cycle : DtGraph → CycleReport
unfolding adjacency cycle_all dfs_fuel
has_cycle g = cycle_all (adjacency g) (dfs_fuel (adjacency g) (enterable g)) unvisited (node_ids g)
