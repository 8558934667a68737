-- ===== src/Lib.antt =====
-- The decision-tree reasoner: the graph of an authored tree, its compiled form (the Ir), the theory
-- over Boolean variables that the Ir compiles to, the evaluation of answers against it, the kernel of
-- an inquiry, and the edits of a graph.
--
-- An author edits a graph (smeme/decision_tree). The graph is compiled to an Ir
-- (smeme/reasoning/ir), which is validated and compiled to a Z3 theory (smeme/reasoning/theory). An
-- evaluation (smeme/reasoning/runtime/evaluate.py) adds the facts of the answers and the assumptions,
-- and asks the solver which conclusion holds. An inquiry (smeme/reasoning/runtime/inquire) admits answers that the validation of input
-- (smeme/reasoning/runtime/input_validation.py) accepts, and records which of them are verified.
--
-- Files and the code they are about:
--   Base          shared: texts as lists of code points, Boolean tests, list lemmas, sorting, and
--                 Base/Result, the result of a function that may raise
--   Tree          smeme/decision_tree/models.py: Tree/Types the data and the checks of its
--                 construction, Tree/Queries the lookups of DTGraph; Tree/Strict validate_graph and
--                 Tree/Cycle has_cycle of smeme/decision_tree/helpers/validation.py, with their
--                 proofs in Tree/Strict/ and Tree/Cycle/
--   Editor        smeme/decision_tree/editor/operations.py: Editor/Nodes, Editor/Edges and
--                 Editor/Wired the operations, Editor/Dispatch apply_operation; Editor/WellFormed the
--                 invariant, Editor/Preserve and Editor/Safe are about edits and the invariant,
--                 Editor/Exact about deletions
--   Ir            Ir/Types smeme/reasoning/ir/types.py; Ir/Build dt_graph_to_ir.py, Ir/Numbering its
--                 guard ids, Ir/Built what it gives and Ir/Deployable what that gives for the graphs
--                 of the validation; Ir/Dag the search for cycles of validate.py, with its proofs in Ir/Dag/;
--                 Ir/Validate validate_ir, with the specification in Ir/Validate/Spec; Ir/Json
--                 serialize.py, the stored form
--   Theory        Theory/Formula the formulas, Theory/Symbols z3_symbols.py, Theory/Guards
--                 guards_radio.py, Theory/Compile compile_to_z3.py; Theory/Collect, Theory/Total and
--                 Theory/Reach the proofs
--   Runtime       smeme/reasoning/runtime: Runtime/Input input_validation.py, Runtime/Facts
--                 canonical_facts.py and cevi/fact_projection.py, with the checks of BlobEvidenceItem of
--                 schemas.py, Runtime/Assumptions assumptions.py, Runtime/Evaluate evaluate.py;
--                 Runtime/Sound is about its verdicts, Runtime/Grounded, Runtime/Atoms and
--                 Runtime/Aligned about facts and their symbols;
--                 Runtime/Gate consistency_gate.py and the target queries of counterfactual.py
--   Inquire       Inquire/Types and Inquire/Transition the files of these names in
--                 smeme/reasoning/runtime/inquire; Inquire/Session sessions as sequences of moves;
--                 Inquire/Budget the limits of types.py, and Inquire/Space, Discriminators,
--                 Resolvable, Support and Analyze the files of these names
--   Examples      small inputs, and the theorems applied to them
--
-- How the code is rendered. A function that raises returns a Result, with the cause of the error as
-- a constructor that holds the values its message shows; an unresolved dict lookup in the theory
-- compiler is none. Deep copies are values. A set that is only asked for membership, and a dict that
-- is walked in its order of insertion, is a list. The objects that Python mutates are passed on.
--
-- Fuel. The searches for cycles (Ir/Dag, Tree/Cycle) have no structural bound: dfs_fuel counts one step
-- for each node and one for each successor, and one more; the walk over the parents has one step for
-- each node that was seen. The greedy loop of Inquire/Support has one step for each answer that it can
-- drop, and one more.
--
-- What the model takes as given. The Unicode tables of isalnum and isdigit above ASCII, and SHA-256,
-- are the fields of Theory.Symbols.Platform; what is supposed of them is only that a digest is
-- hexadecimal (Runtime.Atoms.HasHexDigests), where a theorem says so. A text holds no lone surrogate, which could not be encoded for a digest. Z3 itself is not modelled:
-- a call of the solver is the parameter check of Runtime.Evaluate, of which Runtime.Sound.IsSolver
-- supposes that a model it gives satisfies what was asserted and that nothing does after unsat; it may
-- answer unknown. The check of Runtime.Gate may also read the timeout and the number of calls so far. The theory is the list of the formulas that are added to the solver, read as
-- propositional logic over variables that are named by their symbols, PbEq with weights 1 and bound 1
-- as "exactly one".
--
-- Not modelled: the texts and audit records of an evaluation, the consistency of several sources,
-- the search for repairs, the lenient
-- validation of drafts, the persisted inquiry; and the web routes, the MCP server, the generation by language models, storage
-- and configuration, which are glue.
pub mod Base
pub mod Tree
pub mod Editor
pub mod Ir
pub mod Theory
pub mod Runtime
pub mod Inquire
pub mod Examples
