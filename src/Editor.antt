-- ===== src/Editor.antt =====
-- smeme/decision_tree/editor/operations.py: the edits of a graph.
pub mod Nodes
pub mod Edges
pub mod Wired
pub mod Dispatch
pub mod WellFormed
pub mod Preserve
pub mod Safe
pub mod Exact
