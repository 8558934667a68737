-- ===== src/Tree.antt =====
-- smeme/decision_tree/models.py: the graph of an authored decision tree.
pub mod Types
pub mod Queries
pub mod Strict
pub mod Cycle
