-- ===== src/Ir.antt =====
-- reasoning/ir: the compiled form of a decision tree.
pub mod Types
pub mod Build
pub mod Numbering
pub mod Built
pub mod Deployable
pub mod Dag
pub mod Validate
pub mod Json
