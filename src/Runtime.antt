-- ===== src/Runtime.antt =====
-- smeme/reasoning/runtime: answers, the facts that they give, assumptions, and the evaluation.
pub mod Input
pub mod Facts
pub mod Assumptions
pub mod Atoms
pub mod Evaluate
pub mod Sound
pub mod Grounded
pub mod Aligned
pub mod Gate
