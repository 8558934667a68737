-- ===== src/Inquire.antt =====
-- smeme/reasoning/runtime/inquire: live assertions, their verification, and the moves between states.
pub mod Types
pub mod Transition
pub mod Session
pub mod Budget
pub mod Space
pub mod Discriminators
pub mod Resolvable
pub mod Support
pub mod Analyze
