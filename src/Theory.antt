-- ===== src/Theory.antt =====
-- smeme/reasoning/theory: the compiled Ir as a list of propositional assertions.
pub mod Formula
pub mod Symbols
pub mod Guards
pub mod Compile
pub mod Collect
pub mod Total
pub mod Reach
