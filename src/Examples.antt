-- ===== src/Examples.antt =====
-- Small inputs, what the program does on them, and the theorems applied to them.
mod Trees
mod Irs
mod Sessions
mod Edits
mod Graphs
mod Stored
mod Directives
mod Atoms
mod Inquiries
mod Evaluations
