-- ===== src/Graph.antt =====
-- graph: the compiler of workflow documents, and the tables that it writes.
pub mod Texts
pub mod Values
pub mod Guard8
pub mod Outcomes
pub mod Compiler
pub mod Persist
pub mod Executor
