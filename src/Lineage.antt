-- ===== src/Lineage.antt =====
-- lineage: the append-only edges between artifacts, and the walks over them.
pub mod Edges
pub mod Trace
pub mod Diff
pub mod Replay
