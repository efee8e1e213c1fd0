-- ===== src/Reconciliation.antt =====
-- control/reconciliation: the checks of one pass. Its repairs are those of Leases/Reaper and
-- Dispatcher/Publish.
pub mod Counters
pub mod Artifacts
pub mod Tasks
pub mod Pass
