-- ===== src/Scheduler.antt =====
-- control/scheduler: which tasks become READY.
pub mod Reasons
pub mod Budgets
pub mod Concurrency
pub mod Backpressure
pub mod Fairness
pub mod Dependencies
pub mod Admit
