-- ===== src/Retries.antt =====
-- control/retries: what happens to a task that has failed.
pub mod Classifier
pub mod Backoff
pub mod Circuit
pub mod Registry
pub mod DeadLetter
pub mod Handle
