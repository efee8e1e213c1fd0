-- ===== src/Tests.antt =====
-- The theorems on small tables, routes and streams.
mod Data
mod Leasing
mod Delivering
mod Retrying
mod Circuits
mod Admitting
mod Governing
mod Scoring
mod Tracing
mod Workflows
mod Jobs
mod Reconciling
