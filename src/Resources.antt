-- ===== src/Resources.antt =====
-- control/resources: what the phase of the system and the memory of its host let run.
pub mod Phases
pub mod Pressure
pub mod Governor
