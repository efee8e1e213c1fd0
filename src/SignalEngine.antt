-- ===== src/SignalEngine.antt =====
-- signal_engine: the deterministic part of scoring a niche.
pub mod Coverage
pub mod Gate
pub mod Tiers
