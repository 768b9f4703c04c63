-- ===== src/Normalizer.antt =====
-- normalizer: raw exchange records in, normalized records out, in at-least-once mode.
pub mod Tracker
pub mod State
pub mod Orderer
pub mod Worker
pub mod Backpressure
