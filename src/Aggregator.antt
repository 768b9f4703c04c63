-- ===== src/Aggregator.antt =====
-- aggregator: the windows of a symbol, and how they survive a crash.
pub mod Checkpoint
pub mod Rolling
pub mod Windows
