-- ===== src/Normalizer/Orderer.antt =====
-- normalizer/utils and normalizer/factory/orderer: how each exchange's stream is put in order.
pub mod Sequence
pub mod Time
pub mod Resync
pub mod Strategy
