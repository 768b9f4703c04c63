-- ===== src/Orderbook.antt =====
-- orderbook: the commit protocol between the consumer, its workers and the broker.
pub mod Coordinator
pub mod Backpressure
pub mod OrderedTree
pub mod Book
pub mod SkipList
pub mod Worker
pub mod Snapshot
pub mod Dispatcher
