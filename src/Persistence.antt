-- ===== src/Persistence.antt =====
-- persistence: the rows that go to the database.
pub mod Batcher
