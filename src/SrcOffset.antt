-- ===== src/SrcOffset.antt =====
-- shared/srcoffset: the source coordinate of a record, and the window of offsets already applied.
pub mod Codec
pub mod Words
pub mod Seen
mod Tests
