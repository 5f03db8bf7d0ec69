-- ===== src/Types.antt =====
-- Mitosis/types: the bitmap of keys, and the records that shards exchange with their hashes.
pub mod Bitmap
pub mod MessageType
pub mod Data
pub mod Libraries
pub mod Hashing
pub mod Copies
