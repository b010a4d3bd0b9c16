-- ===== src/Wal.antt =====
-- The write-ahead log of chusql-core/storage/src/wal.rs.
pub mod Op
pub mod Codec
pub mod Log
