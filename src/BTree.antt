-- ===== src/BTree.antt =====
-- The B+ tree of chusql-core/storage/src/btree.rs: keys are byte strings, values positions of rows,
-- nodes are pages of a page file.
pub mod Layout
pub mod Keys
pub mod Node
pub mod Codec
pub mod RoundTrip
pub mod Search
pub mod Slots
pub mod Split
pub mod Meta
pub mod Disk
pub mod Scan
pub mod Chain
