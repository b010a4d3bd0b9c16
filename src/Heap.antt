-- ===== src/Heap.antt =====
-- The heap file of chusql-core/storage/src/heap.rs.
pub mod Fields
pub mod Slotted
