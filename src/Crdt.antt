-- ===== src/Crdt.antt =====
-- internal/crdt: the replicated data types.
pub mod Lww
pub mod OrSet
pub mod Replica
pub mod State
pub mod Tests
