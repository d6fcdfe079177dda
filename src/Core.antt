-- ===== src/Core.antt =====
-- internal/core: the Lamport clock, entries and access control lists.
pub mod Clock
pub mod Entry
pub mod Uuid
