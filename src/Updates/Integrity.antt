-- ===== src/Updates/Integrity.antt =====
-- The integrity of the metadata under the handlers: its ids, and what names them.
pub mod Slices
pub mod Unique
pub mod Ids
pub mod Pointers
pub mod Refs
pub mod Dangling
pub mod Sync
pub mod Progress
