-- ===== src/Updates.antt =====
-- internal/api/handlers/updates: the update processor of a table's metadata.
pub mod Types
pub mod Exec
pub mod Util
pub mod Properties
pub mod Schema
pub mod Partition
pub mod SortOrder
pub mod Snapshot
pub mod Statistics
pub mod Dispatch
pub mod Processor
pub mod Frame
pub mod Integrity
pub mod Precision
mod Tests
