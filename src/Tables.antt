-- ===== src/Tables.antt =====
-- internal/api/handlers/table.go: tables, and commits to them.
pub mod Requirement
pub mod Commit
pub mod Rows
pub mod Atomic
pub mod Drop
pub mod Create
pub mod Created
pub mod Inserted
mod Tests
