-- ===== src/Db.antt =====
-- internal/db: transactions with retries.
pub mod Lock
mod Tests
