-- ===== src/Store.antt =====
-- packages/durable-work/src/core/store.ts: every statement that may write a job row.
pub mod Table
pub mod Lease
pub mod Settle
pub mod Redrive
pub mod Create
pub mod Select
pub mod Rows
pub mod Writes
pub mod WellFormed
pub mod Holders
pub mod Explained
