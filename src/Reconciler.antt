-- ===== src/Reconciler.antt =====
-- packages/durable-work/src/core/reconciler.ts: the repair of jobs that nobody drives.
pub mod Repair
pub mod Pass
pub mod Lawful
pub mod Orphan
pub mod Ahead
pub mod Exhausted
pub mod Published
pub mod Report
