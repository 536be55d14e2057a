-- ===== src/Slice.antt =====
-- packages/durable-work/src/core/run-slice.ts: one delivery of one job.
pub mod Context
pub mod Finish
pub mod Run
pub mod Lawful
pub mod Ends
pub mod Outcome
pub mod Deliver
pub mod Any
pub mod Verdict
pub mod Drains
