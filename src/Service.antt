-- ===== src/Service.antt =====
-- packages/durable-work/src/core/service.ts: starting, cancelling and re-driving a job.
pub mod Start
pub mod Operate
pub mod Lawful
pub mod Creates
pub mod Idempotent
pub mod Inserted
pub mod Kept
pub mod Refused
