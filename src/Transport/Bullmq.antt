-- ===== src/Transport/Bullmq.antt =====
-- The BullMQ adapter (packages/durable-work/src/transport/bullmq.ts).
pub mod Adapter
pub mod Waits
