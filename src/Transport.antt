-- ===== src/Transport.antt =====
-- The transports (packages/durable-work/src/transport).
pub mod Memory
pub mod PgBoss
pub mod Bullmq
