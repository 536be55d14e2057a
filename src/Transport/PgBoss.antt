-- ===== src/Transport/PgBoss.antt =====
-- The pg-boss adapter (packages/durable-work/src/transport/pgboss.ts).
pub mod Adapter
pub mod Created
pub mod Started
pub mod Options
pub mod Batch
