-- ===== src/Host.antt =====
-- The worker inside the host's process, and the host's screens (packages/durable-work/src/om and
-- src/modules).
pub mod InProcess
pub mod Config
pub mod Configured
pub mod Screens
pub mod Placeholders
pub mod Operator
pub mod Refusals
