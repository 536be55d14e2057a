-- ===== src/Registry.antt =====
-- packages/durable-work/src/core/registry.ts: what a kind declares, its defaults, and the registry.
-- A kind's callbacks are not code of the repository: they are fields, over any domain state `D`.
pub mod Script
pub mod Kinds
pub mod Delays
pub mod Register
