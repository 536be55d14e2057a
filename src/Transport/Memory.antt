-- ===== src/Transport/Memory.antt =====
-- The in-process transport (packages/durable-work/src/transport/memory.ts). An entry is an object
-- with an identity, `ref`; the timers of ticks and of the pump appear as events. The handler's code
-- is not here: what it does with its delivery are the events `hands_back` and `ends`.
pub mod Entries
mod Lists
pub mod Events
pub mod Fits
pub mod Attempts
pub mod Calm
pub mod Concurrency
pub mod Backoff
