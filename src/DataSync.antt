-- ===== src/DataSync.antt =====
-- packages/data-sync-durable: a `data_sync` run of the host as durable work. The host's engine and
-- services are code of another package, so they are parameters (`Core`).
pub mod Runs
pub mod Engine
pub mod Outcome
pub mod Finalize
pub mod Kind
pub mod Mirror
pub mod Ended
pub mod Agree
pub mod Untouched
pub mod Undrained
pub mod Slices
pub mod Start
pub mod Routes
pub mod Routed
pub mod Stopped
pub mod Adopt
pub mod Keys
