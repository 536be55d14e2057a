-- ===== src/Tests.antt =====
-- Runs on concrete inputs: the theorems at work on a small table.
pub mod Data
pub mod Protocol
pub mod Slice
pub mod Store
pub mod System
pub mod Reconciler
pub mod DataSync
pub mod Ids
pub mod Transport
pub mod Host
pub mod Start
pub mod Routes
pub mod Worker
pub mod Brokers
pub mod Config
pub mod Operator
