-- ===== src/Protocol.antt =====
-- Every interleaving of statements: workers, reconcilers, services and operators act on one table
-- through the statements of store.ts alone, one statement at a time, while the clock goes on.
pub mod Steps
pub mod Reachable
pub mod SingleRunner
pub mod Fence
pub mod Unexpired
pub mod Release
pub mod Cancelling
pub mod Idle
