-- ===== src/Terminal.antt =====
-- packages/durable-work/src/core/terminal.ts: the one way by which a job ends.
pub mod Transition
pub mod Atomic
