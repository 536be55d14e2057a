-- ===== src/System.antt =====
-- The system: deliveries handled by workers (core/worker.ts), passes of the reconciler
-- (core/reconciler.ts) and the operations of the service (core/service.ts), in any order.
pub mod Actions
pub mod Safe
