-- ===== src/Ids.antt =====
-- Delivery identity and queue names (packages/durable-work/src/core/ids.ts).
pub mod Decimal
pub mod Split
pub mod Texts
pub mod RoundTrip
