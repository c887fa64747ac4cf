-- ===== src/Budget.antt =====
-- The event-sourced budget: envelopes, and the transactions that reserve from them and release
-- (src/modules/shared/budget).
pub mod Repository
pub mod Envelopes
pub mod Status
pub mod Service
