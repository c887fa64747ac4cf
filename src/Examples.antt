-- ===== src/Examples.antt =====
-- The theorems at work on a small database: one tenant, one envelope, one plan.
pub mod Data
pub mod Envelopes
pub mod Agreements
pub mod Allocations
pub mod Transactions
pub mod Terms
pub mod Formulas
pub mod Kpis
pub mod Lta
pub mod Codes
pub mod Reservations
pub mod Requests
pub mod Plans
pub mod Decisions
pub mod Editing
