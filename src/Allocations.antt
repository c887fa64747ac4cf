-- ===== src/Allocations.antt =====
-- The allocations of budget to a period, a CPL, a channel and a category:
-- budget-allocation.service.ts (src/modules/shared/budget).
pub mod Queries
pub mod Service
pub mod Availability
pub mod Outcome
pub mod Reports
