-- ===== src/Lta.antt =====
-- src/modules/shared/lta/: the long-term agreements with their rates.
pub mod Repository
pub mod Service
pub mod Periods
pub mod Rates
pub mod Calculation
pub mod Active
pub mod Frame
pub mod Calls
