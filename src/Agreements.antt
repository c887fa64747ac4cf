-- ===== src/Agreements.antt =====
-- Agreements of the actuals-first mode (src/modules/modes/actuals-first/agreement).
pub mod Repository
pub mod Service
pub mod Terms
pub mod Codes
pub mod Creation
