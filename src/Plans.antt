-- ===== src/Plans.antt =====
-- Plans of the planning-first mode and their approval (src/modules/modes/planning-first/plan).
pub mod Repository
pub mod Spend
pub mod Dto
pub mod Submission
pub mod Review
pub mod Service
pub mod Recalculation
pub mod Editing
