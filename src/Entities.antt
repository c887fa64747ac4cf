-- ===== src/Entities.antt =====
-- The rows of the tables, as src/database/entities declares them: the columns that the modelled
-- services read or write.
pub mod Budget
pub mod Approval
pub mod Plan
pub mod Catalogue
pub mod Agreement
pub mod Allocation
pub mod Lta
