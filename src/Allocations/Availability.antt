-- ===== src/Allocations/Availability.antt =====
-- budget-allocation.service.ts: `checkAvailability`.
use collmind_backend.Base.{
  Uuid, Bool, true, false, Option, none, some, List, [], ◌∷◌, ◌++◌, if◌then◌else◌, ℤ, pos, ◌-ℤ◌,
  leb_ℤ,
}
use collmind_backend.Entities.Allocation.{
  BudgetAllocation, on_invoice_available, off_invoice_available,
}
use collmind_backend.Db.{Db}
use collmind_backend.Allocations.Queries.{BudgetCheckContext, find_matching_allocation}

-- The texts of the suggestions, without the percentages.
pub data Suggestion : Type 0 where
  no_allocation reduce_on_invoice reduce_off_invoice : Suggestion

pub record AvailabilityResult : Type 0 where
  pub on_invoice_available : ℤ
  pub off_invoice_available : ℤ
  pub on_invoice_sufficient : Bool
  pub off_invoice_sufficient : Bool
  pub on_invoice_shortfall : ℤ
  pub off_invoice_shortfall : ℤ
  pub suggestions : List Suggestion
  pub budget_allocation_id : Option Uuid

-- `Math.max(0, estimated - available)`.
abbrev pub shortfall : ℤ → ℤ → ℤ
shortfall estimated available =
    if leb_ℤ (pos 0) (estimated -ℤ available) then estimated -ℤ available else pos 0

abbrev suggest : Bool → Suggestion → List Suggestion
suggest true s = []
suggest false s = s ∷ []

unfoldable pub availability : BudgetCheckContext → Option BudgetAllocation → AvailabilityResult
availability context none = record {
  on_invoice_available = pos 0;
  off_invoice_available = pos 0;
  on_invoice_sufficient = false;
  off_invoice_sufficient = false;
  on_invoice_shortfall = context.estimated_on_invoice_spend;
  off_invoice_shortfall = context.estimated_off_invoice_spend;
  suggestions = Suggestion.no_allocation ∷ [];
  budget_allocation_id = none;
}
availability context (some a) =
    let on = leb_ℤ context.estimated_on_invoice_spend (on_invoice_available a) in
    let off = leb_ℤ context.estimated_off_invoice_spend (off_invoice_available a) in
    record {
      on_invoice_available = on_invoice_available a;
      off_invoice_available = off_invoice_available a;
      on_invoice_sufficient = on;
      off_invoice_sufficient = off;
      on_invoice_shortfall = shortfall context.estimated_on_invoice_spend (on_invoice_available a);
      off_invoice_shortfall =
          shortfall context.estimated_off_invoice_spend (off_invoice_available a);
      suggestions =
          suggest on Suggestion.reduce_on_invoice ++ suggest off Suggestion.reduce_off_invoice;
      budget_allocation_id = some a.id;
    }

-- `checkAvailability`.
unfoldable pub check_availability : Uuid → BudgetCheckContext → Db → AvailabilityResult
check_availability tenant_id context db =
    availability context (find_matching_allocation tenant_id context db)
