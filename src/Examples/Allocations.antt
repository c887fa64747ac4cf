-- ===== src/Examples/Allocations.antt =====
-- Allocations of a budget for the year.
use collmind_backend.Base.{◌≡◌, ◌<◌, Uuid, true, false, none, some, [], pos}
use collmind_backend.Entities.Allocation.{PeriodType}
use collmind_backend.Db.Ends.{Ends}
use collmind_backend.Allocations.Queries.{Scope, find_allocation}
use collmind_backend.Allocations.Service.{
  CreateBudgetAllocationDto, allocation_from, create_allocation,
}
use collmind_backend.Allocations.Outcome.{Apart, create_allocation_outcome}
use collmind_backend.Examples.Data.{tenant, manager, channel, shop}

abbrev plan : Uuid
plan = 60

abbrev whole_year : Scope
whole_year = record {
  period_type = PeriodType.yearly;
  period_start = 1735689600000;
  period_end = 1767139200000;
  fiscal_year = 2025;
  cpl_id = none;
  channel = some channel;
  category = none;
}

abbrev request : CreateBudgetAllocationDto
request = record {
  scope = whole_year;
  on_invoice_budget = pos 500;
  off_invoice_budget = pos 400;
  alert_threshold_80 = none;
  alert_threshold_95 = some false;
  alert_threshold_100 = none;
  alert_recipients = none;
  hard_limit_mode = some true;
  allow_carry_forward = none;
}

create_allocation_outcome_example :
    Ends
      (λ a db'.
        (a ≡ allocation_from tenant manager request 100)
        × (find_allocation tenant a.id db' ≡ some a)
        × (a.period_start < a.period_end)
        × Apart tenant whole_year [])
      (λ e db'. db' ≡ shop)
      (create_allocation tenant manager request shop)
create_allocation_outcome_example = create_allocation_outcome tenant manager request shop
