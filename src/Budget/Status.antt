-- ===== src/Budget/Status.antt =====
-- `getBudgetStatus` of budget.service.ts.
use collmind_backend.Base.{
  ℕ, Bool, ◌&&◌, Option, none, some, Uuid, Text, ℤ, pos, ◌+ℤ◌, leb_ℤ, ltb_ℤ, scale, if◌then◌else◌,
}
use collmind_backend.Entities.Budget.{Envelope}
use collmind_backend.Db.{Db}
use collmind_backend.Budget.Repository.{
  find_envelope_by_dimensions, BudgetSummary, get_budget_summary,
}

pub data UsageStatus : Type 0 where
  green yellow red : UsageStatus

pub record BudgetStatus : Type 0 where
  pub total_allocation : ℤ
  pub available : ℤ
  pub reserved : ℤ
  pub consumed : ℤ
  pub planned : ℤ
  pub status : UsageStatus

-- `usagePercent >= n` is decided on whole numbers: `used * 100 >= n * allocated`.
abbrev usage_at_least : ℕ → BudgetSummary → Bool
usage_at_least n s =
    ltb_ℤ (pos 0) s.allocated_amount
    && leb_ℤ (scale n s.allocated_amount) (scale 100 (s.reserved_amount +ℤ s.consumed_amount))

unfoldable pub usage_status : BudgetSummary → UsageStatus
usage_status s =
    if usage_at_least 95 s
    then UsageStatus.red
    else if usage_at_least 80 s
    then UsageStatus.yellow
    else UsageStatus.green

abbrev status_without : ℤ → BudgetStatus
status_without amount = record {
  total_allocation = amount;
  available = amount;
  reserved = pos 0;
  consumed = pos 0;
  planned = pos 0;
  status = UsageStatus.green;
}

abbrev status_of : Envelope → Option BudgetSummary → BudgetStatus
status_of e none = status_without e.allocated_amount
status_of e (some s) = record {
  total_allocation = s.allocated_amount;
  available = s.available_amount;
  reserved = s.reserved_amount;
  consumed = s.consumed_amount;
  planned = pos 0;
  status = usage_status s;
}

-- `getBudgetStatus`, with the month given.
unfoldable pub get_budget_status : Uuid → Text → Option Text → Text → Db → BudgetStatus
unfolding usage_status
get_budget_status tenant_id channel category period_month db =
    elim (find_envelope_by_dimensions tenant_id channel period_month category db) [
      | none ↦ status_without (pos 0)
      | some e ↦ status_of e (get_budget_summary e.id tenant_id db)
    ]
