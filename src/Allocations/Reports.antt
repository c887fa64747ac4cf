-- ===== src/Allocations/Reports.antt =====
-- `getBudgetUtilizationReport` and `getForecastReport` of budget-allocation.service.ts, without the
-- percentages, the list of the top plans and the estimated number of further plans.
use collmind_backend.Base.{
  ℕ, zero, suc, Uuid, Text, text_eq, Bool, true, false, ◌&&◌, not, Option, none, some, List, [],
  ◌∷◌, ◌==◌, leb, select, ℤ, pos, ◌+ℤ◌, ◌-ℤ◌,
}
use collmind_backend.Entities.Allocation.{
  PeriodType, same_period_type, BudgetAllocation, BudgetTransactionType, same_log_type,
  BudgetTransactionLog, on_invoice_available, off_invoice_available,
}
use collmind_backend.Db.{Db, Action, Error, allocation_not_found, ◌>>=◌, query, or_throw, return}
use collmind_backend.Budget.Envelopes.{is_some}
use collmind_backend.Allocations.Queries.{BudgetCheckContext, or_null, find_matching_allocation}

pub record BudgetReportFilters : Type 0 where
  pub period_type : Option PeriodType
  pub fiscal_year : Option ℕ
  pub cpl_id : Option Uuid
  pub channel : Option Text
  pub category : Option Text
  pub period : Option (ℕ × ℕ)

abbrev passes {ℓ} : {A : Type ℓ} → (A → Bool) → Option A → Bool
passes p none = true
passes p (some a) = p a

abbrev id_is : Option Uuid → Uuid → Bool
id_is none b = false
id_is (some a) b = a == b

abbrev text_is : Option Text → Text → Bool
text_is none b = false
text_is (some a) b = text_eq a b

-- `if (filters.fiscalYear)`: the year 0 is no year.
abbrev year_or_none : Option ℕ → Option ℕ
year_or_none none = none
year_or_none (some zero) = none
year_or_none (some (suc n)) = some (suc n)

-- The conditions of the query, of which a filter that is left out adds none.
abbrev pub reported : Uuid → BudgetReportFilters → BudgetAllocation → Bool
reported tenant_id filters a =
    (a.tenant_id == tenant_id)
    && not a.deleted
    && passes (same_period_type a.period_type) filters.period_type
    && passes (λ year. a.fiscal_year == year) (year_or_none filters.fiscal_year)
    && passes (id_is a.cpl_id) filters.cpl_id
    && passes (text_is a.channel) (or_null filters.channel)
    && passes (text_is a.category) (or_null filters.category)
    && passes (λ period. leb period.0 a.period_start && leb a.period_end period.1) filters.period

pub record Totals : Type 0 where
  pub budget : ℤ
  pub utilized : ℤ
  pub reserved : ℤ
  pub available : ℤ

pub record Breakdown : Type 0 where
  pub on_invoice : Totals
  pub off_invoice : Totals
  pub total : Totals

abbrev pub no_totals : Totals
no_totals = record { budget = pos 0; utilized = pos 0; reserved = pos 0; available = pos 0 }

abbrev pub add_amounts : Totals → ℤ → ℤ → ℤ → Totals
add_amounts t budget utilized reserved = record {
  budget = t.budget +ℤ budget;
  utilized = t.utilized +ℤ utilized;
  reserved = t.reserved +ℤ reserved;
  available = t.available +ℤ ((budget -ℤ utilized) -ℤ reserved);
}

abbrev add_totals : Totals → Totals → Totals
add_totals a b = record {
  budget = a.budget +ℤ b.budget;
  utilized = a.utilized +ℤ b.utilized;
  reserved = a.reserved +ℤ b.reserved;
  available = a.available +ℤ b.available;
}

unfoldable pub sum_rows : Totals → Totals → List BudgetAllocation → Breakdown
sum_rows on off [] = record { on_invoice = on; off_invoice = off; total = add_totals on off }
sum_rows on off (a ∷ rows) =
    sum_rows (add_amounts on a.on_invoice_budget a.on_invoice_utilized a.on_invoice_reserved)
      (add_amounts off a.off_invoice_budget a.off_invoice_utilized a.off_invoice_reserved) rows

-- The breakdown of `getBudgetUtilizationReport`.
unfoldable pub utilization_breakdown : Uuid → BudgetReportFilters → Db → Breakdown
utilization_breakdown tenant_id filters db =
    sum_rows no_totals no_totals (select (reported tenant_id filters) db.allocations)

-- The reservations of plans in an allocation, whatever followed them.
abbrev pub is_reservation_of : Uuid → BudgetTransactionLog → Bool
is_reservation_of id tx =
    (tx.budget_allocation_id == id)
    && same_log_type tx.transaction_type BudgetTransactionType.reservation
    && is_some tx.plan_id

pub record Spend : Type 0 where
  pub on_invoice : ℤ
  pub off_invoice : ℤ
  pub total : ℤ

abbrev add_spend : BudgetTransactionLog → Spend → Spend
add_spend tx acc = record {
  on_invoice = tx.on_invoice_amount +ℤ acc.on_invoice;
  off_invoice = tx.off_invoice_amount +ℤ acc.off_invoice;
  total = (tx.on_invoice_amount +ℤ tx.off_invoice_amount) +ℤ acc.total;
}

-- `plannedSpend`.
unfoldable pub planned_spend : List BudgetTransactionLog → Spend
planned_spend [] = record { on_invoice = pos 0; off_invoice = pos 0; total = pos 0 }
planned_spend (tx ∷ log) = add_spend tx (planned_spend log)

-- `forecastedRemaining`.
abbrev pub forecasted_remaining : BudgetAllocation → Spend → Spend
forecasted_remaining a planned = record {
  on_invoice = on_invoice_available a -ℤ planned.on_invoice;
  off_invoice = off_invoice_available a -ℤ planned.off_invoice;
  total = (on_invoice_available a +ℤ off_invoice_available a) -ℤ planned.total;
}

-- `getForecastReport`, with its `forecastedRemaining` as the result.
unfoldable pub get_forecast : Uuid → BudgetCheckContext → Action Spend
get_forecast tenant_id context = do
  found ← query (find_matching_allocation tenant_id context)
  a ← or_throw (Error.not_found allocation_not_found) found
  pending ← query (λ db. select (is_reservation_of a.id) db.transaction_logs)
  return (forecasted_remaining a (planned_spend pending))
