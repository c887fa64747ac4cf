-- ===== src/Entities/Allocation.antt =====
-- budget-allocation.entity.ts and budget-transaction-log.entity.ts.
use collmind_backend.Base.{ℕ, Uuid, Text, ℤ, ◌+ℤ◌, ◌-ℤ◌, Bool, Option, List, ◌==◌}

pub data PeriodType : Type 0 where
  yearly quarterly monthly : PeriodType

abbrev period_type_code : PeriodType → ℕ
period_type_code PeriodType.yearly = 0
period_type_code PeriodType.quarterly = 1
period_type_code PeriodType.monthly = 2

abbrev pub same_period_type : PeriodType → PeriodType → Bool
same_period_type a b = period_type_code a == period_type_code b

-- A date is the time at which it begins.
pub record BudgetAllocation : Type 0 where
  pub id : Uuid
  pub tenant_id : Uuid
  pub period_type : PeriodType
  pub period_start : ℕ
  pub period_end : ℕ
  pub fiscal_year : ℕ
  pub cpl_id : Option Uuid
  pub channel : Option Text
  pub category : Option Text
  pub on_invoice_budget : ℤ
  pub off_invoice_budget : ℤ
  pub on_invoice_utilized : ℤ
  pub off_invoice_utilized : ℤ
  pub on_invoice_reserved : ℤ
  pub off_invoice_reserved : ℤ
  pub alert_threshold_80 : Bool
  pub alert_threshold_95 : Bool
  pub alert_threshold_100 : Bool
  pub alert_recipients : Option (List Text)
  pub hard_limit_mode : Bool
  pub allow_carry_forward : Bool
  pub created_by : Uuid
  pub updated_by : Option Uuid
  pub deleted : Bool

-- The generated columns.
abbrev pub total_budget : BudgetAllocation → ℤ
total_budget a = a.on_invoice_budget +ℤ a.off_invoice_budget

abbrev pub on_invoice_available : BudgetAllocation → ℤ
on_invoice_available a = (a.on_invoice_budget -ℤ a.on_invoice_utilized) -ℤ a.on_invoice_reserved

abbrev pub off_invoice_available : BudgetAllocation → ℤ
off_invoice_available a = (a.off_invoice_budget -ℤ a.off_invoice_utilized) -ℤ a.off_invoice_reserved

pub data BudgetTransactionType : Type 0 where
  allocation utilization release adjustment transfer reservation commit : BudgetTransactionType

abbrev log_type_code : BudgetTransactionType → ℕ
log_type_code BudgetTransactionType.allocation = 0
log_type_code BudgetTransactionType.utilization = 1
log_type_code BudgetTransactionType.release = 2
log_type_code BudgetTransactionType.adjustment = 3
log_type_code BudgetTransactionType.transfer = 4
log_type_code BudgetTransactionType.reservation = 5
log_type_code BudgetTransactionType.commit = 6

abbrev pub same_log_type : BudgetTransactionType → BudgetTransactionType → Bool
same_log_type a b = log_type_code a == log_type_code b

-- `OPERATION|PLAN|plan_id|allocation_id`. No index makes it unique.
pub record LogKey : Type 0 where
  pub operation : BudgetTransactionType
  pub plan_id : Uuid
  pub allocation_id : Uuid

pub record BudgetTransactionLog : Type 0 where
  pub id : Uuid
  pub tenant_id : Uuid
  pub budget_allocation_id : Uuid
  pub transaction_type : BudgetTransactionType
  pub on_invoice_amount : ℤ
  pub off_invoice_amount : ℤ
  pub plan_id : Option Uuid
  pub created_by_id : Uuid
  pub idempotency_key : Option LogKey
