-- ===== src/Allocations/Service.antt =====
-- The operations of budget-allocation.service.ts.
use collmind_backend.Base.{
  Uuid, Text, text_eq, Bool, true, false, ◌&&◌, ◌||◌, not, Option, none, some, List, ◌∷◌, ◌==◌, leb,
  exists, ℤ, pos, ◌-ℤ◌, ltb_ℤ,
}
use collmind_backend.Entities.Allocation.{same_period_type, BudgetAllocation, BudgetTransactionType}
use collmind_backend.Db.{
  Action, Error, duplicate_key, dimension_missing, period_empty, allocation_exists,
  allocation_not_found, ◌>>=◌, ◌>>◌, query, or_throw, throw_if, return, write, new_id, when,
}
use collmind_backend.Budget.Envelopes.{is_some}
use collmind_backend.Allocations.Queries.{
  Scope, or_null, overlaps, find_allocation, save_allocation, create_log,
}

pub record CreateBudgetAllocationDto : Type 0 where
  pub scope : Scope
  pub on_invoice_budget : ℤ
  pub off_invoice_budget : ℤ
  pub alert_threshold_80 : Option Bool
  pub alert_threshold_95 : Option Bool
  pub alert_threshold_100 : Option Bool
  pub alert_recipients : Option (List Text)
  pub hard_limit_mode : Option Bool
  pub allow_carry_forward : Option Bool

-- `x ?? fallback`.
abbrev pub or_else {ℓ} : {A : Type ℓ} → Option A → A → A
or_else none fallback = fallback
or_else (some a) fallback = a

abbrev pub allocation_from : Uuid → Uuid → CreateBudgetAllocationDto → Uuid → BudgetAllocation
allocation_from tenant_id user_id dto id = record {
  id = id;
  tenant_id = tenant_id;
  period_type = dto.scope.period_type;
  period_start = dto.scope.period_start;
  period_end = dto.scope.period_end;
  fiscal_year = dto.scope.fiscal_year;
  cpl_id = dto.scope.cpl_id;
  channel = dto.scope.channel;
  category = dto.scope.category;
  on_invoice_budget = dto.on_invoice_budget;
  off_invoice_budget = dto.off_invoice_budget;
  on_invoice_utilized = pos 0;
  off_invoice_utilized = pos 0;
  on_invoice_reserved = pos 0;
  off_invoice_reserved = pos 0;
  alert_threshold_80 = or_else dto.alert_threshold_80 true;
  alert_threshold_95 = or_else dto.alert_threshold_95 true;
  alert_threshold_100 = or_else dto.alert_threshold_100 true;
  alert_recipients = dto.alert_recipients;
  hard_limit_mode = or_else dto.hard_limit_mode false;
  allow_carry_forward = or_else dto.allow_carry_forward false;
  created_by = user_id;
  updated_by = none;
  deleted = false;
}

-- `!dto.cplId && !dto.channel && !dto.category`.
abbrev pub no_dimension : Scope → Bool
no_dimension scope =
    not (is_some scope.cpl_id)
    && not (is_some (or_null scope.channel))
    && not (is_some (or_null scope.category))

-- Two columns of a unique index; NULL is distinct from everything.
abbrev same_id_column : Option Uuid → Option Uuid → Bool
same_id_column (some a) (some b) = a == b
same_id_column _ _ = false

abbrev same_text_column : Option Text → Option Text → Bool
same_text_column (some a) (some b) = text_eq a b
same_text_column _ _ = false

-- The unique index on the tenant, the period and the dimensions of live rows.
abbrev pub same_scope : Uuid → Scope → BudgetAllocation → Bool
same_scope tenant_id scope a =
    (a.tenant_id == tenant_id)
    && same_period_type a.period_type scope.period_type
    && (a.period_start == scope.period_start)
    && (a.period_end == scope.period_end)
    && same_id_column a.cpl_id scope.cpl_id
    && same_text_column a.channel scope.channel
    && same_text_column a.category scope.category
    && not a.deleted

-- `createAllocation`.
unfoldable pub create_allocation : Uuid → Uuid → CreateBudgetAllocationDto → Action BudgetAllocation
create_allocation tenant_id user_id dto = do
  throw_if (no_dimension dto.scope) (Error.bad_request dimension_missing)
  throw_if (leb dto.scope.period_end dto.scope.period_start) (Error.bad_request period_empty)
  overlapping ← query (λ db. exists (overlaps tenant_id dto.scope) db.allocations)
  throw_if overlapping (Error.conflict allocation_exists)
  taken ← query (λ db. exists (same_scope tenant_id dto.scope) db.allocations)
  throw_if taken (Error.plain duplicate_key)
  id ← new_id
  let saved = allocation_from tenant_id user_id dto id
  write (λ db. record db { allocations = saved ∷ db.allocations })
  create_log tenant_id user_id id BudgetTransactionType.allocation dto.on_invoice_budget
      dto.off_invoice_budget none none
  return saved

-- `Partial<CreateBudgetAllocationDto>`, without the fields that `updateAllocation` does not read.
pub record UpdateBudgetAllocationDto : Type 0 where
  pub on_invoice_budget : Option ℤ
  pub off_invoice_budget : Option ℤ
  pub alert_threshold_80 : Option Bool
  pub alert_threshold_95 : Option Bool
  pub alert_threshold_100 : Option Bool
  pub alert_recipients : Option (List Text)
  pub hard_limit_mode : Option Bool
  pub allow_carry_forward : Option Bool

-- A budget that changes by other than 0 is logged as an adjustment.
unfoldable pub log_change : Option ℤ → ℤ → (ℤ → Action (Unit {0})) → Action (Unit {0})
log_change none old log = return tt
log_change (some budget) old log =
    when (ltb_ℤ (budget -ℤ old) (pos 0) || ltb_ℤ (pos 0) (budget -ℤ old)) (log (budget -ℤ old))

abbrev pub or_present {ℓ} : {A : Type ℓ} → Option A → Option A → Option A
or_present none old = old
or_present (some a) old = some a

abbrev pub updated_allocation :
    UpdateBudgetAllocationDto → Uuid → BudgetAllocation → BudgetAllocation
updated_allocation dto user_id a = record a {
  on_invoice_budget = or_else dto.on_invoice_budget a.on_invoice_budget;
  off_invoice_budget = or_else dto.off_invoice_budget a.off_invoice_budget;
  alert_threshold_80 = or_else dto.alert_threshold_80 a.alert_threshold_80;
  alert_threshold_95 = or_else dto.alert_threshold_95 a.alert_threshold_95;
  alert_threshold_100 = or_else dto.alert_threshold_100 a.alert_threshold_100;
  alert_recipients = or_present dto.alert_recipients a.alert_recipients;
  hard_limit_mode = or_else dto.hard_limit_mode a.hard_limit_mode;
  allow_carry_forward = or_else dto.allow_carry_forward a.allow_carry_forward;
  updated_by = some user_id;
}

-- `updateAllocation`. Its two guards, `dto.budget < utilized + reserved`, never fire: the columns
-- are loaded as texts with a decimal point each, so `+` joins two of them to a text with two points,
-- which is NaN as a number.
unfoldable pub update_allocation :
    Uuid → Uuid → Uuid → UpdateBudgetAllocationDto → Action BudgetAllocation
update_allocation tenant_id user_id id dto = do
  found ← query (find_allocation tenant_id id)
  a ← or_throw (Error.not_found allocation_not_found) found
  log_change dto.on_invoice_budget a.on_invoice_budget (λ change.
      create_log tenant_id user_id a.id BudgetTransactionType.adjustment change (pos 0) none none)
  log_change dto.off_invoice_budget a.off_invoice_budget (λ change.
      create_log tenant_id user_id a.id BudgetTransactionType.adjustment (pos 0) change none none)
  save_allocation (updated_allocation dto user_id a)
  return (updated_allocation dto user_id a)
