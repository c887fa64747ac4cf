-- ===== src/Allocations/Queries.antt =====
-- The queries of budget-allocation.service.ts, and its writes to the two tables.
use collmind_backend.Base.{
  ℕ, Uuid, Text, text_eq, Bool, true, false, ◌&&◌, ◌||◌, not, Option, none, some, List, [], ◌∷◌,
  ◌==◌, ltb, leb, if◌then◌else◌, find, select, update_where, ℤ,
}
use collmind_backend.Entities.Allocation.{
  PeriodType, same_period_type, BudgetAllocation, BudgetTransactionType, BudgetTransactionLog,
  LogKey,
}
use collmind_backend.Db.{Db, Action, ◌>>=◌, write, new_id}

-- `where: { tenantId, id }`, without rows that have a `deletedAt`.
abbrev pub is_allocation : Uuid → Uuid → BudgetAllocation → Bool
is_allocation tenant_id id a = (a.tenant_id == tenant_id) && (a.id == id) && not a.deleted

unfoldable pub find_allocation : Uuid → Uuid → Db → Option BudgetAllocation
find_allocation tenant_id id db = find (is_allocation tenant_id id) db.allocations

-- `s || null`: an empty text is no text.
abbrev pub or_null : Option Text → Option Text
or_null none = none
or_null (some []) = none
or_null (some (c ∷ s)) = some (c ∷ s)

-- `(column = value OR (column IS NULL AND value IS NULL))`.
abbrev pub equal_or_null : Option Text → Option Text → Bool
equal_or_null none none = true
equal_or_null (some a) (some b) = text_eq a b
equal_or_null _ _ = false

abbrev pub id_equal_or_null : Option Uuid → Option Uuid → Bool
id_equal_or_null none none = true
id_equal_or_null (some a) (some b) = a == b
id_equal_or_null _ _ = false

-- The three ways for `[start, end]` to meet the period of a row.
abbrev pub periods_meet : ℕ → ℕ → BudgetAllocation → Bool
periods_meet start end a =
    (leb a.period_start start && leb start a.period_end)
    || (leb a.period_start end && leb end a.period_end)
    || (leb start a.period_start && leb a.period_end end)

-- The dimensions of an allocation, as a request gives them.
pub record Scope : Type 0 where
  pub period_type : PeriodType
  pub period_start : ℕ
  pub period_end : ℕ
  pub fiscal_year : ℕ
  pub cpl_id : Option Uuid
  pub channel : Option Text
  pub category : Option Text

abbrev pub overlaps : Uuid → Scope → BudgetAllocation → Bool
overlaps tenant_id scope a =
    (a.tenant_id == tenant_id)
    && same_period_type a.period_type scope.period_type
    && (a.fiscal_year == scope.fiscal_year)
    && periods_meet scope.period_start scope.period_end a
    && id_equal_or_null a.cpl_id scope.cpl_id
    && equal_or_null a.channel (or_null scope.channel)
    && equal_or_null a.category (or_null scope.category)
    && not a.deleted

-- The context of a check; an id or a text may be empty.
pub record BudgetCheckContext : Type 0 where
  pub cpl_id : Option Uuid
  pub channel : Text
  pub category : Text
  pub period_start : ℕ
  pub period_end : ℕ
  pub estimated_on_invoice_spend : ℤ
  pub estimated_off_invoice_spend : ℤ

-- `(column = value OR column IS NULL)`; an empty value is NULL, which equals nothing.
abbrev pub open_or_is : Option Text → Text → Bool
open_or_is none value = true
open_or_is (some t) [] = false
open_or_is (some t) (c ∷ s) = text_eq t (c ∷ s)

abbrev pub id_open_or_is : Option Uuid → Option Uuid → Bool
id_open_or_is none value = true
id_open_or_is (some id) none = false
id_open_or_is (some id) (some value) = id == value

abbrev pub covers : Uuid → BudgetCheckContext → BudgetAllocation → Bool
covers tenant_id context a =
    (a.tenant_id == tenant_id)
    && leb a.period_start context.period_end
    && leb context.period_start a.period_end
    && id_open_or_is a.cpl_id context.cpl_id
    && open_or_is a.channel context.channel
    && open_or_is a.category context.category
    && not a.deleted

-- `ORDER BY periodStart DESC`, and the first row. A later row wins only by a later start.
abbrev pub later : BudgetAllocation → Option BudgetAllocation → Option BudgetAllocation
later a none = some a
later a (some b) = if ltb a.period_start b.period_start then some b else some a

abbrev pub latest : List BudgetAllocation → Option BudgetAllocation
latest [] = none
latest (a ∷ rows) = later a (latest rows)

-- `findMatchingAllocation`.
unfoldable pub find_matching_allocation : Uuid → BudgetCheckContext → Db → Option BudgetAllocation
find_matching_allocation tenant_id context db =
    latest (select (covers tenant_id context) db.allocations)

-- `save` of a row that was loaded.
unfoldable pub save_allocation : BudgetAllocation → Action (Unit {0})
save_allocation a =
    write
      (λ db. record db { allocations = update_where (λ b. b.id == a.id) (λ b. a) db.allocations })

abbrev pub log_row :
    Uuid
    → Uuid
    → Uuid
    → BudgetTransactionType
    → ℤ
    → ℤ
    → Option Uuid
    → Option LogKey
    → Uuid
    → BudgetTransactionLog
log_row tenant_id user_id allocation_id type on off plan_id key id = record {
  id = id;
  tenant_id = tenant_id;
  budget_allocation_id = allocation_id;
  transaction_type = type;
  on_invoice_amount = on;
  off_invoice_amount = off;
  plan_id = plan_id;
  created_by_id = user_id;
  idempotency_key = key;
}

-- `createTransaction`.
unfoldable pub create_log :
    Uuid
    → Uuid
    → Uuid
    → BudgetTransactionType
    → ℤ
    → ℤ
    → Option Uuid
    → Option LogKey
    → Action (Unit {0})
create_log tenant_id user_id allocation_id type on off plan_id key = do
  id ← new_id
  let row = log_row tenant_id user_id allocation_id type on off plan_id key id
  write (λ db. record db { transaction_logs = row ∷ db.transaction_logs })
