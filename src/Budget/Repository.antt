-- ===== src/Budget/Repository.antt =====
-- budget.repository.ts, and the view `v_budget_summary` that it reads. The queries go to TypeORM;
-- what is modelled is the rows that their conditions select, in the order they ask for.
pub mod Summary
pub mod Calls
pub mod Choice
use collmind_backend.Base.{
  ℕ, ◌+◌, Bool, true, false, ◌&&◌, ◌||◌, not, Option, none, some, List, [], ◌∷◌, Uuid, Text,
  text_eq, is_prefix, take, ℤ, pos, negsuc, codes, ◌++◌, ◌+ℤ◌, ◌-ℤ◌, leb_ℤ, ◌==◌, leb,
  if◌then◌else◌, find, select, exists,
}
use mathlib.Core.Option
use Prim.Native.Nat.{◌/◌, ◌%◌}
use collmind_backend.Agreements.Codes.{show, text_leb}
use collmind_backend.Entities.Budget.{
  Envelope, is_active, Transaction, TxType, same_type, is_posted, SourceType, same_source,
  column_is, IdempotencyKey, key_eq, LedgerEntry, Direction,
}
use collmind_backend.Db.{
  Db, Action, Error, duplicate_key, summary_not_found, lock_without_transaction, ◌>>=◌, ◌>>◌, query,
  or_throw, throw_if, throw, return, write, new_id,
}

-- `where: { tenantId, id }`; the queries leave out rows with a `deletedAt`.
abbrev pub is_envelope : Uuid → Uuid → Envelope → Bool
is_envelope tenant_id id e = (e.tenant_id == tenant_id) && (e.id == id) && not e.deleted

unfoldable pub find_envelope_by_id : Uuid → Uuid → Db → Option Envelope
find_envelope_by_id tenant_id id db = find (is_envelope tenant_id id) db.envelopes

-- `setLock('pessimistic_write')` throws outside a database transaction, and no method opens one.
unfoldable pub find_envelope_with_lock : Uuid → Uuid → Action (Option Envelope)
find_envelope_with_lock tenant_id id = throw (Error.plain lock_without_transaction)

unfoldable pub find_envelope_by_code : Uuid → Text → Db → Option Envelope
find_envelope_by_code tenant_id code db =
    find (λ e. (e.tenant_id == tenant_id) && text_eq e.code code && not e.deleted) db.envelopes

abbrev pub text_is : Option Text → Text → Bool
text_is none t = false
text_is (some s) t = text_eq s t

-- `if (category)`: an absent or empty category asks for nothing.
abbrev pub category_matches : Option Text → Envelope → Bool
category_matches none e = true
category_matches (some []) e = true
category_matches (some (a ∷ c)) e = text_is e.category (a ∷ c) || text_is e.meta_category (a ∷ c)

-- The conditions of `findEnvelopeByDimensions`.
unfoldable pub dimensions_match : Uuid → Text → Text → Option Text → Envelope → Bool
dimensions_match tenant_id channel period_month category e =
    (e.tenant_id == tenant_id)
    && not e.deleted
    && is_active e.status
    && (text_eq e.period period_month || is_prefix (take 4 period_month) e.period)
    && (text_is e.channel channel || text_is e.meta_channel channel)
    && category_matches category e

-- Its order: an exact period first, then an exact channel column; 0 is the best.
unfoldable pub rank : Text → Text → Envelope → ℕ
rank channel period_month e =
    (if text_eq e.period period_month then 0 else 2) + (if text_is e.channel channel then 0 else 1)

-- The first row of the least rank: the newest of them, as the table lists by `createdAt DESC`.
abbrev pub better {ℓ} : {A : Type ℓ} → (A → ℕ) → A → Option A → Option A
better f x none = some x
better f x (some y) = if leb (f x) (f y) then some x else some y

abbrev pub first_least {ℓ} : {A : Type ℓ} → (A → ℕ) → List A → Option A
first_least f [] = none
first_least f (x ∷ xs) = better f x (first_least f xs)

unfoldable pub find_envelope_by_dimensions : Uuid → Text → Text → Option Text → Db → Option Envelope
find_envelope_by_dimensions tenant_id channel period_month category db =
    first_least (rank channel period_month)
      (select (dimensions_match tenant_id channel period_month category) db.envelopes)

-- The unique index on (tenant_id, idempotency_key), which sees deleted rows too.
abbrev pub same_key : Uuid → IdempotencyKey → Transaction → Bool
same_key tenant_id key tx = (tx.tenant_id == tenant_id) && key_eq tx.idempotency_key key

-- `save`: the database generates the id, and refuses a duplicate key.
unfoldable pub create_transaction : Transaction → Action Transaction
create_transaction tx = do
  taken ← query (λ db. exists (same_key tx.tenant_id tx.idempotency_key) db.transactions)
  throw_if taken (Error.plain duplicate_key)
  id ← new_id
  let row = record tx { id = id }
  write (λ db. record db { transactions = row ∷ db.transactions })
  return row

unfoldable pub find_transaction_by_idempotency_key : Uuid → IdempotencyKey → Db → Option Transaction
find_transaction_by_idempotency_key tenant_id key db =
    find (λ tx. same_key tenant_id key tx && not tx.deleted) db.transactions

abbrev pub source_is : Option SourceType → SourceType → Bool
source_is none s = false
source_is (some r) s = same_source r s

abbrev pub of_source : Uuid → SourceType → Uuid → Transaction → Bool
of_source tenant_id source_type source_id tx =
    (tx.tenant_id == tenant_id)
    && source_is tx.source_type source_type
    && column_is tx.source_id source_id
    && not tx.deleted

unfoldable pub find_transactions_by_source : Uuid → SourceType → Uuid → Db → List Transaction
find_transactions_by_source tenant_id source_type source_id db =
    select (of_source tenant_id source_type source_id) db.transactions

pub find_transactions_by_envelope : Uuid → Uuid → Option TxType → Db → List Transaction
find_transactions_by_envelope tenant_id envelope_id tx_type db =
    select
      (λ tx.
        (tx.tenant_id == tenant_id)
        && (tx.envelope_id == envelope_id)
        && elim tx_type [ none ↦ true | some t ↦ same_type tx.tx_type t ]
        && not tx.deleted)
      db.transactions

-- `COALESCE(SUM(amount), 0)` over the rows that a test selects.
unfoldable pub sum_where : (Transaction → Bool) → List Transaction → ℤ
sum_where p [] = pos 0
sum_where p (tx ∷ txs) = (if p tx then tx.amount else pos 0) +ℤ sum_where p txs

-- The rows of one type that the view sums for an envelope.
abbrev pub counts_as : TxType → Uuid → Transaction → Bool
counts_as t envelope_id tx =
    (tx.envelope_id == envelope_id)
    && is_posted tx.tx_status
    && not tx.deleted
    && same_type tx.tx_type t

-- `reserved_amount` of the view.
unfoldable pub reserved_amount : Uuid → List Transaction → ℤ
reserved_amount envelope_id txs =
    sum_where (counts_as TxType.reserve envelope_id) txs
    -ℤ sum_where (counts_as TxType.release envelope_id) txs

abbrev signed : Direction → ℤ → ℤ
signed Direction.debit amount = amount
signed Direction.credit amount = pos 0 -ℤ amount

-- `consumed_amount` of the view.
unfoldable pub consumed_amount : Uuid → List LedgerEntry → ℤ
consumed_amount envelope_id [] = pos 0
consumed_amount envelope_id (le ∷ les) =
    (if column_is le.budget_envelope_id envelope_id && not le.deleted
      then signed le.entry_direction le.amount
      else pos 0)
    +ℤ consumed_amount envelope_id les

-- `available_amount` of the view.
unfoldable pub available_amount : Envelope → Db → ℤ
available_amount e db =
    e.allocated_amount
    -ℤ reserved_amount e.id db.transactions
    -ℤ consumed_amount e.id db.ledger_entries

-- A row of `v_budget_summary`.
pub record BudgetSummary : Type 0 where
  pub envelope_id : Uuid
  pub tenant_id : Uuid
  pub allocated_amount : ℤ
  pub reserved_amount : ℤ
  pub consumed_amount : ℤ
  pub available_amount : ℤ

abbrev pub summary_row : Db → Envelope → BudgetSummary
summary_row db e = record {
  envelope_id = e.id;
  tenant_id = e.tenant_id;
  allocated_amount = e.allocated_amount;
  reserved_amount = reserved_amount e.id db.transactions;
  consumed_amount = consumed_amount e.id db.ledger_entries;
  available_amount = available_amount e db;
}

unfoldable pub get_budget_summary : Uuid → Uuid → Db → Option BudgetSummary
get_budget_summary envelope_id tenant_id db =
    Option.map (summary_row db) (find (is_envelope tenant_id envelope_id) db.envelopes)

-- A decimal column with two places, as the driver gives it.
abbrev hundredths_text : ℕ → Text
hundredths_text n = show (n / 100) ++ (codes "." ++ (show (n % 100 / 10) ++ show (n % 10)))

unfoldable pub decimal_text : ℤ → Text
decimal_text (pos n) = hundredths_text n
decimal_text (negsuc n) = codes "-" ++ hundredths_text (n + 1)

-- `available >= requested`. What is available is a text. A requested number is compared with its
-- value; a requested text, as one column of a row is, by the characters.
abbrev pub Comparison : Type 0
Comparison = ℤ → ℤ → Bool

unfoldable pub text_at_most : Comparison
text_at_most requested available = text_leb (decimal_text requested) (decimal_text available)

-- `{ available, sufficient }`.
unfoldable pub check_budget_availability : Comparison → Uuid → Uuid → ℤ → Action (ℤ × Bool)
unfolding get_budget_summary
check_budget_availability at_most envelope_id tenant_id requested = do
  found ← query (get_budget_summary envelope_id tenant_id)
  summary ← or_throw (Error.plain summary_not_found) found
  return (summary.available_amount, at_most requested summary.available_amount)

-- `getReservedAmount`: two sums over the tenant's transactions.
abbrev pub tenant_counts_as : TxType → Uuid → Uuid → Transaction → Bool
tenant_counts_as t tenant_id envelope_id tx =
    (tx.tenant_id == tenant_id) && counts_as t envelope_id tx

unfoldable pub get_reserved_amount : Uuid → Uuid → Db → ℤ
get_reserved_amount tenant_id envelope_id db =
    sum_where (tenant_counts_as TxType.reserve tenant_id envelope_id) db.transactions
    -ℤ sum_where (tenant_counts_as TxType.release tenant_id envelope_id) db.transactions
