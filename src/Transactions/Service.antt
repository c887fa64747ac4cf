-- ===== src/Transactions/Service.antt =====
-- agreement-transaction.service.ts: single transactions and the import of a batch.
pub mod Outcome
pub mod Cap
pub mod Batch
pub mod Spend
pub mod Twice
use collmind_backend.Base.{
  ℕ, ◌+◌, Uuid, Text, codes, Bool, true, false, ◌||◌, not, Option, none, some, List, [], ◌∷◌, ◌++◌,
  ltb, length, ℤ, ◌+ℤ◌, ltb_ℤ,
}
use collmind_backend.Entities.Budget.{Envelope}
use collmind_backend.Entities.Agreement.{Agreement, is_running, AgreementTransaction, InvoiceKey}
use collmind_backend.Db.{
  Db, Action, Result, ok, err, Error, Reason, message, agreement_not_open, invoice_outside_period,
  cap_exceeded, agreement_without_channel, transaction_not_found, ◌>>=◌, ◌>>◌, query, or_throw,
  throw_if, return, new_id,
}
use collmind_backend.Budget.Envelopes.{or_text}
use collmind_backend.Budget.Repository.{find_envelope_by_dimensions}
use collmind_backend.Agreements.Service.{get_agreement}
use collmind_backend.Ledger.{day_of, create_from_agreement_transaction, Dimensions}
use collmind_backend.Transactions.Repository.{
  save_transaction, find_transaction, find_by_invoice, sum_by_agreement_id,
}

-- A transaction as a caller gives it; the invoice date is a time in milliseconds.
pub record CreateTransactionDto : Type 0 where
  pub agreement_id : Uuid
  pub invoice_no : Text
  pub invoice_date : ℕ
  pub fiscal_period : Option Text
  pub amount : ℤ
  pub currency : Option Text
  pub notes : Option Text

abbrev pub outside_period : Agreement → ℕ → Bool
outside_period a time = ltb time a.start_date || ltb a.end_date time

abbrev pub invoice_key : CreateTransactionDto → InvoiceKey
invoice_key dto = record {
  agreement_id = dto.agreement_id;
  invoice_no = dto.invoice_no;
  invoice_day = day_of dto.invoice_date;
}

-- The period that is given, else that of the agreement, else the month of the invoice. `month_of`
-- writes the month of a time in the server's calendar, as YYYY-MM.
abbrev pub fiscal_period_of : (ℕ → Text) → CreateTransactionDto → Agreement → Text
fiscal_period_of month_of dto a =
    or_text dto.fiscal_period (or_text (some a.period_month) (month_of dto.invoice_date))

abbrev pub transaction_of :
    (ℕ → Text)
    → CreateTransactionDto
    → Agreement
    → Uuid
    → Uuid
    → Option Uuid
    → Option ℕ
    → AgreementTransaction
transaction_of month_of dto a tenant_id user_id batch_id row_number = record {
  id = 0;
  tenant_id = tenant_id;
  agreement_id = dto.agreement_id;
  invoice_no = dto.invoice_no;
  invoice_date = dto.invoice_date;
  fiscal_period = fiscal_period_of month_of dto a;
  amount = dto.amount;
  currency = or_text dto.currency (codes "TRY");
  batch_id = batch_id;
  row_number = row_number;
  idempotency_key = invoice_key dto;
  notes = dto.notes;
  created_by = some user_id;
  deleted = false;
}

-- The part of `create` behind `if (existing) return existing`.
unfoldable pub unless_imported :
    Option AgreementTransaction → Action AgreementTransaction → Action AgreementTransaction
unless_imported none m = m
unless_imported (some tx) m = return tx

abbrev pub dimensions_of : Text → Agreement → Dimensions
dimensions_of channel_code a = record {
  channel = some channel_code;
  cpl_id = some a.cpl_id;
  fu_id = some a.fu_id;
  tactic_id = some a.tactic_id;
  mechanic_id = some a.mechanic_id;
}

-- `if (envelope) { … }`: without an envelope the ledger gets no entry.
unfoldable pub post_spend :
    Option Envelope
    → Agreement
    → AgreementTransaction
    → ℤ
    → ℕ
    → Text
    → Text
    → Uuid
    → Uuid
    → Action (Unit {0})
post_spend none a tx amount time fiscal_period channel_code tenant_id user_id = return tt
post_spend (some e) a tx amount time fiscal_period channel_code tenant_id user_id = do
  create_from_agreement_transaction a.id tx.id amount time fiscal_period e.id
      (dimensions_of channel_code a) tenant_id user_id
  return tt

-- What `create` does for an invoice that it does not know.
unfoldable pub import_invoice :
    (ℕ → Text)
    → CreateTransactionDto
    → Agreement
    → Uuid
    → Uuid
    → Option Uuid
    → Option ℕ
    → Action AgreementTransaction
import_invoice month_of dto agreement tenant_id user_id batch_id row_number = do
  current_total ← query (sum_by_agreement_id dto.agreement_id tenant_id)
  throw_if (ltb_ℤ agreement.cap_total_amount (current_total +ℤ dto.amount))
      (Error.bad_request cap_exceeded)
  let fiscal_period = fiscal_period_of month_of dto agreement
  transaction ←
      save_transaction (transaction_of month_of dto agreement tenant_id user_id batch_id row_number)
  channel_code ← or_throw (Error.bad_request agreement_without_channel) agreement.channel_code
  envelope ← query (find_envelope_by_dimensions tenant_id channel_code fiscal_period none)
  post_spend envelope agreement transaction dto.amount dto.invoice_date fiscal_period channel_code
      tenant_id user_id
  return transaction

-- `create`.
unfoldable pub create_agreement_transaction :
    (ℕ → Text)
    → CreateTransactionDto
    → Uuid
    → Uuid
    → Option Uuid
    → Option ℕ
    → Action AgreementTransaction
create_agreement_transaction month_of dto tenant_id user_id batch_id row_number = do
  agreement ← get_agreement dto.agreement_id tenant_id
  throw_if (not (is_running agreement.status)) (Error.bad_request agreement_not_open)
  throw_if (outside_period agreement dto.invoice_date) (Error.bad_request invoice_outside_period)
  existing ← query (find_by_invoice (invoice_key dto) tenant_id)
  unless_imported existing
      (import_invoice month_of dto agreement tenant_id user_id batch_id row_number)

pub record RowError : Type 0 where
  pub row_number : ℕ
  pub invoice_no : Text
  pub error : Reason

pub record BatchResult : Type 0 where
  pub batch_id : Uuid
  pub total_rows : ℕ
  pub success_count : ℕ
  pub error_count : ℕ
  pub errors : List RowError
  pub created_transactions : List Uuid

-- `try { m } catch (error)`, with what it ended in as a value.
unfoldable pub attempt : {A : Type 0} → Action A → Action (Result A)
attempt m db = (ok ((m db).0), (m db).1)

-- What a row adds to the result.
unfoldable pub note_row :
    ℕ → CreateTransactionDto → Result AgreementTransaction → BatchResult → BatchResult
note_row row_number dto (ok tx) result = record result {
  success_count = result.success_count + 1;
  created_transactions = result.created_transactions ++ (tx.id ∷ []);
}
note_row row_number dto (err e) result = record result {
  error_count = result.error_count + 1;
  errors =
      result.errors
      ++ (record { row_number = row_number; invoice_no = dto.invoice_no; error = message e } ∷ []);
}

-- The loop of `batchImport`, from the row with index `i`.
unfoldable pub import_rows :
    (ℕ → Text) → List CreateTransactionDto → ℕ → Uuid → Uuid → BatchResult → Action BatchResult
import_rows month_of [] i tenant_id user_id result = return result
import_rows month_of (dto ∷ dtos) i tenant_id user_id result = do
  ended ← attempt (
      create_agreement_transaction month_of dto tenant_id user_id (some result.batch_id)
        (some (i + 1)))
  import_rows month_of dtos (i + 1) tenant_id user_id (note_row (i + 1) dto ended result)

abbrev pub empty_result : Uuid → List CreateTransactionDto → BatchResult
empty_result batch_id dtos = record {
  batch_id = batch_id;
  total_rows = length dtos;
  success_count = 0;
  error_count = 0;
  errors = [];
  created_transactions = [];
}

-- `dto.batchId || randomUUID()`.
unfoldable pub batch_id_of : Option Uuid → Action Uuid
batch_id_of none = new_id
batch_id_of (some id) = return id

-- `batchImport`.
unfoldable pub batch_import :
    (ℕ → Text) → List CreateTransactionDto → Option Uuid → Uuid → Uuid → Action BatchResult
batch_import month_of dtos batch_id tenant_id user_id = do
  id ← batch_id_of batch_id
  import_rows month_of dtos 0 tenant_id user_id (empty_result id dtos)

-- `findById`.
pub get_transaction : Uuid → Uuid → Action AgreementTransaction
get_transaction id tenant_id = do
  found ← query (find_transaction id tenant_id)
  or_throw (Error.not_found transaction_not_found) found
