-- ===== src/Ledger.antt =====
-- ledger.service.ts and ledger.repository.ts (src/modules/modes/actuals-first/ledger): the spend
-- that was posted against agreements and envelopes.
pub mod Entries
use Prim.Native.Nat.{◌/◌}
use collmind_backend.Base.{
  ℕ, ◌*◌, Uuid, Text, codes, text_eq, Bool, true, false, ◌&&◌, not, Option, none, some, List, [],
  ◌∷◌, ◌==◌, if◌then◌else◌, find, select, exists, ℤ, pos, ◌+ℤ◌,
}
use collmind_backend.Entities.Budget.{
  LedgerEntry, LedgerKey, ledger_key_eq, SpendType, SourceType, Direction, column_is,
}
use collmind_backend.Db.{
  Db, Action, Error, duplicate_key, ledger_entry_not_found, ◌>>=◌, ◌>>◌, query, or_throw, throw_if,
  return, write, new_id,
}
use collmind_backend.Budget.Envelopes.{or_text, is_some}

-- The day of a time, as `toISOString().split('T')[0]` gives it; `start_of` is the time at which a
-- day begins, as `new Date` of that text gives it.
unfoldable pub day_of : ℕ → ℕ
day_of time = time / 86400000

unfoldable pub start_of : ℕ → ℕ
start_of day = day * 86400000

-- `where: { id, tenantId, deletedAt: IsNull() }`.
unfoldable pub find_entry : Uuid → Uuid → Db → Option LedgerEntry
find_entry id tenant_id db =
    find (λ le. (le.id == id) && (le.tenant_id == tenant_id) && not le.deleted) db.ledger_entries

-- The unique index on (tenant_id, idempotency_key), which sees deleted rows too.
abbrev pub same_ledger_key : Uuid → LedgerKey → LedgerEntry → Bool
same_ledger_key tenant_id key le =
    (le.tenant_id == tenant_id) && ledger_key_eq le.idempotency_key key

unfoldable pub find_entry_by_key : LedgerKey → Uuid → Db → Option LedgerEntry
find_entry_by_key key tenant_id db =
    find (λ le. same_ledger_key tenant_id key le && not le.deleted) db.ledger_entries

-- The rows of an agreement, and those of an envelope.
abbrev pub of_agreement : Uuid → Uuid → LedgerEntry → Bool
of_agreement agreement_id tenant_id le =
    column_is le.agreement_id agreement_id && (le.tenant_id == tenant_id) && not le.deleted

abbrev pub of_envelope : Uuid → Uuid → LedgerEntry → Bool
of_envelope envelope_id tenant_id le =
    column_is le.budget_envelope_id envelope_id && (le.tenant_id == tenant_id) && not le.deleted

pub find_entries_by_agreement : Uuid → Uuid → Db → List LedgerEntry
find_entries_by_agreement agreement_id tenant_id db =
    select (of_agreement agreement_id tenant_id) db.ledger_entries

pub find_entries_by_envelope : Uuid → Uuid → Db → List LedgerEntry
find_entries_by_envelope envelope_id tenant_id db =
    select (of_envelope envelope_id tenant_id) db.ledger_entries

-- `COALESCE(SUM(amount), 0)`, whatever the direction of an entry is.
unfoldable pub sum_entries : (LedgerEntry → Bool) → List LedgerEntry → ℤ
sum_entries p [] = pos 0
sum_entries p (le ∷ les) = (if p le then le.amount else pos 0) +ℤ sum_entries p les

-- `sumByAgreementId`, which the service calls `getConsumedByAgreement`.
unfoldable pub get_consumed_by_agreement : Uuid → Uuid → Db → ℤ
get_consumed_by_agreement agreement_id tenant_id db =
    sum_entries (of_agreement agreement_id tenant_id) db.ledger_entries

-- `sumByEnvelopeId`, which the service calls `getConsumedByEnvelope`.
unfoldable pub get_consumed_by_envelope : Uuid → Uuid → Db → ℤ
get_consumed_by_envelope envelope_id tenant_id db =
    sum_entries (of_envelope envelope_id tenant_id) db.ledger_entries

-- `findById` of the service.
pub get_entry : Uuid → Uuid → Action LedgerEntry
get_entry id tenant_id = do
  found ← query (find_entry id tenant_id)
  or_throw (Error.not_found ledger_entry_not_found) found

-- `save`: the database generates the id, and refuses a duplicate key.
unfoldable pub save_entry : LedgerEntry → Action LedgerEntry
save_entry entry = do
  taken ←
      query (λ db. exists (same_ledger_key entry.tenant_id entry.idempotency_key) db.ledger_entries)
  throw_if taken (Error.plain duplicate_key)
  id ← new_id
  let row = record entry { id = id }
  write (λ db. record db { ledger_entries = row ∷ db.ledger_entries })
  return row

-- The part of a method behind `if (existing) return existing`.
unfoldable pub unless_posted : Option LedgerEntry → Action LedgerEntry → Action LedgerEntry
unless_posted none m = m
unless_posted (some entry) m = return entry

-- The columns of an entry that the caller gives; the others are filled in.
pub record CreateEntryDto : Type 0 where
  pub source_type : SourceType
  pub source_id : Uuid
  pub agreement_id : Option Uuid
  pub spend_type : SpendType
  pub amount : ℤ
  pub currency : Option Text
  pub period_month : Text
  pub posting_date : ℕ
  pub channel : Option Text
  pub cpl_id : Option Uuid
  pub fu_id : Option Uuid
  pub tactic_id : Option Uuid
  pub mechanic_id : Option Uuid
  pub budget_envelope_id : Uuid

abbrev pub entry_of : CreateEntryDto → Uuid → Uuid → LedgerKey → LedgerEntry
entry_of dto tenant_id user_id key = record {
  id = 0;
  tenant_id = tenant_id;
  source_type = dto.source_type;
  source_id = dto.source_id;
  agreement_id = dto.agreement_id;
  spend_type = dto.spend_type;
  budget_envelope_id = some dto.budget_envelope_id;
  entry_direction = Direction.debit;
  amount = dto.amount;
  currency = or_text dto.currency (codes "TRY");
  period_month = dto.period_month;
  posting_date = start_of dto.posting_date;
  channel = dto.channel;
  cpl_id = dto.cpl_id;
  fu_id = dto.fu_id;
  tactic_id = dto.tactic_id;
  mechanic_id = dto.mechanic_id;
  idempotency_key = key;
  created_by = some user_id;
  deleted = false;
}

-- `createEntry`.
unfoldable pub create_entry : CreateEntryDto → Uuid → Uuid → LedgerKey → Action LedgerEntry
create_entry dto tenant_id user_id key = do
  existing ← query (find_entry_by_key key tenant_id)
  unless_posted existing (save_entry (entry_of dto tenant_id user_id key))

-- The `dimensions` of an entry.
pub record Dimensions : Type 0 where
  pub channel : Option Text
  pub cpl_id : Option Uuid
  pub fu_id : Option Uuid
  pub tactic_id : Option Uuid
  pub mechanic_id : Option Uuid

abbrev pub off_invoice_entry : Uuid → ℤ → ℕ → Text → Uuid → Dimensions → CreateEntryDto
off_invoice_entry agreement_id amount posting_date period_month envelope_id dimensions = record {
  source_type = SourceType.agreement;
  source_id = agreement_id;
  agreement_id = some agreement_id;
  spend_type = SpendType.off_invoice;
  amount = amount;
  currency = none;
  period_month = period_month;
  posting_date = day_of posting_date;
  channel = dimensions.channel;
  cpl_id = dimensions.cpl_id;
  fu_id = dimensions.fu_id;
  tactic_id = dimensions.tactic_id;
  mechanic_id = dimensions.mechanic_id;
  budget_envelope_id = envelope_id;
}

-- `createFromAgreementTransaction`.
unfoldable pub create_from_agreement_transaction :
    Uuid → Uuid → ℤ → ℕ → Text → Uuid → Dimensions → Uuid → Uuid → Action LedgerEntry
create_from_agreement_transaction agreement_id transaction_id amount posting_date period_month
      envelope_id dimensions tenant_id user_id =
    create_entry
      (off_invoice_entry agreement_id amount posting_date period_month envelope_id dimensions)
      tenant_id user_id (record { agreement_id = agreement_id; transaction_id = transaction_id })
