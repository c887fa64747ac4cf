-- ===== src/Entities/Budget.antt =====
-- budget-envelope.entity.ts, budget-transaction.entity.ts, ledger-entry.entity.ts.
use collmind_backend.Base.{
  ℕ, Uuid, Text, ℤ, Bool, ◌&&◌, Option, none, some, ◌==◌, true, false, ◌≡◌, arith,
}

pub data EnvelopeStatus : Type 0 where
  draft active closed archived : EnvelopeStatus

abbrev pub is_active : EnvelopeStatus → Bool
is_active EnvelopeStatus.active = Bool.true
is_active _ = false

-- `meta_channel` and `meta_category` are `metadata->>'channel'` and `metadata->>'category'`.
pub record Envelope : Type 0 where
  pub id : Uuid
  pub tenant_id : Uuid
  pub code : Text
  pub name : Text
  pub fiscal_year : Text
  pub period : Text
  pub allocated_amount : ℤ
  pub consumed_amount : ℤ
  pub available_amount : ℤ
  pub status : EnvelopeStatus
  pub channel : Option Text
  pub category : Option Text
  pub currency : Text
  pub meta_channel : Option Text
  pub meta_category : Option Text
  pub deleted : Bool

pub data TxType : Type 0 where
  allocate commit reserve release transfer adjust : TxType

abbrev pub tx_type_code : TxType → ℕ
tx_type_code TxType.allocate = 0
tx_type_code TxType.commit = 1
tx_type_code TxType.reserve = 2
tx_type_code TxType.release = 3
tx_type_code TxType.transfer = 4
tx_type_code TxType.adjust = 5

-- `a === b` on transaction types.
abbrev pub same_type : TxType → TxType → Bool
same_type a b = tx_type_code a == tx_type_code b

pub data TxStatus : Type 0 where
  pending posted cancelled : TxStatus

abbrev pub is_posted : TxStatus → Bool
is_posted TxStatus.posted = Bool.true
is_posted _ = false

pub data SourceType : Type 0 where
  agreement plan manual transfer adjustment : SourceType

abbrev pub source_code : SourceType → ℕ
source_code SourceType.agreement = 0
source_code SourceType.plan = 1
source_code SourceType.manual = 2
source_code SourceType.transfer = 3
source_code SourceType.adjustment = 4

abbrev pub same_source : SourceType → SourceType → Bool
same_source a b = source_code a == source_code b

-- `column = value`: a NULL column equals nothing.
abbrev pub column_is : Option ℕ → ℕ → Bool
column_is none b = false
column_is (some a) b = a == b

abbrev pub same_envelope : Option Uuid → Option Uuid → Bool
same_envelope none none = Bool.true
same_envelope (some a) (some b) = a == b
same_envelope _ _ = false

-- `OPERATION|SOURCE|source_id`, with `|envelope_id` behind it in most formats. The parts hold no
-- `|`, so two keys are equal as texts when their parts are.
pub record IdempotencyKey : Type 0 where
  pub operation : TxType
  pub source : SourceType
  pub source_id : Uuid
  pub envelope : Option Uuid

unfoldable pub key_eq : IdempotencyKey → IdempotencyKey → Bool
key_eq a b =
    same_type a.operation b.operation
    && same_source a.source b.source
    && (a.source_id == b.source_id)
    && same_envelope a.envelope b.envelope

pub record Transaction : Type 0 where
  pub id : Uuid
  pub tenant_id : Uuid
  pub envelope_id : Uuid
  pub tx_type : TxType
  pub tx_status : TxStatus
  pub source_type : Option SourceType
  pub source_id : Option Uuid
  pub amount : ℤ
  pub currency : Text
  pub idempotency_key : IdempotencyKey
  pub created_by : Option Uuid
  pub deleted : Bool

pub data Direction : Type 0 where
  debit credit : Direction

-- `LEDGER|AGREEMENT|agreement_id|transaction_id`, kept as its last two parts.
pub record LedgerKey : Type 0 where
  pub agreement_id : Uuid
  pub transaction_id : Uuid

abbrev pub ledger_key_eq : LedgerKey → LedgerKey → Bool
ledger_key_eq a b = (a.agreement_id == b.agreement_id) && (a.transaction_id == b.transaction_id)

pub data SpendType : Type 0 where
  on_invoice off_invoice adjustment accrual : SpendType

pub record LedgerEntry : Type 0 where
  pub id : Uuid
  pub tenant_id : Uuid
  pub source_type : SourceType
  pub source_id : Uuid
  pub agreement_id : Option Uuid
  pub spend_type : SpendType
  pub budget_envelope_id : Option Uuid
  pub entry_direction : Direction
  pub amount : ℤ
  pub currency : Text
  pub period_month : Text
  pub posting_date : ℕ
  pub channel : Option Text
  pub cpl_id : Option Uuid
  pub fu_id : Option Uuid
  pub tactic_id : Option Uuid
  pub mechanic_id : Option Uuid
  pub idempotency_key : LedgerKey
  pub created_by : Option Uuid
  pub deleted : Bool

pub key_eq_refl : (k : IdempotencyKey) → key_eq k k ≡ true
unfolding key_eq
key_eq_refl k = ground arith

pub key_eq-operation :
    (j k : IdempotencyKey) → same_type j.operation k.operation ≡ false → key_eq j k ≡ false
unfolding key_eq
key_eq-operation j k h = ground arith
