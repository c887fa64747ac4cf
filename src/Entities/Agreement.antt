-- ===== src/Entities/Agreement.antt =====
-- agreement.entity.ts and agreement-transaction.entity.ts. A date is a number of milliseconds, as
-- `getTime()` gives it.
use collmind_backend.Base.{
  ℕ, Uuid, Text, ℤ, Bool, true, false, ◌&&◌, Option, ◌==◌, text_eq, ◌≡◌, arith,
}

pub data AgreementType : Type 0 where
  sta lta : AgreementType

pub data AgreementStatus : Type 0 where
  draft pending approved active closed rejected cancelled : AgreementStatus

abbrev pub agreement_status_code : AgreementStatus → ℕ
agreement_status_code AgreementStatus.draft = 0
agreement_status_code AgreementStatus.pending = 1
agreement_status_code AgreementStatus.approved = 2
agreement_status_code AgreementStatus.active = 3
agreement_status_code AgreementStatus.closed = 4
agreement_status_code AgreementStatus.rejected = 5
agreement_status_code AgreementStatus.cancelled = 6

-- `a === b` on agreement statuses.
abbrev pub same_agreement_status : AgreementStatus → AgreementStatus → Bool
same_agreement_status a b = agreement_status_code a == agreement_status_code b

pub same_agreement_status_sound : (a b : AgreementStatus) → same_agreement_status a b ≡ true → a ≡ b
same_agreement_status_sound a b h = ground arith

-- `[APPROVED, ACTIVE].includes(status)`.
abbrev pub is_running : AgreementStatus → Bool
is_running AgreementStatus.approved = true
is_running AgreementStatus.active = true
is_running _ = false

-- An agreement with its channel, whose code is `channel.code`.
pub record Agreement : Type 0 where
  pub id : Uuid
  pub tenant_id : Uuid
  pub agreement_code : Text
  pub agreement_type : AgreementType
  pub cpl_id : Uuid
  pub channel_id : Uuid
  pub channel_code : Option Text
  pub fu_id : Uuid
  pub tactic_id : Uuid
  pub mechanic_id : Uuid
  pub cap_total_amount : ℤ
  pub currency : Text
  pub start_date : ℕ
  pub end_date : ℕ
  pub period_month : Text
  pub status : AgreementStatus
  pub approval_request_id : Option Uuid
  pub approved_at : Option ℕ
  pub approved_by_id : Option Uuid
  pub rejected_at : Option ℕ
  pub rejected_by_id : Option Uuid
  pub rejection_reason : Option Text
  pub updated_by : Option Uuid
  pub deleted : Bool

-- `agreement_id|invoice_no|invoice_date`, with the date as a day; the first part holds no `|` and
-- the last has a fixed length, so two keys are equal as texts when their parts are.
pub record InvoiceKey : Type 0 where
  pub agreement_id : Uuid
  pub invoice_no : Text
  pub invoice_day : ℕ

abbrev pub invoice_key_eq : InvoiceKey → InvoiceKey → Bool
invoice_key_eq a b =
    (a.agreement_id == b.agreement_id)
    && text_eq a.invoice_no b.invoice_no
    && (a.invoice_day == b.invoice_day)

pub record AgreementTransaction : Type 0 where
  pub id : Uuid
  pub tenant_id : Uuid
  pub agreement_id : Uuid
  pub invoice_no : Text
  pub invoice_date : ℕ
  pub fiscal_period : Text
  pub amount : ℤ
  pub currency : Text
  pub batch_id : Option Uuid
  pub row_number : Option ℕ
  pub idempotency_key : InvoiceKey
  pub notes : Option Text
  pub created_by : Option Uuid
  pub deleted : Bool
