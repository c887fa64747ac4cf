-- ===== src/Entities/Lta.antt =====
-- lta-agreement.entity.ts, lta-rate.entity.ts and lta-plan-override.entity.ts.
use collmind_backend.Base.{ℕ, Uuid, Text, ℤ, Bool, Option, ◌==◌}

pub data LtaAgreementStatus : Type 0 where
  draft active expired terminated : LtaAgreementStatus

abbrev lta_status_code : LtaAgreementStatus → ℕ
lta_status_code LtaAgreementStatus.draft = 0
lta_status_code LtaAgreementStatus.active = 1
lta_status_code LtaAgreementStatus.expired = 2
lta_status_code LtaAgreementStatus.terminated = 3

abbrev pub same_lta_status : LtaAgreementStatus → LtaAgreementStatus → Bool
same_lta_status a b = lta_status_code a == lta_status_code b

-- A date is the number of its day.
pub record LtaAgreement : Type 0 where
  pub id : Uuid
  pub tenant_id : Uuid
  pub cpl_id : Uuid
  pub agreement_code : Text
  pub effective_date : ℕ
  pub expiry_date : Option ℕ
  pub status : LtaAgreementStatus
  pub deleted : Bool

-- Percentages are hundredths.
pub record LtaRate : Type 0 where
  pub id : Uuid
  pub lta_agreement_id : Uuid
  pub channel : Text
  pub category : Text
  pub on_invoice_percentage : ℤ
  pub off_invoice_percentage : ℤ
  pub is_active : Bool

pub record LtaPlanOverride : Type 0 where
  pub lta_agreement_id : Uuid
  pub lta_rate_id : Uuid
  pub plan_id : Uuid
  pub override_on_invoice_pct : Option ℤ
  pub override_off_invoice_pct : Option ℤ
