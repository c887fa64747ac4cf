-- ===== src/Agreements/Terms.antt =====
-- `update` of agreement.service.ts: the terms of a draft, and the rule on durations.
pub mod Duration
use Prim.Native.Nat.{◌/◌}
use collmind_backend.Base.{
  ℕ, ◌+◌, ◌-◌, Uuid, Text, Bool, true, false, ◌&&◌, not, Option, none, some, ltb, leb, ℤ,
}
use collmind_backend.Entities.Agreement.{
  Agreement, AgreementType, AgreementStatus, same_agreement_status,
}
use collmind_backend.Db.{
  Action, Error, agreement_not_draft, sta_too_long, lta_too_short, ◌>>=◌, ◌>>◌, throw_if, return,
}
use collmind_backend.Agreements.Repository.{update_agreement}
use collmind_backend.Agreements.Service.{get_agreement}

abbrev pub is_sta : AgreementType → Bool
is_sta AgreementType.sta = true
is_sta AgreementType.lta = false

-- `Math.ceil((end - start) / (1000 * 60 * 60 * 24))`. A negative duration is 0 here; durations are
-- only compared with 30.
unfoldable pub duration_days : ℕ → ℕ → ℕ
duration_days start end = (end - start + 86399999) / 86400000

-- The two tests of a duration, one for each type.
unfoldable pub check_duration : AgreementType → ℕ → Action (Unit {0})
check_duration agreement_type days = do
  throw_if (is_sta agreement_type && ltb 30 days) (Error.bad_request sta_too_long)
  throw_if (not (is_sta agreement_type) && leb days 30) (Error.bad_request lta_too_short)

-- The fields of `UpdateAgreementDto` for the columns of the model; a date is a time in
-- milliseconds.
pub record UpdateAgreementDto : Type 0 where
  pub agreement_type : Option AgreementType
  pub cpl_id : Option Uuid
  pub channel_id : Option Uuid
  pub fu_id : Option Uuid
  pub tactic_id : Option Uuid
  pub mechanic_id : Option Uuid
  pub cap_total_amount : Option ℤ
  pub currency : Option Text
  pub start_date : Option ℕ
  pub end_date : Option ℕ

-- `new || old`, and a column that an update leaves alone where the field is undefined.
abbrev pub or_old {ℓ} : {A : Type ℓ} → Option A → A → A
or_old none old = old
or_old (some a) old = a

-- `if (dto.startDate || dto.endDate)`: the duration is tested against the type that is stored.
unfoldable pub check_dates : Option ℕ → Option ℕ → Agreement → Action (Unit {0})
check_dates none none a = return tt
check_dates start end a =
    check_duration a.agreement_type
      (duration_days (or_old start a.start_date) (or_old end a.end_date))

-- The columns of the join and of the calendar that follow from a change of the terms.
abbrev pub new_channel : (Uuid → Option Text) → Option Uuid → Option Text → Option Text
new_channel channel_code_of none old = old
new_channel channel_code_of (some id) old = channel_code_of id

abbrev pub new_period : (ℕ → Text) → Option ℕ → Text → Text
new_period month_of none old = old
new_period month_of (some time) old = month_of time

abbrev pub updated_terms :
    (ℕ → Text) → (Uuid → Option Text) → UpdateAgreementDto → Uuid → Agreement → Agreement
updated_terms month_of channel_code_of dto user_id a = record a {
  agreement_type = or_old dto.agreement_type a.agreement_type;
  cpl_id = or_old dto.cpl_id a.cpl_id;
  channel_id = or_old dto.channel_id a.channel_id;
  channel_code = new_channel channel_code_of dto.channel_id a.channel_code;
  fu_id = or_old dto.fu_id a.fu_id;
  tactic_id = or_old dto.tactic_id a.tactic_id;
  mechanic_id = or_old dto.mechanic_id a.mechanic_id;
  cap_total_amount = or_old dto.cap_total_amount a.cap_total_amount;
  currency = or_old dto.currency a.currency;
  start_date = or_old dto.start_date a.start_date;
  end_date = or_old dto.end_date a.end_date;
  period_month = new_period month_of dto.start_date a.period_month;
  updated_by = some user_id;
}

-- `update`. `channel_code_of` is the code of a channel, as the join with the channels gives it. The
-- KPI results that the code computes next fill a column that no other code of the model reads, and
-- an error there is caught.
unfoldable pub update_terms :
    (ℕ → Text) → (Uuid → Option Text) → Uuid → UpdateAgreementDto → Uuid → Uuid → Action Agreement
update_terms month_of channel_code_of id dto tenant_id user_id = do
  agreement ← get_agreement id tenant_id
  throw_if (not (same_agreement_status agreement.status AgreementStatus.draft))
      (Error.bad_request agreement_not_draft)
  check_dates dto.start_date dto.end_date agreement
  update_agreement id tenant_id (updated_terms month_of channel_code_of dto user_id)
