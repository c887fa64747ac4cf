-- ===== src/Agreements/Creation.antt =====
-- `create` of agreement.service.ts.
pub mod Outcome
use collmind_backend.Base.{
  ℕ, zero, suc, ◌+◌, Uuid, Text, codes, Bool, true, false, ◌&&◌, not, Option, none, some, List, [],
  ◌∷◌, ◌==◌, exists, text_eq, ℤ,
}
use collmind_backend.Entities.Agreement.{Agreement, AgreementType, AgreementStatus}
use collmind_backend.Db.{
  Db, Action, Error, master_data_missing, agreement_codes_exhausted, ◌>>=◌, ◌>>◌, query, throw,
  throw_if, return, write, new_id,
}
use collmind_backend.Budget.Envelopes.{or_text}
use collmind_backend.Agreements.Repository.{find_agreement_by_code}
use collmind_backend.Agreements.Terms.{duration_days, check_duration}
use collmind_backend.Agreements.Codes.{Platform, generate_code, raise_code}

-- The fields of `CreateAgreementDto` for the columns of the model; a date is a time in
-- milliseconds.
pub record CreateAgreementDto : Type 0 where
  pub agreement_type : AgreementType
  pub cpl_id : Uuid
  pub channel_id : Uuid
  pub fu_id : Uuid
  pub tactic_id : Uuid
  pub mechanic_id : Uuid
  pub cap_total_amount : ℤ
  pub currency : Option Text
  pub start_date : ℕ
  pub end_date : ℕ

-- The master data of a tenant: which ids exist, as the five `findOne` calls ask for them, and the
-- code of a channel.
pub record MasterData : Type 0 where
  pub has_cpl : Uuid → Uuid → Bool
  pub has_channel : Uuid → Uuid → Bool
  pub has_tactic : Uuid → Uuid → Bool
  pub has_mechanic : Uuid → Uuid → Bool
  pub has_fu : Uuid → Uuid → Bool
  pub channel_code_of : Uuid → Option Text

-- The five calls of `findOne`, of which the first to fail throws.
abbrev pub known : MasterData → Uuid → CreateAgreementDto → Bool
known master tenant_id dto =
    master.has_cpl tenant_id dto.cpl_id
    && master.has_channel tenant_id dto.channel_id
    && master.has_tactic tenant_id dto.tactic_id
    && master.has_mechanic tenant_id dto.mechanic_id
    && master.has_fu tenant_id dto.fu_id

-- The loop that looks for a code which no agreement has, from `left` attempts; the last attempt
-- throws whatever it finds.
unfoldable pub free_code :
    Platform → Uuid → AgreementType → ℕ → Text → Option Agreement → Action Text
free_code platform tenant_id agreement_type left code none = return code
free_code platform tenant_id agreement_type zero code (some taken) = return code
free_code platform tenant_id agreement_type (suc left) code (some taken) = do
  next ← raise_code platform tenant_id agreement_type 1 code
  existing ← query (find_agreement_by_code next tenant_id platform.shows_deleted)
  throw_if (left == 0) (Error.conflict agreement_codes_exhausted)
  free_code platform tenant_id agreement_type left next existing

abbrev pub agreement_of :
    Platform → MasterData → CreateAgreementDto → Uuid → Text → Uuid → Agreement
agreement_of platform master dto tenant_id code id = record {
  id = id;
  tenant_id = tenant_id;
  agreement_code = code;
  agreement_type = dto.agreement_type;
  cpl_id = dto.cpl_id;
  channel_id = dto.channel_id;
  channel_code = master.channel_code_of dto.channel_id;
  fu_id = dto.fu_id;
  tactic_id = dto.tactic_id;
  mechanic_id = dto.mechanic_id;
  cap_total_amount = dto.cap_total_amount;
  currency = or_text dto.currency (codes "TRY");
  start_date = dto.start_date;
  end_date = dto.end_date;
  period_month = platform.month_of dto.start_date;
  status = AgreementStatus.draft;
  approval_request_id = none;
  approved_at = none;
  approved_by_id = none;
  rejected_at = none;
  rejected_by_id = none;
  rejection_reason = none;
  updated_by = none;
  deleted = false;
}

-- The unique index on (tenant_id, agreement_code), which sees deleted rows too.
abbrev pub same_code : Uuid → Text → Agreement → Bool
same_code tenant_id code a = (a.tenant_id == tenant_id) && text_eq a.agreement_code code

-- `agreementRepo.create` with a code that is free.
unfoldable pub save_agreement : (Uuid → Agreement) → Action Agreement
save_agreement row = do
  id ← new_id
  write (λ db. record db { agreements = row id ∷ db.agreements })
  return (row id)

-- What follows a code that the index refuses, or that it takes.
unfoldable pub if_refused : Bool → Action Agreement → Action Agreement → Action Agreement
if_refused true retry save = retry
if_refused false retry save = save

-- The loop around `agreementRepo.create`, with `left` attempts behind this one.
unfoldable pub store_agreement :
    Platform → MasterData → CreateAgreementDto → Uuid → ℕ → Text → Action Agreement
store_agreement platform master dto tenant_id zero code = do
  refused ← query (λ db. exists (same_code tenant_id code) db.agreements)
  if_refused refused (throw (Error.conflict agreement_codes_exhausted))
      (save_agreement (agreement_of platform master dto tenant_id code))
store_agreement platform master dto tenant_id (suc left) code = do
  refused ← query (λ db. exists (same_code tenant_id code) db.agreements)
  if_refused refused
      (do
        next ← raise_code platform tenant_id dto.agreement_type 0 code
        store_agreement platform master dto tenant_id left next)
      (save_agreement (agreement_of platform master dto tenant_id code))

-- `create`. Waiting between two attempts, the log file and the KPI results, which fill a column
-- that no other code of the model reads, are left out.
unfoldable pub create_agreement :
    Platform → MasterData → CreateAgreementDto → Uuid → Action Agreement
create_agreement platform master dto tenant_id = do
  check_duration dto.agreement_type (duration_days dto.start_date dto.end_date)
  throw_if (not (known master tenant_id dto)) (Error.not_found master_data_missing)
  generated ← query (generate_code platform tenant_id dto.agreement_type)
  existing ← query (find_agreement_by_code generated tenant_id platform.shows_deleted)
  code ← free_code platform tenant_id dto.agreement_type 10 generated existing
  store_agreement platform master dto tenant_id 9 code
