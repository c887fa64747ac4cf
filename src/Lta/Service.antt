-- ===== src/Lta/Service.antt =====
-- lta-agreement.service.ts: the calls that write.
use collmind_backend.Base.{
  ℕ, Uuid, Text, text_eq, Bool, true, false, ◌&&◌, ◌||◌, not, Option, none, some, List, [], ◌∷◌,
  ◌++◌, ◌==◌, ltb, leb, select, exists, ℤ,
}
use collmind_backend.Entities.Lta.{LtaAgreementStatus, same_lta_status, LtaAgreement, LtaRate}
use collmind_backend.Db.{
  Action, Error, master_data_missing, duplicate_key, period_empty, lta_not_found, lta_code_taken,
  effective_date_past, lta_overlaps, rate_repeated, lta_expired, lta_dates_fixed, lta_not_draft,
  lta_terminated, ◌>>=◌, ◌>>◌, query, or_throw, throw_if, return, write, new_id, when,
}
use collmind_backend.Budget.Envelopes.{is_some}
use collmind_backend.Allocations.Service.{or_else, or_present}
use collmind_backend.Lta.Repository.{find_lta, find_lta_by_code, find_overlapping, save_lta}

pub record CreateLtaRateDto : Type 0 where
  pub channel : Text
  pub category : Text
  pub on_invoice_percentage : ℤ
  pub off_invoice_percentage : ℤ
  pub is_active : Option Bool

pub record CreateLtaAgreementDto : Type 0 where
  pub cpl_id : Uuid
  pub agreement_code : Text
  pub effective_date : ℕ
  pub expiry_date : Option ℕ
  pub rates : List CreateLtaRateDto

pub record UpdateLtaAgreementDto : Type 0 where
  pub agreement_code : Option Text
  pub effective_date : Option ℕ
  pub expiry_date : Option ℕ
  pub rates : Option (List CreateLtaRateDto)

-- `${rate.channel}:${rate.category}`.
abbrev pub rate_key : CreateLtaRateDto → Text
rate_key r = r.channel ++ (58 ∷ r.category)

-- Whether the loop of `validateRates` throws, with the keys that it has seen.
unfoldable pub has_repeated : List Text → List CreateLtaRateDto → Bool
has_repeated seen [] = false
has_repeated seen (r ∷ rates) =
    exists (text_eq (rate_key r)) seen || has_repeated (rate_key r ∷ seen) rates

-- `expiryDate && expiryDate <= effectiveDate`.
abbrev pub ends_by : Option ℕ → ℕ → Bool
ends_by none day = false
ends_by (some e) day = leb e day

abbrev pub any_lta : List LtaAgreement → Bool
any_lta [] = false
any_lta (a ∷ rows) = true

-- `!(await this.validateNoOverlappingAgreements(…))`, and the throw.
unfoldable pub refuse_overlapping : Uuid → Uuid → ℕ → Option ℕ → Option Uuid → Action (Unit {0})
refuse_overlapping tenant_id cpl_id effective expiry excluded = do
  overlapping ← query (find_overlapping tenant_id cpl_id effective expiry excluded)
  throw_if (any_lta overlapping) (Error.conflict lta_overlaps)

abbrev rate_from : Uuid → CreateLtaRateDto → Uuid → LtaRate
rate_from agreement_id r id = record {
  id = id;
  lta_agreement_id = agreement_id;
  channel = r.channel;
  category = r.category;
  on_invoice_percentage = r.on_invoice_percentage;
  off_invoice_percentage = r.off_invoice_percentage;
  is_active = or_else r.is_active true;
}

unfoldable pub create_rates : Uuid → List CreateLtaRateDto → Action (Unit {0})
create_rates agreement_id [] = return tt
create_rates agreement_id (r ∷ rates) = do
  id ← new_id
  write (λ db. record db { lta_rates = rate_from agreement_id r id ∷ db.lta_rates })
  create_rates agreement_id rates

abbrev pub lta_from : Uuid → CreateLtaAgreementDto → Uuid → LtaAgreement
lta_from tenant_id dto id = record {
  id = id;
  tenant_id = tenant_id;
  cpl_id = dto.cpl_id;
  agreement_code = dto.agreement_code;
  effective_date = dto.effective_date;
  expiry_date = dto.expiry_date;
  status = LtaAgreementStatus.draft;
  deleted = false;
}

-- The unique index on the tenant and the code, deleted rows included.
abbrev has_lta_code : Uuid → Text → LtaAgreement → Bool
has_lta_code tenant_id code a = (a.tenant_id == tenant_id) && text_eq a.agreement_code code

-- `createAgreement`, for the CPLs that the master data knows and the day of a time in the server's
-- calendar.
module _ (has_cpl : Uuid → Uuid → Bool) (today : ℕ → ℕ) where
  unfoldable pub create_lta : Uuid → CreateLtaAgreementDto → Action LtaAgreement
  create_lta tenant_id dto = do
    throw_if (not (has_cpl tenant_id dto.cpl_id)) (Error.not_found master_data_missing)
    existing ← query (find_lta_by_code tenant_id dto.agreement_code)
    throw_if (is_some existing) (Error.conflict lta_code_taken)
    day ← query (λ db. today db.now)
    throw_if (ltb dto.effective_date day) (Error.bad_request effective_date_past)
    throw_if (ends_by dto.expiry_date dto.effective_date) (Error.bad_request period_empty)
    refuse_overlapping tenant_id dto.cpl_id dto.effective_date dto.expiry_date none
    throw_if (has_repeated [] dto.rates) (Error.bad_request rate_repeated)
    taken ← query (λ db. exists (has_lta_code tenant_id dto.agreement_code) db.lta_agreements)
    throw_if taken (Error.plain duplicate_key)
    id ← new_id
    write (λ db. record db { lta_agreements = lta_from tenant_id dto id ∷ db.lta_agreements })
    create_rates id dto.rates
    return (lta_from tenant_id dto id)

-- `if (dto.agreementCode && dto.agreementCode !== agreement.agreementCode)`.
unfoldable pub check_code : Uuid → Option Text → Text → Action (Unit {0})
check_code tenant_id none old = return tt
check_code tenant_id (some []) old = return tt
check_code tenant_id (some (c ∷ code)) old = when (not (text_eq (c ∷ code) old)) (
    query (find_lta_by_code tenant_id (c ∷ code)) >>= λ existing.
    throw_if (is_some existing) (Error.conflict lta_code_taken))

-- `if (dto.effectiveDate || dto.expiryDate)`.
unfoldable pub check_lta_dates : Uuid → UpdateLtaAgreementDto → LtaAgreement → Action (Unit {0})
check_lta_dates tenant_id dto a =
    let effective = or_else dto.effective_date a.effective_date in
    let expiry = or_present dto.expiry_date a.expiry_date in
    when (is_some dto.effective_date || is_some dto.expiry_date) (
      throw_if (ends_by expiry effective) (Error.bad_request period_empty)
      >> refuse_overlapping tenant_id a.cpl_id effective expiry (some a.id))

abbrev pub updated_lta : UpdateLtaAgreementDto → LtaAgreement → LtaAgreement
updated_lta dto a = record a {
  agreement_code = or_else dto.agreement_code a.agreement_code;
  effective_date = or_else dto.effective_date a.effective_date;
  expiry_date = or_present dto.expiry_date a.expiry_date;
}

-- `if (dto.rates)`: the rates are replaced.
unfoldable pub replace_rates : Uuid → Option (List CreateLtaRateDto) → Action (Unit {0})
replace_rates id none = return tt
replace_rates id (some rates) = do
  throw_if (has_repeated [] rates) (Error.bad_request rate_repeated)
  write (λ db. record db { lta_rates = select (λ r. not (r.lta_agreement_id == id)) db.lta_rates })
  create_rates id rates

-- `updateAgreement`.
unfoldable pub update_lta : Uuid → Uuid → UpdateLtaAgreementDto → Action LtaAgreement
update_lta tenant_id id dto = do
  found ← query (find_lta tenant_id id)
  a ← or_throw (Error.not_found lta_not_found) found
  throw_if (same_lta_status a.status LtaAgreementStatus.expired) (Error.bad_request lta_expired)
  throw_if
      (same_lta_status a.status LtaAgreementStatus.active
        && (is_some dto.effective_date || is_some dto.expiry_date))
      (Error.bad_request lta_dates_fixed)
  check_code tenant_id dto.agreement_code a.agreement_code
  check_lta_dates tenant_id dto a
  replace_rates a.id dto.rates
  save_lta (updated_lta dto a)
  return (updated_lta dto a)

-- `activateAgreement`.
unfoldable pub activate_lta : Uuid → Uuid → Action (Unit {0})
activate_lta tenant_id id = do
  found ← query (find_lta tenant_id id)
  a ← or_throw (Error.not_found lta_not_found) found
  throw_if (not (same_lta_status a.status LtaAgreementStatus.draft))
      (Error.bad_request lta_not_draft)
  refuse_overlapping tenant_id a.cpl_id a.effective_date a.expiry_date (some a.id)
  save_lta (record a { status = LtaAgreementStatus.active })

-- `terminateAgreement`.
unfoldable pub terminate_lta : Uuid → Uuid → Action (Unit {0})
terminate_lta tenant_id id = do
  found ← query (find_lta tenant_id id)
  a ← or_throw (Error.not_found lta_not_found) found
  throw_if (same_lta_status a.status LtaAgreementStatus.terminated)
      (Error.bad_request lta_terminated)
  save_lta (record a { status = LtaAgreementStatus.terminated })
