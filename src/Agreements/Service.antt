-- ===== src/Agreements/Service.antt =====
-- agreement.service.ts: the life cycle of an agreement.
pub mod Outcome
pub mod Approve
pub mod Machine
pub mod Reservation
use collmind_backend.Base.{ℕ, Uuid, Text, codes, Bool, false, not, Option, none, some, List}
use collmind_backend.Entities.Budget.{Transaction, TxType, SourceType}
use collmind_backend.Entities.Approval.{RequestType}
use collmind_backend.Entities.Agreement.{
  Agreement, AgreementStatus, same_agreement_status, is_running,
}
use collmind_backend.Db.{
  Db, Action, Error, agreement_not_found, agreement_not_draft, agreement_not_pending,
  agreement_not_running, agreement_without_request, agreement_without_channel,
  budget_reservation_failed, budget_release_failed, ◌>>=◌, ◌>>◌, query, or_throw, throw_if, return,
  try_wrap,
}
use collmind_backend.Approval
use collmind_backend.Approval.{create_request, CreateRequestDto}
use collmind_backend.Budget.Service.{existing_posting, reserve_for_agreement, release_for_agreement}
use collmind_backend.Agreements.Repository.{
  find_agreement, find_agreement_by_code, find_all_agreements, update_status, soft_delete_agreement,
}

-- `findById`.
unfoldable pub get_agreement : Uuid → Uuid → Action Agreement
get_agreement id tenant_id = do
  found ← query (find_agreement id tenant_id)
  or_throw (Error.not_found agreement_not_found) found

-- `findByCode`.
pub get_agreement_by_code : Text → Uuid → Action Agreement
get_agreement_by_code code tenant_id = do
  found ← query (find_agreement_by_code code tenant_id false)
  or_throw (Error.not_found agreement_not_found) found

-- The filters of the service's `findAll`.
pub record ListFilters : Type 0 where
  pub status : Option AgreementStatus
  pub cpl_id : Option Uuid
  pub channel : Option Text

-- `findAll`: the repository looks for a `channelId`, which these filters do not have.
unfoldable pub list_agreements : Uuid → ListFilters → Db → List Agreement
list_agreements tenant_id filters =
    find_all_agreements tenant_id
      (record { status = filters.status; cpl_id = filters.cpl_id; channel_id = none })

-- `findPendingApprovals`.
unfoldable pub find_pending_approvals : Uuid → Db → List Agreement
find_pending_approvals tenant_id =
    find_all_agreements tenant_id
      (record { status = some AgreementStatus.pending; cpl_id = none; channel_id = none })

abbrev pub request_for : Agreement → CreateRequestDto
request_for a = record {
  request_type = RequestType.agreement;
  entity_type = codes "AGREEMENT";
  entity_id = a.id;
  approval_levels = none;
}

abbrev pub submitted_fields : Uuid → Uuid → Agreement → Agreement
submitted_fields request_id user_id a = record a {
  approval_request_id = some request_id;
  updated_by = some user_id;
}

-- `submit`.
unfoldable pub submit_agreement : Uuid → Uuid → Uuid → Action Agreement
submit_agreement id tenant_id user_id = do
  agreement ← get_agreement id tenant_id
  throw_if (not (same_agreement_status agreement.status AgreementStatus.draft))
      (Error.bad_request agreement_not_draft)
  request ← create_request (request_for agreement) tenant_id user_id
  update_status id tenant_id AgreementStatus.pending (submitted_fields request.id user_id)

-- The agreement is read again where its channel was not loaded.
unfoldable pub with_channel : Option Text → Agreement → Uuid → Action (Agreement × Text)
with_channel (some code) agreement tenant_id = return (agreement, code)
with_channel none agreement tenant_id = do
  found ← query (find_agreement agreement.id tenant_id)
  loaded ← or_throw (Error.bad_request agreement_without_channel) found
  code ← or_throw (Error.bad_request agreement_without_channel) loaded.channel_code
  return (loaded, code)

abbrev pub approved_fields : ℕ → Uuid → Agreement → Agreement
approved_fields now user_id a = record a {
  approved_at = some now;
  approved_by_id = some user_id;
  updated_by = some user_id;
}

-- `approve`: the budget is reserved before the request is approved.
unfoldable pub approve_agreement : Uuid → Uuid → Uuid → Option Text → Action Agreement
approve_agreement id tenant_id user_id comments = do
  agreement ← get_agreement id tenant_id
  throw_if (not (same_agreement_status agreement.status AgreementStatus.pending))
      (Error.bad_request agreement_not_pending)
  request_id ← or_throw (Error.bad_request agreement_without_request) agreement.approval_request_id
  (loaded, channel_code) ← with_channel agreement.channel_code agreement tenant_id
  try_wrap (λ r. Error.bad_request (budget_reservation_failed r))
      (reserve_for_agreement loaded.id loaded.cap_total_amount channel_code loaded.period_month
        loaded.currency tenant_id user_id)
  Approval.approve request_id tenant_id user_id comments
  now ← query (λ db. db.now)
  update_status id tenant_id AgreementStatus.approved (approved_fields now user_id)

abbrev pub rejected_fields : ℕ → Uuid → Text → Agreement → Agreement
rejected_fields now user_id reason a = record a {
  rejected_at = some now;
  rejected_by_id = some user_id;
  rejection_reason = some reason;
  updated_by = some user_id;
}

-- `reject`.
unfoldable pub reject_agreement : Uuid → Uuid → Uuid → Text → Action Agreement
reject_agreement id tenant_id user_id reason = do
  agreement ← get_agreement id tenant_id
  throw_if (not (same_agreement_status agreement.status AgreementStatus.pending))
      (Error.bad_request agreement_not_pending)
  request_id ← or_throw (Error.bad_request agreement_without_request) agreement.approval_request_id
  Approval.reject request_id tenant_id user_id reason
  now ← query (λ db. db.now)
  update_status id tenant_id AgreementStatus.rejected (rejected_fields now user_id reason)

abbrev pub cancelled_fields : Uuid → Agreement → Agreement
cancelled_fields user_id a = record a { updated_by = some user_id }

-- `if (reserveTx) { try { … } catch … }`; without a reservation the code only warns.
unfoldable pub release_reservation :
    Option Transaction → Agreement → Uuid → Uuid → Action (Unit {0})
release_reservation none agreement tenant_id user_id = return tt
release_reservation (some tx) agreement tenant_id user_id = do
  try_wrap (λ r. Error.bad_request (budget_release_failed r))
      (release_for_agreement agreement.id tx.envelope_id agreement.cap_total_amount
        agreement.currency tenant_id user_id)
  return tt

-- `cancel`; the reason that a caller may give is not read.
unfoldable pub cancel_agreement : Uuid → Uuid → Uuid → Action Agreement
cancel_agreement id tenant_id user_id = do
  agreement ← get_agreement id tenant_id
  throw_if (not (is_running agreement.status)) (Error.bad_request agreement_not_running)
  reserve_tx ← query (existing_posting tenant_id SourceType.agreement agreement.id TxType.reserve)
  release_reservation reserve_tx agreement tenant_id user_id
  update_status id tenant_id AgreementStatus.cancelled (cancelled_fields user_id)

-- `delete`.
unfoldable pub delete_agreement : Uuid → Uuid → Uuid → Action (Unit {0})
delete_agreement id tenant_id user_id = do
  agreement ← get_agreement id tenant_id
  throw_if (not (same_agreement_status agreement.status AgreementStatus.draft))
      (Error.bad_request agreement_not_draft)
  soft_delete_agreement id tenant_id
