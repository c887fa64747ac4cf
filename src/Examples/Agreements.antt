-- ===== src/Examples/Agreements.antt =====
-- Agreements, their reservations and the runs of their life cycle.
use collmind_backend.Base.{
  every, true, ◌≡◌, refl, codes, none, some, false, List, [], ◌∷◌, Uuid, pos, ◌-ℤ◌, ◌+ℤ◌, ◌+◌, ◌≤◌,
  text_eq, is_prefix,
}
use collmind_backend.Entities.Budget.{Envelope, Transaction, key_eq}
use collmind_backend.Entities.Approval.{ApprovalRequest, LevelStatus}
use collmind_backend.Entities.Agreement.{Agreement, AgreementType, AgreementStatus}
use collmind_backend.Db.{Db, Error, ok, err, own_request, or_throw, throw_if, try_wrap}
use collmind_backend.Db.Ends.{Ends}
use collmind_backend.Approval
use collmind_backend.Approval.{
  new_level, approved_row, rejected_row, find_request, find_by_id, update_request,
}
use collmind_backend.Approval.Rows.{with_row}
use collmind_backend.Agreements.Codes.{show}
use collmind_backend.Budget.Repository.{
  text_at_most, decimal_text, available_amount, check_budget_availability, get_budget_summary,
  reserved_amount, consumed_amount, sum_where, create_transaction,
  find_transaction_by_idempotency_key, find_envelope_by_dimensions, dimensions_match, rank,
  find_transactions_by_source,
}
use collmind_backend.Budget.Repository.Summary.{insert_transaction, stored}
use collmind_backend.Budget.Service.{
  reserve_for_agreement, envelope_with_budget, existing_posting, unless_existing, post_reservation,
}
use collmind_backend.Budget.Service.Frame.{Frame}
use collmind_backend.Agreements.Repository.{
  find_agreement, with_agreement, update_agreement, update_status,
}
use collmind_backend.Agreements.Service.{
  get_agreement, approve_agreement, approved_fields, reject_agreement, rejected_fields,
  cancel_agreement, with_channel,
}
use collmind_backend.Agreements.Service.Outcome.{moved}
use collmind_backend.Agreements.Service.Approve.{ApprovedAt, approve_agreement_outcome}
use collmind_backend.Agreements.Service.Machine.{
  is_of, Operation, Command, call, Refines, call-Refines, stage_of,
}
use collmind_backend.Agreements.Service.Machine.Runs.{run, passed, age, calls_bounded}
use collmind_backend.Agreements.Service.Reservation.{wanted, NoReservation, refused_approval_leaks}
use collmind_backend.Agreements.Service.Reservation.Return.{approve-cancel_restores}
use collmind_backend.Examples.Data.{
  tenant, planner, manager, director, channel, march, lira, budget, two_levels, shop,
}

abbrev pub pact : Agreement
pact = record {
  id = 50;
  tenant_id = tenant;
  agreement_code = codes "STA-2025-001";
  agreement_type = AgreementType.sta;
  cpl_id = 61;
  channel_id = 62;
  channel_code = some channel;
  fu_id = 80;
  tactic_id = 83;
  mechanic_id = 84;
  cap_total_amount = pos 400;
  currency = lira;
  start_date = 1000;
  end_date = 9000;
  period_month = march;
  status = AgreementStatus.pending;
  approval_request_id = some 42;
  approved_at = none;
  approved_by_id = none;
  rejected_at = none;
  rejected_by_id = none;
  rejection_reason = none;
  updated_by = none;
  deleted = false;
}

abbrev pub pact_request : ApprovalRequest
pact_request = record two_levels {
  id = 42;
  approval_levels = new_level 1 (codes "APPROVER") none LevelStatus.pending ∷ [];
}

abbrev pub pact_shop : Db
pact_shop = record shop { requests = pact_request ∷ []; agreements = pact ∷ [] }

pub pact_found : find_agreement 50 tenant pact_shop ≡ some pact
unfolding find_agreement
pact_found = refl

abbrev approval : Command
approval = record {
  operation = Operation.approve;
  id = 50;
  tenant_id = tenant;
  user_id = manager;
  comments = none;
  reason = [];
}

abbrev calls : List Command
calls =
    record approval { user_id = planner }
    ∷ approval
    ∷ record approval { operation = Operation.cancel }
    ∷ approval
    ∷ []

call-Refines_example : Refines Operation.approve approval pact_shop (call approval pact_shop)
call-Refines_example = call-Refines approval pact_shop

calls_bounded_example : age (stage_of 50 tenant pact_shop) + passed 50 tenant calls pact_shop ≤ 3
calls_bounded_example = calls_bounded 50 tenant calls pact_shop

approve_agreement_outcome_example :
    Ends
      (ApprovedAt 50 tenant manager pact_shop pact 5 none)
      (λ e db'. Frame pact_shop db')
      (approve_agreement 50 tenant manager none pact_shop)
approve_agreement_outcome_example =
    approve_agreement_outcome 50 tenant manager pact_shop pact none pact_found

-- The reservation that a user's approval posts.
abbrev reserved_by : Uuid → Db
reserved_by user =
    insert_transaction (wanted 50 tenant pact channel pact_shop user budget) pact_shop

abbrev pub approved_shop : Db
approved_shop =
    with_agreement 50 tenant (moved AgreementStatus.approved (approved_fields 5 manager))
      (with_row 42 tenant (approved_row manager 5 none pact_request) (reserved_by manager))

abbrev pub approved_pact : Agreement
approved_pact = moved AgreementStatus.approved (approved_fields 5 manager) pact

pub no_reservation : NoReservation 50 tenant pact_shop
unfolding existing_posting find_transactions_by_source find_transaction_by_idempotency_key
no_reservation = (refl, refl)

pub approves :
    approve_agreement 50 tenant manager none pact_shop ≡ (ok approved_pact, approved_shop)
unfolding approve_agreement get_agreement with_channel try_wrap Approval.approve find_by_id
    update_request find_request find_agreement update_agreement update_status approved_row
    reserve_for_agreement text_at_most decimal_text show post_reservation check_budget_availability
    get_budget_summary available_amount reserved_amount consumed_amount sum_where ◌-ℤ◌ ◌+ℤ◌ or_throw
    throw_if create_transaction find_transaction_by_idempotency_key key_eq envelope_with_budget
    find_envelope_by_dimensions dimensions_match rank text_eq is_prefix existing_posting
    find_transactions_by_source unless_existing
approves = refl

approve-cancel_restores_example :
    (a2 : Agreement) × (d2 : Db) × (cancel_agreement 50 tenant director approved_shop ≡ (ok a2, d2))
    × (a2.status ≡ AgreementStatus.cancelled)
    × ((f : Envelope) → available_amount f d2 ≡ available_amount f pact_shop)
approve-cancel_restores_example =
    approve-cancel_restores 50 tenant manager director none pact approved_pact pact_shop
      approved_shop pact_found no_reservation (λ envelope_id. refl) approves

requested : find_request 42 tenant pact_shop ≡ some pact_request
unfolding find_request
requested = refl

abbrev own : Transaction
own = stored (wanted 50 tenant pact channel pact_shop planner budget) pact_shop

reserves :
    reserve_for_agreement 50 (pos 400) channel march lira tenant planner pact_shop
    ≡ (ok own, reserved_by planner)
unfolding reserve_for_agreement text_at_most decimal_text show post_reservation
    check_budget_availability get_budget_summary available_amount reserved_amount consumed_amount
    sum_where ◌-ℤ◌ ◌+ℤ◌ or_throw throw_if create_transaction find_transaction_by_idempotency_key
    key_eq envelope_with_budget find_envelope_by_dimensions dimensions_match rank text_eq is_prefix
    existing_posting find_transactions_by_source unless_existing
reserves = refl

abbrev refusal : Agreement → Agreement
refusal = moved AgreementStatus.rejected (rejected_fields 5 manager (codes "no"))

abbrev refused_shop : Db
refused_shop =
    with_agreement 50 tenant refusal
      (with_row 42 tenant (rejected_row manager 5 (codes "no") pact_request) (reserved_by planner))

rejects :
    reject_agreement 50 tenant manager (codes "no") (reserved_by planner)
    ≡ (ok (refusal pact), refused_shop)
unfolding reject_agreement get_agreement Approval.reject find_by_id update_request find_request
    find_agreement update_agreement update_status rejected_row or_throw throw_if
rejects = refl

refused_approval_leaks_example :
    (approve_agreement 50 tenant planner none pact_shop
      ≡ (err (Error.forbidden own_request), reserved_by planner))
    × (available_amount budget refused_shop ≡ available_amount budget pact_shop -ℤ pos 400)
    × ((cs : List Command)
        → stage_of 50 tenant (run cs refused_shop) ≡ some AgreementStatus.rejected)
    × ((cs : List Command)
        → every (is_of 50 tenant) cs ≡ true
        → available_amount budget (run cs refused_shop)
          ≡ available_amount budget pact_shop -ℤ pos 400)
refused_approval_leaks_example =
    refused_approval_leaks 50 tenant pact channel pact_shop pact_request none own
      (reserved_by planner) manager (codes "no") (refusal pact) refused_shop budget pact_found refl
      refl refl requested refl no_reservation reserves rejects refl
