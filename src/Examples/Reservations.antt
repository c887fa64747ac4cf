-- ===== src/Examples/Reservations.antt =====
-- Reservations for agreements and plans.
use collmind_backend.Base.{leb_ℤ, ◌≡◌, refl, none, some, pos, ◌-ℤ◌, ◌+ℤ◌, if◌then◌else◌, ◌==◌}
use collmind_backend.Entities.Budget.{Envelope, Transaction, TxType, SourceType}
use collmind_backend.Db.{Db, ok}
use collmind_backend.Agreements.Codes.{show}
use collmind_backend.Budget.Repository.{
  text_at_most, decimal_text, available_amount, reserved_amount,
}
use collmind_backend.Budget.Repository.Summary.{insert_transaction, stored}
use collmind_backend.Budget.Service.{
  reserve_for_agreement, release_for_agreement, reserve_for_plan, release_for_plan, key,
}
use collmind_backend.Budget.Service.Agreement.{
  reservation_in, earlier, reserve_for_agreement_idempotent, reserve-release_restores,
}
use collmind_backend.Budget.Service.Plan.{commit_in}
use collmind_backend.Budget.Service.Overshoot.{release_for_plan_overshoots}
use collmind_backend.Examples.Data.{
  tenant, planner, manager, agreement, channel, march, lira, budget, shop,
}
use collmind_backend.Db.{or_throw, throw_if}
use collmind_backend.Base.{text_eq, is_prefix}
use collmind_backend.Entities.Budget.{key_eq}
use collmind_backend.Budget.Repository.{
  check_budget_availability, get_budget_summary, consumed_amount, sum_where, create_transaction,
  find_transaction_by_idempotency_key, find_envelope_by_dimensions, dimensions_match, rank,
  find_transactions_by_source,
}
use collmind_backend.Budget.Service.{
  posting, envelope_with_budget, existing_posting, unless_existing, post_reservation,
  release_commits, release_commit,
}
use collmind_backend.Budget.Service.Agreement.{earlier_by_key}
use collmind_backend.Budget.Service.Plan.{committed}

abbrev agreed : Transaction
agreed = reservation_in agreement (pos 300) channel march lira tenant planner budget

abbrev after_agreement : Db
after_agreement = insert_transaction agreed shop

reserved_for_agreement :
    reserve_for_agreement agreement (pos 300) channel march lira tenant planner shop
    ≡ (ok (stored agreed shop), after_agreement)
unfolding reserve_for_agreement text_at_most decimal_text show post_reservation
    check_budget_availability get_budget_summary available_amount reserved_amount consumed_amount
    sum_where ◌-ℤ◌ ◌+ℤ◌ or_throw throw_if create_transaction find_transaction_by_idempotency_key
    key_eq envelope_with_budget find_envelope_by_dimensions dimensions_match rank text_eq is_prefix
    existing_posting find_transactions_by_source unless_existing
reserved_for_agreement = refl

nothing_by_key : earlier_by_key agreement (pos 300) channel march lira tenant planner shop ≡ none
unfolding find_transaction_by_idempotency_key
nothing_by_key = refl

nothing_earlier : earlier agreement (pos 300) channel march lira tenant planner shop ≡ none
unfolding existing_posting find_transactions_by_source
nothing_earlier = refl

reserve_for_agreement_idempotent_example :
    (t : Transaction) × (reserve_for_agreement agreement
        (pos 500)
        channel
        march
        lira
        tenant
        manager
        after_agreement
      ≡ (ok t, after_agreement))
    × (earlier agreement (pos 300) channel march lira tenant planner after_agreement ≡ some t)
reserve_for_agreement_idempotent_example =
    reserve_for_agreement_idempotent agreement (pos 300) channel march lira tenant planner shop
      after_agreement (stored agreed shop) (pos 500) channel march lira manager
      (λ first. nothing_by_key) reserved_for_agreement

reserve-release_restores_example :
    (t : Transaction) × (db' : Db) × (release_for_agreement agreement 1
        (pos 300)
        lira
        tenant
        planner
        after_agreement
      ≡ (ok t, db'))
    × ((f : Envelope) → available_amount f db' ≡ available_amount f shop)
reserve-release_restores_example =
    reserve-release_restores agreement (pos 300) channel march lira tenant planner shop
      after_agreement (stored agreed shop) planner nothing_earlier nothing_by_key
      (λ envelope_id. refl) reserved_for_agreement

abbrev planned : Transaction
planned = commit_in 60 tenant budget (pos 300) lira planner

abbrev after_plan : Db
after_plan = insert_transaction planned shop

reserved_for_plan :
    reserve_for_plan leb_ℤ 60 (pos 300) channel march lira tenant planner shop
    ≡ (ok (stored planned shop), after_plan)
unfolding reserve_for_plan check_budget_availability get_budget_summary available_amount
    reserved_amount consumed_amount sum_where ◌-ℤ◌ ◌+ℤ◌ or_throw throw_if create_transaction
    find_transaction_by_idempotency_key key_eq envelope_with_budget find_envelope_by_dimensions
    dimensions_match rank text_eq is_prefix existing_posting find_transactions_by_source
    unless_existing
reserved_for_plan = refl

nothing_committed : committed 60 tenant shop ≡ none
unfolding existing_posting find_transactions_by_source
nothing_committed = refl

release_for_plan_overshoots_example :
    (db' : Db) × (release_for_plan 60 tenant after_plan ≡ (ok tt, db'))
    × ((f : Envelope)
        → available_amount f db'
          ≡ (if 1 == f.id then available_amount f shop +ℤ pos 300 else available_amount f shop))
release_for_plan_overshoots_example =
    release_for_plan_overshoots 60 tenant leb_ℤ (pos 300) channel march lira planner shop after_plan
      (stored planned shop) nothing_committed (λ envelope_id. refl) reserved_for_plan

abbrev returned_commit : Transaction
returned_commit =
    posting tenant 1 TxType.release SourceType.plan 60 (pos 300) lira
      (key TxType.release SourceType.plan 60 (some 1)) none

released_plan :
    release_for_plan 60 tenant after_plan ≡ (ok tt, insert_transaction returned_commit after_plan)
unfolding release_for_plan release_commits release_commit check_budget_availability
    get_budget_summary available_amount reserved_amount consumed_amount sum_where ◌-ℤ◌ ◌+ℤ◌ or_throw
    throw_if create_transaction find_transaction_by_idempotency_key key_eq envelope_with_budget
    find_envelope_by_dimensions dimensions_match rank text_eq is_prefix existing_posting
    find_transactions_by_source unless_existing
released_plan = refl
