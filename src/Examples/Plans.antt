-- ===== src/Examples/Plans.antt =====
-- A plan from its draft to its review.
use collmind_backend.Base.{
  leb_ℤ, ◌≡◌, refl, none, some, [], ◌∷◌, ◌⊎◌, false, true, pos, ◌+ℤ◌, text_eq, is_prefix, scale,
}
use collmind_backend.Entities.Budget.{Envelope}
use collmind_backend.Entities.Plan.{Plan, PlanStatus, same_status}
use collmind_backend.Db.{Db, Result}
use collmind_backend.Db.Ends.{Ends}
use collmind_backend.Budget.Repository.{find_transactions_by_source}
use collmind_backend.Budget.Repository.Summary.{insert_transaction}
use collmind_backend.Budget.Status.{get_budget_status, usage_status}
use collmind_backend.Budget.Service.{reserve_for_plan, existing_posting}
use collmind_backend.Budget.Service.Calls.{Covered}
use collmind_backend.Budget.Service.Plan.{commit_in, committed}
use collmind_backend.Approval.{create_request, find_by_entity_id}
use collmind_backend.Plans.Dto.{ReviewDecision, ReviewResult, SubmissionResult}
use collmind_backend.Plans.Repository.{find_plan, update_plan}
use collmind_backend.Plans.Spend.{
  calculate_spend_breakdown, add_fus, add_tactics, add_tactic, tactic_of, is_off_invoice,
  tactic_spend, includes, turnover_from,
}
use collmind_backend.Plans.Submission.{
  submit_for_approval, check_budget, tactic_errors, fu_errors, submit_valid, reserve_or_return,
  reserve_sides, reserve_side, create_history_entry,
}
use collmind_backend.Plans.Submission.Outcome.{submit_outcome, errors, Submitted, PutBack}
use collmind_backend.Plans.Submission.Sides.{off_invoice_side_dropped}
use collmind_backend.Plans.Review.{review_plan, is_reviewable, is_user, request_changes}
use collmind_backend.Plans.Review.Decision.{review_outcome, Reviewed}
use collmind_backend.Examples.Data.{
  tenant, planner, manager, channel, march, lira, draft_plan, shop, products, changes_wanted,
}

drafted : find_plan 60 tenant shop ≡ some draft_plan
unfolding find_plan
drafted = refl

submit_outcome_example :
    Ends
      (λ r db'.
        ((r.success ≡ false)
          × (r.validation_errors ≡ errors products 60 tenant planner none shop draft_plan)
          × (db' ≡ shop))
        ⊎ ((r.success ≡ true)
            × (same_status PlanStatus.draft PlanStatus.draft ≡ true)
            × (errors products 60 tenant planner none shop draft_plan ≡ [])
            × Submitted draft_plan tenant planner none (pos 200) (pos 100) shop db'))
      (λ e db'. (db' ≡ shop) ⊎ PutBack draft_plan tenant planner none (pos 200) (pos 100) shop db')
      (submit_for_approval products 60 tenant planner none shop)
unfolding submit_for_approval calculate_spend_breakdown check_budget get_budget_status tactic_errors
    fu_errors submit_valid create_request find_by_entity_id update_plan find_plan reserve_or_return
    reserve_sides reserve_side reserve_for_plan create_history_entry add_fus add_tactics add_tactic
    tactic_of is_off_invoice tactic_spend includes turnover_from usage_status scale text_eq
    is_prefix ◌+ℤ◌
submit_outcome_example = submit_outcome products 60 tenant planner none shop draft_plan drafted

nothing_committed : committed 60 tenant shop ≡ none
unfolding existing_posting find_transactions_by_source
nothing_committed = refl

off_invoice_side_dropped_example :
    Ends
      (λ _ db'.
        (e : Envelope) × Covered leb_ℤ tenant channel march (pos 200) e shop
        × (db' ≡ insert_transaction (commit_in 60 tenant e (pos 200) lira planner) shop))
      (λ e db'. db' ≡ shop)
      (reserve_sides leb_ℤ draft_plan tenant planner (pos 200, pos 100) shop)
off_invoice_side_dropped_example =
    off_invoice_side_dropped draft_plan tenant planner (pos 200) (pos 100) shop refl
      nothing_committed

abbrev submission : Result SubmissionResult × Db
submission = submit_for_approval products 60 tenant planner none shop

abbrev accepted : SubmissionResult
accepted = record {
  success = true;
  plan_id = 60;
  status = PlanStatus.pending_approval;
  budget_check = record {
    on_invoice = record { available = pos 900; requested = pos 200; sufficient = true };
    off_invoice = record { available = pos 900; requested = pos 100; sufficient = true };
    overall_sufficient = true;
  };
  validation_errors = [];
  red_warning = false;
  approval_request_id = some 100;
}

abbrev review : Result ReviewResult × Db
review = review_plan 60 tenant manager changes_wanted (submission.1)

abbrev sent_back : ReviewResult
sent_back = record { plan_id = 60; new_status = PlanStatus.draft }

abbrev pub pending : Plan
pending = record draft_plan {
  status = PlanStatus.pending_approval;
  submitted_by_id = some planner;
  approval_request_id = some 40;
}

abbrev pub pending_shop : Db
pending_shop = record shop { plans = pending ∷ [] }

pub queued : find_plan 60 tenant pending_shop ≡ some pending
unfolding find_plan
queued = refl

review_outcome_example :
    Ends
      (λ r db'.
        (is_reviewable PlanStatus.pending_approval ≡ true)
        × (is_user (some planner) manager ≡ false)
        × Reviewed pending tenant manager pending_shop ReviewDecision.request_changes changes_wanted
            r db')
      (λ e db'. find_plan 60 tenant db' ≡ some pending)
      (review_plan 60 tenant manager changes_wanted pending_shop)
review_outcome_example = review_outcome pending tenant manager pending_shop 60 changes_wanted queued
