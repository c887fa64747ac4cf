-- ===== src/Plans/Review/Outcome.antt =====
-- What a review leaves behind, on every way it ends.
use mathlib.Core.Path.{subst}
use collmind_backend.Base.{◌≡◌, ◌≢◌, refl, ap, ◌∙◌, true, Option, some, List, Uuid, Text, arith}
use collmind_backend.Entities.Approval.{ApprovalRequest}
use collmind_backend.Entities.Plan.{Plan, PlanStatus, same_status}
use collmind_backend.Db.{Db, or_throw}
use collmind_backend.Db.Ends.{Ends, returns, weaken, bind_rule, throw_if_rule, try_wrap_rule}
use collmind_backend.Budget.Service.Frame.{release_for_plan-Frame}
use collmind_backend.Approval.{approved_row, rejected_row}
use collmind_backend.Approval.Rows.{approve_outcome, reject_outcome}
use collmind_backend.Plans.Dto.{ReviewResult}
use collmind_backend.Plans.Repository.{find_plan}
use collmind_backend.Plans.Submission.{create_history_entry}
use collmind_backend.Budget.Repository.{text_at_most}
use collmind_backend.Plans.Submission.Frame.{find_plan-same, update_plan_rule, reserve_sides-Frame}
use collmind_backend.Plans.Review.{
  approve_plan, approved_plan, reject_plan, rejected_plan, request_changes, returned_plan,
  escalate_to_finance, escalated_plan,
}
use collmind_backend.Plans.Review.Request.{Closes, Closes-same, when_request_outcome}

module _ (plan : Plan) (tenant_id reviewer_id : Uuid) (db : Db) where
  abbrev NotReviewer : ApprovalRequest → Type 0
  NotReviewer r = r.requested_by_id ≢ reviewer_id

  -- The plan's row after a review, and the status that the review reports.
  abbrev Now : Plan → PlanStatus → ReviewResult → Db → Type 0
  Now row status r db' = (r.new_status ≡ status) × (find_plan plan.id tenant_id db' ≡ some row)

  abbrev Unchanged : Db → Type 0
  Unchanged db' = find_plan plan.id tenant_id db' ≡ some plan

  unchanged :
      find_plan plan.id tenant_id db ≡ some plan → (db' : Db) → db'.plans ≡ db.plans → Unchanged db'
  unchanged found db' same = find_plan-same plan.id tenant_id db db' same ∙ found

  abbrev pub Approved : Option Text → ReviewResult → Db → Type 0
  Approved comments r db' =
      Now (approved_plan db.now reviewer_id plan) PlanStatus.approved r db'
      × Closes tenant_id NotReviewer (approved_row reviewer_id db.now comments)
          plan.approval_request_id db db'

  pub approve_plan_outcome :
      (found : find_plan plan.id tenant_id db ≡ some plan) (comments : Option Text)
      → Ends
          (Approved comments)
          (λ e db'. Unchanged db')
          (approve_plan plan tenant_id reviewer_id comments db)
  unfolding approve_plan create_history_entry
  approve_plan_outcome found comments = try_wrap_rule _ _ _ _ (
      weaken
        (λ _ d1 f. bind_rule _ (
          weaken
            (λ _ d2 (plans, now, closes).
              update_plan_rule _ plan.id tenant_id (approved_plan d2.now reviewer_id) d2 plan
                (λ p. (refl, refl, refl)) (unchanged found d2 (plans ∙ f.plans))
                (λ written. returns (
                  (
                    refl,
                    find_plan-same plan.id tenant_id _ _ refl
                        ∙ written
                        ∙ ap (λ n. some (approved_plan n reviewer_id plan)) (now ∙ f.now),
                  ),
                  Closes-same tenant_id NotReviewer (approved_row reviewer_id db.now comments)
                      plan.approval_request_id db d1 d2 _ f.requests refl
                      (subst
                        (λ n.
                          Closes tenant_id NotReviewer (approved_row reviewer_id n comments)
                            plan.approval_request_id d1 d2)
                        f.now closes),
                )))
            (λ e d2 same. unchanged found d2 (ap (λ d. d.plans) same ∙ f.plans))
            (when_request_outcome tenant_id NotReviewer (approved_row reviewer_id d1.now comments)
              plan.approval_request_id _ d1
              (λ id. approve_outcome id tenant_id d1 reviewer_id comments))))
        (λ e d1 f. unchanged found d1 f.plans)
        (reserve_sides-Frame text_at_most plan tenant_id reviewer_id plan.on_invoice_spend
          plan.off_invoice_spend db))

  abbrev pub Rejected : Text → ReviewResult → Db → Type 0
  Rejected reason r db' =
      Now (rejected_plan db.now reviewer_id reason plan) PlanStatus.rejected r db'
      × Closes tenant_id NotReviewer (rejected_row reviewer_id db.now reason)
          plan.approval_request_id db db'

  pub reject_plan_outcome :
      (found : find_plan plan.id tenant_id db ≡ some plan) (reason : Text) (comments : Option Text)
      → Ends
          (Rejected reason)
          (λ e db'. Unchanged db')
          (reject_plan plan tenant_id reviewer_id reason comments db)
  unfolding reject_plan create_history_entry
  reject_plan_outcome found reason comments = bind_rule _ (
      weaken
        (λ _ d1 f. bind_rule _ (
          weaken
            (λ _ d2 (plans, now, closes).
              update_plan_rule _ plan.id tenant_id (rejected_plan d2.now reviewer_id reason) d2 plan
                (λ p. (refl, refl, refl)) (unchanged found d2 (plans ∙ f.plans))
                (λ written. returns (
                  (
                    refl,
                    find_plan-same plan.id tenant_id _ _ refl
                        ∙ written
                        ∙ ap (λ n. some (rejected_plan n reviewer_id reason plan)) (now ∙ f.now),
                  ),
                  Closes-same tenant_id NotReviewer (rejected_row reviewer_id db.now reason)
                      plan.approval_request_id db d1 d2 _ f.requests refl
                      (subst
                        (λ n.
                          Closes tenant_id NotReviewer (rejected_row reviewer_id n reason)
                            plan.approval_request_id d1 d2)
                        f.now closes),
                )))
            (λ e d2 same. unchanged found d2 (ap (λ d. d.plans) same ∙ f.plans))
            (when_request_outcome tenant_id NotReviewer (rejected_row reviewer_id d1.now reason)
              plan.approval_request_id _ d1
              (λ id. reject_outcome id tenant_id d1 reviewer_id reason))))
        (λ e d1 f. unchanged found d1 f.plans) (release_for_plan-Frame plan.id tenant_id db))

  -- The plan is in draft again; its request is not touched.
  abbrev pub Returned : Text → ReviewResult → Db → Type 0
  Returned comments r db' =
      Now (returned_plan reviewer_id comments plan) PlanStatus.draft r db'
      × (db'.requests ≡ db.requests)

  pub request_changes_outcome :
      (found : find_plan plan.id tenant_id db ≡ some plan) (comments : Text)
      (changes : Option (List Text))
      → Ends
          (Returned comments)
          (λ e db'. Unchanged db')
          (request_changes plan tenant_id reviewer_id comments changes db)
  unfolding request_changes create_history_entry
  request_changes_outcome found comments changes = bind_rule _ (
      weaken
        (λ _ d1 f.
          update_plan_rule _ plan.id tenant_id (returned_plan reviewer_id comments) d1 plan
            (λ p. (refl, refl, refl)) (unchanged found d1 f.plans)
            (λ written.
              returns ((refl, find_plan-same plan.id tenant_id _ _ refl ∙ written), f.requests)))
        (λ e d1 f. unchanged found d1 f.plans) (release_for_plan-Frame plan.id tenant_id db))

  abbrev pub Escalated : Text → Option Text → Db → Type 0
  Escalated reason comments db' =
      (find_plan plan.id tenant_id db'
        ≡ some (escalated_plan db.now reviewer_id reason comments plan))
      × (db'.requests ≡ db.requests)

  pub escalate_outcome :
      (found : find_plan plan.id tenant_id db ≡ some plan) (reason : Text) (comments : Option Text)
      → Ends
          (λ _ db'.
            (same_status plan.status PlanStatus.pending_approval ≡ true)
            × Escalated reason comments db')
          (λ e db'. db' ≡ db)
          (escalate_to_finance plan.id tenant_id reviewer_id reason comments db)
  unfolding escalate_to_finance create_history_entry or_throw
  escalate_outcome found reason comments = rw found (
      throw_if_rule _ _ _ _ (λ other. refl)
        λ pending.
          update_plan_rule _ plan.id tenant_id (escalated_plan db.now reviewer_id reason comments)
            db plan (λ p. (refl, refl, refl)) found
            (λ written.
              returns (ground arith, (find_plan-same plan.id tenant_id _ _ refl ∙ written, refl))))
