-- ===== src/Plans/Review/Decision.antt =====
-- The review as a whole: the guards, the four decisions, and the road back to draft.
use collmind_backend.Base.{◌≡◌, refl, ap, ◌∙◌, true, false, some, Uuid, Text, arith}
use collmind_backend.Entities.Plan.{Plan, PlanStatus, same_status}
use collmind_backend.Db.{Db, or_throw}
use collmind_backend.Db.Ends.{Ends, returns, weaken, bind_rule, or_throw_rule, throw_if_rule}
use collmind_backend.Approval.{nonempty}
use collmind_backend.Plans.Dto.{ReviewResult, ReviewDecision, ReviewDto}
use collmind_backend.Plans.Repository.{find_plan}
use collmind_backend.Plans.Submission.Frame.{found_self}
use collmind_backend.Plans.Review.{decide, is_reviewable, is_user, review_plan}
use collmind_backend.Plans.Review.Outcome.{
  Approved, Rejected, Returned, Escalated, approve_plan_outcome, reject_plan_outcome,
  request_changes_outcome, escalate_outcome,
}

module _ (plan : Plan) (tenant_id reviewer_id : Uuid) (db : Db) where
  -- What each decision leaves behind; a rejection, a request for changes and an escalation have a
  -- text that is not empty.
  abbrev pub Reviewed : ReviewDecision → ReviewDto → ReviewResult → Db → Type 0
  Reviewed ReviewDecision.approve dto r db' =
      Approved plan tenant_id reviewer_id db dto.comments r db'
  Reviewed ReviewDecision.reject dto r db' =
      (reason : Text) × (nonempty dto.rejection_reason ≡ some reason)
      × Rejected plan tenant_id reviewer_id db reason r db'
  Reviewed ReviewDecision.request_changes dto r db' =
      (comments : Text) × (nonempty dto.comments ≡ some comments)
      × Returned plan tenant_id reviewer_id db comments r db'
  Reviewed ReviewDecision.escalate dto r db' =
      (reason : Text) × (nonempty dto.escalation_reason ≡ some reason)
      × (same_status plan.status PlanStatus.pending_approval ≡ true)
      × (r.new_status ≡ PlanStatus.pending_finance_review)
      × Escalated plan tenant_id reviewer_id db reason dto.comments db'

  decide_outcome :
      (found : find_plan plan.id tenant_id db ≡ some plan) (d : ReviewDecision) (dto : ReviewDto)
      → Ends
          (Reviewed d dto)
          (λ e db'. find_plan plan.id tenant_id db' ≡ some plan)
          (decide d dto plan tenant_id reviewer_id db)
  unfolding decide
  decide_outcome found ReviewDecision.approve dto =
      approve_plan_outcome plan tenant_id reviewer_id db found dto.comments
  decide_outcome found ReviewDecision.reject dto =
      or_throw_rule _ _ _ _ (λ missing. found)
        λ reason given.
          weaken (λ r db' done. (reason, given, done)) (λ e db' same. same)
            (reject_plan_outcome plan tenant_id reviewer_id db found reason dto.comments)
  decide_outcome found ReviewDecision.request_changes dto =
      or_throw_rule _ _ _ _ (λ missing. found)
        λ comments given.
          weaken (λ r db' done. (comments, given, done)) (λ e db' same. same)
            (request_changes_outcome plan tenant_id reviewer_id db found comments
              dto.specific_changes)
  decide_outcome found ReviewDecision.escalate dto =
      or_throw_rule _ _ _ _ (λ missing. found)
        λ reason given. bind_rule _ (
          weaken (λ _ db' (pending, done). returns (reason, given, pending, refl, done))
            (λ e db' same. ap (find_plan plan.id tenant_id) same ∙ found)
            (escalate_outcome plan tenant_id reviewer_id db found reason dto.comments))

  -- A review of the plan that a tenant has under an id either returns, and then the plan was open
  -- for review, the reviewer has not submitted it, and the plan, its request and the result are
  -- what the decision makes of them; or it throws, and the plan's row is as it was.
  pub review_outcome :
      (plan_id : Uuid) (dto : ReviewDto)
      → find_plan plan_id tenant_id db ≡ some plan
      → Ends
          (λ r db'.
            (is_reviewable plan.status ≡ true)
            × (is_user plan.submitted_by_id reviewer_id ≡ false)
            × Reviewed dto.decision dto r db')
          (λ e db'. find_plan plan.id tenant_id db' ≡ some plan)
          (review_plan plan_id tenant_id reviewer_id dto db)
  unfolding review_plan or_throw
  review_outcome plan_id dto found =
      let here = found_self plan_id tenant_id db found in
      rw found (
        throw_if_rule _ _ _ _ (λ closed. here)
          λ open_plan.
            throw_if_rule _ _ _ _ (λ own. here)
              λ other.
                weaken (λ r db' done. (ground arith, other, done)) (λ e db' same. same)
                  (decide_outcome here dto.decision dto))
