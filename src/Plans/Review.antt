-- ===== src/Plans/Review.antt =====
-- approval-workflow.service.ts: the review of a submitted plan.
pub mod Request
pub mod Outcome
pub mod Decision
pub mod Returned
use collmind_backend.Base.{ℕ, Uuid, Text, Bool, true, false, not, Option, none, some, List, ◌==◌}
use collmind_backend.Entities.Approval.{ApprovalRequest}
use collmind_backend.Entities.Plan.{Plan, PlanStatus, same_status, HistoryAction}
use collmind_backend.Db.{
  Action, Error, Reason, plan_not_found, plan_not_pending, plan_not_reviewable, own_submission,
  rejection_reason_required, comments_required, escalation_reason_required, budget_commit_failed,
  ◌>>=◌, ◌>>◌, query, or_throw, throw_if, return, try_wrap,
}
use collmind_backend.Approval
use collmind_backend.Approval.{nonempty, or_keep, create_request, CreateRequestDto}
use collmind_backend.Budget.Service.{release_for_plan}
use collmind_backend.Plans.Repository.{find_plan, update_plan}
use collmind_backend.Plans.Dto.{ReviewResult, ReviewDecision, ReviewDto}
use collmind_backend.Budget.Repository.{text_at_most}
use collmind_backend.Plans.Submission.{create_history_entry, reserve_sides}

abbrev reviewed : Plan → PlanStatus → ReviewResult
reviewed plan status = record { plan_id = plan.id; new_status = status }

-- `if (plan.approvalRequestId) { m }`.
unfoldable pub when_request : Option Uuid → (Uuid → Action ApprovalRequest) → Action (Unit {0})
when_request none m = return tt
when_request (some id) m = m id >> return tt

abbrev pub approved_plan : ℕ → Uuid → Plan → Plan
approved_plan now approver_id p = record p {
  status = PlanStatus.approved;
  approved_at = some now;
  approved_by_id = some approver_id;
  updated_by = some approver_id;
}

-- `approvePlan`.
unfoldable pub approve_plan : Plan → Uuid → Uuid → Option Text → Action ReviewResult
approve_plan plan tenant_id approver_id comments = do
  try_wrap (λ r. Error.bad_request (budget_commit_failed r))
      (reserve_sides text_at_most plan tenant_id approver_id
        (plan.on_invoice_spend, plan.off_invoice_spend))
  when_request plan.approval_request_id (λ id. Approval.approve id tenant_id approver_id comments)
  now ← query (λ db. db.now)
  update_plan plan.id tenant_id (approved_plan now approver_id)
  create_history_entry plan.id tenant_id approver_id HistoryAction.approved comments none none none
  return (reviewed plan PlanStatus.approved)

abbrev pub rejected_plan : ℕ → Uuid → Text → Plan → Plan
rejected_plan now rejector_id reason p = record p {
  status = PlanStatus.rejected;
  rejected_at = some now;
  rejected_by_id = some rejector_id;
  rejection_reason = some reason;
  updated_by = some rejector_id;
}

-- `rejectPlan`.
unfoldable pub reject_plan : Plan → Uuid → Uuid → Text → Option Text → Action ReviewResult
reject_plan plan tenant_id rejector_id reason comments = do
  release_for_plan plan.id tenant_id
  when_request plan.approval_request_id (λ id. Approval.reject id tenant_id rejector_id reason)
  now ← query (λ db. db.now)
  update_plan plan.id tenant_id (rejected_plan now rejector_id reason)
  create_history_entry plan.id tenant_id rejector_id HistoryAction.rejected comments (some reason)
      none none
  return (reviewed plan PlanStatus.rejected)

abbrev pub returned_plan : Uuid → Text → Plan → Plan
returned_plan reviewer_id comments p = record p {
  status = PlanStatus.draft;
  comments = some comments;
  updated_by = some reviewer_id;
}

-- `requestChanges`.
unfoldable pub request_changes :
    Plan → Uuid → Uuid → Text → Option (List Text) → Action ReviewResult
request_changes plan tenant_id reviewer_id comments changes = do
  release_for_plan plan.id tenant_id
  update_plan plan.id tenant_id (returned_plan reviewer_id comments)
  create_history_entry plan.id tenant_id reviewer_id HistoryAction.request_changes (some comments)
      none changes none
  return (reviewed plan PlanStatus.draft)

abbrev pub escalated_plan : ℕ → Uuid → Text → Option Text → Plan → Plan
escalated_plan now user_id reason comments p = record p {
  status = PlanStatus.pending_finance_review;
  pending_finance_review = true;
  escalation_reason = some reason;
  escalated_at = some now;
  escalated_by_id = some user_id;
  comments = or_keep comments p.comments;
  updated_by = some user_id;
}

unfoldable pub escalate_to_finance : Uuid → Uuid → Uuid → Text → Option Text → Action (Unit {0})
escalate_to_finance plan_id tenant_id user_id reason comments = do
  found ← query (find_plan plan_id tenant_id)
  plan ← or_throw (Error.not_found plan_not_found) found
  throw_if (not (same_status plan.status PlanStatus.pending_approval))
      (Error.bad_request plan_not_pending)
  now ← query (λ db. db.now)
  update_plan plan.id tenant_id (escalated_plan now user_id reason comments)
  create_history_entry plan.id tenant_id user_id HistoryAction.escalated comments none none
      (some reason)

-- `if (!text) throw e`.
abbrev pub required : Option Text → Reason → Action Text
required t r = or_throw (Error.bad_request r) (nonempty t)

unfoldable pub decide : ReviewDecision → ReviewDto → Plan → Uuid → Uuid → Action ReviewResult
decide ReviewDecision.approve dto plan tenant_id reviewer_id =
    approve_plan plan tenant_id reviewer_id dto.comments
decide ReviewDecision.reject dto plan tenant_id reviewer_id = do
  reason ← required dto.rejection_reason rejection_reason_required
  reject_plan plan tenant_id reviewer_id reason dto.comments
decide ReviewDecision.request_changes dto plan tenant_id reviewer_id = do
  comments ← required dto.comments comments_required
  request_changes plan tenant_id reviewer_id comments dto.specific_changes
decide ReviewDecision.escalate dto plan tenant_id reviewer_id = do
  reason ← required dto.escalation_reason escalation_reason_required
  escalate_to_finance plan.id tenant_id reviewer_id reason dto.comments
  return (reviewed plan PlanStatus.pending_finance_review)

abbrev pub is_reviewable : PlanStatus → Bool
is_reviewable PlanStatus.pending_approval = true
is_reviewable PlanStatus.pending_finance_review = true
is_reviewable _ = false

-- `a === b` where the first may be undefined.
abbrev pub is_user : Option Uuid → Uuid → Bool
is_user none b = false
is_user (some a) b = a == b

unfoldable pub review_plan : Uuid → Uuid → Uuid → ReviewDto → Action ReviewResult
review_plan plan_id tenant_id reviewer_id dto = do
  found ← query (find_plan plan_id tenant_id)
  plan ← or_throw (Error.not_found plan_not_found) found
  throw_if (not (is_reviewable plan.status)) (Error.bad_request plan_not_reviewable)
  throw_if (is_user plan.submitted_by_id reviewer_id) (Error.forbidden own_submission)
  decide dto.decision dto plan tenant_id reviewer_id
