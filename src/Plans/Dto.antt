-- ===== src/Plans/Dto.antt =====
-- What the workflow takes and returns: dto/submit-for-approval.dto.ts and dto/review-plan.dto.ts.
use collmind_backend.Base.{Uuid, Text, Bool, Option, List, ℤ}
use collmind_backend.Entities.Plan.{PlanStatus}

pub record SideCheck : Type 0 where
  pub available : ℤ
  pub requested : ℤ
  pub sufficient : Bool

pub record BudgetCheck : Type 0 where
  pub on_invoice : SideCheck
  pub off_invoice : SideCheck
  pub overall_sufficient : Bool

pub data ValidationError : Type 0 where
  no_fu : ValidationError
  no_tactics : Uuid → ValidationError
  insufficient : BudgetCheck → ValidationError

pub record SubmissionResult : Type 0 where
  pub success : Bool
  pub plan_id : Uuid
  pub status : PlanStatus
  pub budget_check : BudgetCheck
  pub validation_errors : List ValidationError
  pub red_warning : Bool
  pub approval_request_id : Option Uuid

pub record ReviewResult : Type 0 where
  pub plan_id : Uuid
  pub new_status : PlanStatus

pub data ReviewDecision : Type 0 where
  approve reject request_changes escalate : ReviewDecision

-- The body of a review; the decision is one of the four that `@IsEnum` lets through.
pub record ReviewDto : Type 0 where
  pub decision : ReviewDecision
  pub comments : Option Text
  pub rejection_reason : Option Text
  pub specific_changes : Option (List Text)
  pub escalation_reason : Option Text
