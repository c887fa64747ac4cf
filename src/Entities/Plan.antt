-- ===== src/Entities/Plan.antt =====
-- plan.entity.ts, plan-approval-history.entity.ts, and the columns of tactic.entity.ts that the
-- spend breakdown reads.
use collmind_backend.Base.{ℕ, Uuid, Text, ℤ, Bool, Option, List, ◌==◌}
use collmind_backend.Kpi.Aggregate.{Rag}

pub data PlanStatus : Type 0 where
  draft pending_approval pending_finance_review approved rejected : PlanStatus

abbrev pub status_code : PlanStatus → ℕ
status_code PlanStatus.draft = 0
status_code PlanStatus.pending_approval = 1
status_code PlanStatus.pending_finance_review = 2
status_code PlanStatus.approved = 3
status_code PlanStatus.rejected = 4

abbrev pub same_status : PlanStatus → PlanStatus → Bool
same_status a b = status_code a == status_code b

pub data SpendType : Type 0 where
  on_invoice off_invoice both : SpendType

-- A row of `tactics`; `is_discount` is `tacticType === 'DISCOUNT'`.
pub record Tactic : Type 0 where
  pub tenant_id : Uuid
  pub code : Text
  pub spend_type : Option SpendType
  pub is_discount : Bool
  pub deleted : Bool

-- A row of `plan_skus`. The relation `sku` is not loaded (`sku_there`) where the SKU was deleted
-- softly; its price and its cost then read as 0 where the code has `sku?.`. It comes with the price and the cost of its SKU; a number that is 0 where
-- it is missing is one that is only read as `Number(x) || 0`.
pub record PlanSku : Type 0 where
  pub id : Uuid
  pub sku_id : Uuid
  pub sku_there : Bool
  pub base_volume : Option ℤ
  pub planned_volume : ℤ
  pub incremental_volume : ℤ
  pub unit_price : ℤ
  pub cogs : ℤ
  pub planned_turnover : ℤ
  pub tactic_spend : ℤ
  pub planned_gp : ℤ
  pub gp_roi : Option ℤ
  pub rag_status : Option Rag

pub record PlanFu : Type 0 where
  pub id : Uuid
  pub fu_id : Uuid
  pub tactics : Option (List (Text × ℤ))
  pub total_planned_volume : ℤ
  pub total_spend : ℤ
  pub total_gp : ℤ
  pub gp_roi : Option ℤ
  pub rag_status : Option Rag
  pub plan_skus : List PlanSku

-- A plan with the relations that `PlanRepository.findById` loads; `channel_code`, `channel_name` and
-- `category_code` are `channel?.code`, `channel?.name` and `category?.code`, and `rag_red` is
-- `ragStatus === 'RED'`.
pub record Plan : Type 0 where
  pub id : Uuid
  pub tenant_id : Uuid
  pub cpl_id : Uuid
  pub channel_id : Uuid
  pub category_id : Uuid
  pub channel_code : Option Text
  pub channel_name : Option Text
  pub category_code : Option Text
  pub start_date : ℕ
  pub end_date : ℕ
  pub period_month : Text
  pub status : PlanStatus
  pub approval_request_id : Option Uuid
  pub approved_at : Option ℕ
  pub approved_by_id : Option Uuid
  pub rejected_at : Option ℕ
  pub rejected_by_id : Option Uuid
  pub rejection_reason : Option Text
  pub comments : Option Text
  pub submission_notes : Option Text
  pub submitted_at : Option ℕ
  pub submitted_by_id : Option Uuid
  pub pending_finance_review : Bool
  pub escalation_reason : Option Text
  pub escalated_at : Option ℕ
  pub escalated_by_id : Option Uuid
  pub on_invoice_spend : ℤ
  pub off_invoice_spend : ℤ
  pub total_planned_volume : ℤ
  pub total_spend : ℤ
  pub total_gp : ℤ
  pub overall_roi : Option ℤ
  pub rag_red : Bool
  pub plan_fus : List PlanFu
  pub updated_by : Option Uuid
  pub deleted : Bool

pub data HistoryAction : Type 0 where
  submitted approved rejected request_changes escalated returned_to_draft : HistoryAction
  budget_reserved budget_released budget_committed : HistoryAction

pub record PlanApprovalHistory : Type 0 where
  pub plan_id : Uuid
  pub tenant_id : Uuid
  pub actioned_by_id : Uuid
  pub action : HistoryAction
  pub comments : Option Text
  pub rejection_reason : Option Text
  pub specific_changes : Option (List Text)
  pub escalation_reason : Option Text
