-- ===== src/Examples/Data.antt =====
-- The rows of the examples.
use collmind_backend.Base.{
  ◌+◌, Uuid, Text, codes, true, false, none, some, [], ◌∷◌, pos, scale, pos_part,
}
use collmind_backend.Entities.Budget.{EnvelopeStatus, Envelope}
use collmind_backend.Entities.Approval.{ApprovalRequest, RequestType, RequestStatus, LevelStatus}
use collmind_backend.Entities.Plan.{Plan, PlanStatus, PlanFu, PlanSku, Tactic, SpendType}
use collmind_backend.Db.{Db}
use collmind_backend.Approval.{new_level, CreateRequestDto}
use collmind_backend.Plans.Dto.{ReviewDecision, ReviewDto}
use collmind_backend.Plans.Spend.{Products}

abbrev pub tenant : Uuid
tenant = 7

abbrev pub planner : Uuid
planner = 2

abbrev pub manager : Uuid
manager = 3

abbrev pub director : Uuid
director = 4

abbrev pub agreement : Uuid
agreement = 50

abbrev pub channel : Text
channel = codes "KA"

abbrev pub march : Text
march = codes "2025-03"

abbrev pub lira : Text
lira = codes "TRY"

abbrev pub budget : Envelope
budget = record {
  id = 1;
  tenant_id = tenant;
  code = codes "KA/2025-03";
  name = codes "KA";
  fiscal_year = codes "2025";
  period = march;
  allocated_amount = pos 900;
  consumed_amount = pos 0;
  available_amount = pos 900;
  status = EnvelopeStatus.active;
  channel = some channel;
  category = none;
  currency = lira;
  meta_channel = none;
  meta_category = none;
  deleted = false;
}

abbrev pub other_budget : Envelope
other_budget = record budget { id = 9; code = codes "MT/2025-03"; channel = some (codes "MT") }

abbrev pub promo : Tactic
promo = record {
  tenant_id = tenant;
  code = codes "PROMO";
  spend_type = some SpendType.on_invoice;
  is_discount = false;
  deleted = false;
}

abbrev pub sku : PlanSku
sku = record {
  id = 83;
  sku_id = 81;
  sku_there = true;
  base_volume = some (pos 4);
  planned_volume = pos 10;
  incremental_volume = pos 6;
  unit_price = pos 5;
  cogs = pos 2;
  planned_turnover = pos 50;
  tactic_spend = pos 300;
  planned_gp = pos 0;
  gp_roi = none;
  rag_status = none;
}

abbrev pub fu : PlanFu
fu = record {
  fu_id = 80;
  tactics = some ((codes "PROMO", pos 200) ∷ (codes "LUMP", pos 100) ∷ []);
  id = 82;
  total_planned_volume = pos 10;
  total_spend = pos 300;
  total_gp = pos 0;
  gp_roi = none;
  rag_status = none;
  plan_skus = sku ∷ [];
}

abbrev pub draft_plan : Plan
draft_plan = record {
  id = 60;
  tenant_id = tenant;
  cpl_id = 61;
  channel_id = 62;
  category_id = 63;
  channel_code = some channel;
  channel_name = none;
  category_code = none;
  start_date = 1740787200000;
  end_date = 1743379200000;
  period_month = march;
  status = PlanStatus.draft;
  approval_request_id = none;
  approved_at = none;
  approved_by_id = none;
  rejected_at = none;
  rejected_by_id = none;
  rejection_reason = none;
  comments = none;
  submission_notes = none;
  submitted_at = none;
  submitted_by_id = none;
  pending_finance_review = false;
  escalation_reason = none;
  escalated_at = none;
  escalated_by_id = none;
  on_invoice_spend = pos 0;
  off_invoice_spend = pos 0;
  total_planned_volume = pos 10;
  total_spend = pos 300;
  total_gp = pos 0;
  overall_roi = none;
  rag_red = false;
  plan_fus = fu ∷ [];
  updated_by = none;
  deleted = false;
}

-- A request with two levels, for another entity.
abbrev pub two_levels : ApprovalRequest
two_levels = record {
  id = 40;
  tenant_id = tenant;
  request_type = RequestType.agreement;
  entity_type = codes "AGREEMENT";
  entity_id = agreement;
  requested_by_id = planner;
  requested_at = 1;
  approval_levels =
      new_level 1 (codes "KAM") none LevelStatus.pending
      ∷ new_level 2 (codes "FINANCE") none LevelStatus.pending
      ∷ [];
  current_level = 1;
  status = RequestStatus.pending;
  approved_at = none;
  approved_by_id = none;
  rejected_at = none;
  rejected_by_id = none;
  rejection_reason = none;
  cancelled_at = none;
  cancelled_by_id = none;
  updated_by = none;
  deleted = false;
}

abbrev pub shop : Db
shop = record {
  envelopes = budget ∷ other_budget ∷ [];
  transactions = [];
  ledger_entries = [];
  requests = two_levels ∷ [];
  plans = draft_plan ∷ [];
  histories = [];
  tactics = promo ∷ [];
  agreements = [];
  agreement_transactions = [];
  allocations = [];
  transaction_logs = [];
  lta_agreements = [];
  lta_rates = [];
  lta_overrides = [];
  uuids = λ n. 100 + n;
  drawn = 0;
  now = 5;
}

abbrev pub new_agreement : CreateRequestDto
new_agreement = record {
  request_type = RequestType.agreement;
  entity_type = codes "AGREEMENT";
  entity_id = 51;
  approval_levels = none;
}

abbrev pub changes_wanted : ReviewDto
changes_wanted = record {
  decision = ReviewDecision.request_changes;
  comments = some (codes "less");
  rejection_reason = none;
  specific_changes = none;
  escalation_reason = none;
}

-- Products of whole numbers, and a percentage that is rounded down to nothing below 1.
abbrev pub products : Products
products = record { times = λ v p. scale (pos_part v) p; percent = λ x v. pos 0 }
