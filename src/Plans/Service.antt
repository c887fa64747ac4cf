-- ===== src/Plans/Service.antt =====
-- plan.service.ts: a plan's life from draft to its decision.
pub mod Outcome
use collmind_backend.Base.{
  Uuid, Text, codes, Bool, true, false, ◌&&◌, not, Option, none, some, List, [], ◌∷◌, ◌++◌, take,
  if◌then◌else◌, ℤ, pos, leb_ℤ, ltb_ℤ, scale,
}
use collmind_backend.Entities.Budget.{EnvelopeStatus, Envelope}
use collmind_backend.Entities.Plan.{Plan, PlanStatus, same_status}
use collmind_backend.Db.{
  Action, Error, plan_not_found, plan_not_draft, plan_not_pending, plan_has_no_fu, request_missing,
  no_active_envelope, budget_reservation_failed, ◌>>=◌, ◌>>◌, query, or_throw, throw_if, throw,
  return, try_wrap, when,
}
use collmind_backend.Approval
use collmind_backend.Approval.{create_request}
use collmind_backend.Budget.Repository.{text_at_most, find_envelope_by_dimensions}
use collmind_backend.Budget.Envelopes.{or_text, CreateEnvelopeDto, create_envelope}
use collmind_backend.Budget.Service.{reserve_for_plan, release_for_plan}
use collmind_backend.Plans.Repository.{find_plan, update_plan, soft_delete}
use collmind_backend.Plans.Submission.{channel_code, plan_request}
use collmind_backend.Plans.Review.{approved_plan, rejected_plan}

-- `findById`.
unfoldable pub find_by_id : Uuid → Uuid → Action Plan
find_by_id id tenant_id = do
  found ← query (find_plan id tenant_id)
  or_throw (Error.not_found plan_not_found) found

abbrev is_empty {ℓ} : {A : Type ℓ} → List A → Bool
is_empty [] = true
is_empty (x ∷ xs) = false

abbrev pub pending_plan : Uuid → Uuid → Plan → Plan
pending_plan request_id user_id p = record p {
  status = PlanStatus.pending_approval;
  approval_request_id = some request_id;
  updated_by = some user_id;
}

-- `submit`.
pub submit : Uuid → Uuid → Uuid → Action Plan
submit id tenant_id user_id = do
  plan ← find_by_id id tenant_id
  throw_if (not (same_status plan.status PlanStatus.draft)) (Error.bad_request plan_not_draft)
  throw_if (is_empty plan.plan_fus) (Error.bad_request plan_has_no_fu)
  request ← create_request (plan_request plan.id) tenant_id user_id
  update_plan id tenant_id (pending_plan request.id user_id)

abbrev max_ℤ : ℤ → ℤ → ℤ
max_ℤ a b = if leb_ℤ a b then b else a

-- `budgetAmount || Math.max(totalSpend * 2, 100000)`, in hundredths.
pub budget_for : Option ℤ → Plan → ℤ
budget_for none plan = max_ℤ (scale 2 plan.total_spend) (pos 10_000_000)
budget_for (some a) plan =
    if leb_ℤ a (pos 0) && leb_ℤ (pos 0) a
    then max_ℤ (scale 2 plan.total_spend) (pos 10_000_000)
    else a

pub auto_envelope : Plan → Option ℤ → CreateEnvelopeDto
unfolding budget_for
auto_envelope plan budget_amount = record {
  code = some (channel_code plan ++ (codes "/" ++ plan.period_month));
  name = some (
      or_text plan.channel_name (channel_code plan)
      ++ (codes " - " ++ (plan.period_month ++ codes " Bütçesi")));
  fiscal_year = take 4 plan.period_month;
  period = some plan.period_month;
  month = none;
  channel = none;
  category = none;
  allocated_amount = budget_for budget_amount plan;
  status = some EnvelopeStatus.active;
  currency = some (codes "TRY");
  meta_channel = some (channel_code plan);
  meta_category = none;
}

-- The envelope is there, or it is created on demand, or the approval is refused.
ensure_envelope : Option Envelope → Bool → Plan → Uuid → Option ℤ → Action (Unit {0})
ensure_envelope (some e) auto plan tenant_id budget_amount = return tt
ensure_envelope none true plan tenant_id budget_amount =
    create_envelope tenant_id (auto_envelope plan budget_amount) >> return tt
ensure_envelope none false plan tenant_id budget_amount =
    throw (Error.bad_request no_active_envelope)

-- `approve`.
pub approve : Uuid → Uuid → Uuid → Option Text → Bool → Option ℤ → Action Plan
approve id tenant_id user_id comments auto budget_amount = do
  plan ← find_by_id id tenant_id
  throw_if (not (same_status plan.status PlanStatus.pending_approval))
      (Error.bad_request plan_not_pending)
  request_id ← or_throw (Error.bad_request request_missing) plan.approval_request_id
  existing ←
      query (find_envelope_by_dimensions tenant_id (channel_code plan) plan.period_month none)
  ensure_envelope existing auto plan tenant_id budget_amount
  try_wrap (λ r. Error.bad_request (budget_reservation_failed r))
      (reserve_for_plan text_at_most plan.id plan.total_spend (channel_code plan) plan.period_month
        (codes "TRY") tenant_id user_id)
  Approval.approve request_id tenant_id user_id comments
  now ← query (λ db. db.now)
  update_plan id tenant_id (approved_plan now user_id)

-- `reject`.
pub reject : Uuid → Uuid → Uuid → Text → Action Plan
reject id tenant_id user_id reason = do
  plan ← find_by_id id tenant_id
  throw_if (not (same_status plan.status PlanStatus.pending_approval))
      (Error.bad_request plan_not_pending)
  request_id ← or_throw (Error.bad_request request_missing) plan.approval_request_id
  Approval.reject request_id tenant_id user_id reason
  now ← query (λ db. db.now)
  update_plan id tenant_id (rejected_plan now user_id reason)

-- `delete`.
pub delete : Uuid → Uuid → Action (Unit {0})
delete id tenant_id = do
  plan ← find_by_id id tenant_id
  throw_if (not (same_status plan.status PlanStatus.draft)) (Error.bad_request plan_not_draft)
  when (ltb_ℤ (pos 0) plan.total_spend) (release_for_plan id tenant_id)
  soft_delete id tenant_id
