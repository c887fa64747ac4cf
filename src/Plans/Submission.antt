-- ===== src/Plans/Submission.antt =====
-- approval-workflow.service.ts: the submission of a plan, and the helpers of the class.
pub mod Frame
pub mod Outcome
pub mod Blocked
pub mod Promise
pub mod Sides
use collmind_backend.Base.{
  ℕ, Uuid, Text, codes, Bool, true, false, not, Option, none, some, List, [], ◌∷◌, ◌++◌,
  if◌then◌else◌, ℤ, pos, ◌+ℤ◌, leb_ℤ, ltb_ℤ,
}
use collmind_backend.Entities.Approval.{RequestType}
use collmind_backend.Entities.Plan.{
  Plan, PlanStatus, same_status, PlanFu, HistoryAction, PlanApprovalHistory,
}
use collmind_backend.Db.{
  Db, Action, Result, ok, err, Error, message, plan_not_found, plan_not_draft,
  budget_reservation_failed, ◌>>=◌, ◌>>◌, query, or_throw, throw_if, throw, return, write, when,
}
use collmind_backend.Approval.{or_keep, create_request, CreateRequestDto}
use collmind_backend.Budget.Repository.{find_envelope_by_dimensions}
use collmind_backend.Budget.Envelopes.{or_text}
use collmind_backend.Budget.Status.{get_budget_status}
use collmind_backend.Budget.Repository.{Comparison}
use collmind_backend.Budget.Service.{reserve_for_plan}
use collmind_backend.Plans.Repository.{find_plan, update_plan}
use collmind_backend.Plans.Spend.{Products, calculate_spend_breakdown}
use collmind_backend.Plans.Dto.{
  SideCheck, BudgetCheck, ValidationError, no_fu, no_tactics, insufficient, SubmissionResult,
}

abbrev side : ℤ → ℤ → SideCheck
side available requested = record {
  available = available;
  requested = requested;
  sufficient = leb_ℤ requested available;
}

abbrev nothing_for : ℤ → SideCheck
nothing_for requested = record { available = pos 0; requested = requested; sufficient = false }

-- `checkBudgetAvailability`. An empty month would be the current one; the callers give a plan's.
unfoldable pub check_budget : Uuid → Text → Text → ℤ → ℤ → Db → BudgetCheck
check_budget tenant_id channel period_month on off db =
    elim (find_envelope_by_dimensions tenant_id channel period_month none db) [
      | none ↦ record {
        on_invoice = nothing_for on;
        off_invoice = nothing_for off;
        overall_sufficient = false;
      }
      | some e ↦
          let available = (get_budget_status tenant_id channel none period_month db).available in
          record {
            on_invoice = side available on;
            off_invoice = side available off;
            overall_sufficient = leb_ℤ (on +ℤ off) available;
          }
    ]

-- A missing object of tactics, or one with no keys.
abbrev lacks_tactics : PlanFu → Bool
lacks_tactics fu = elim fu.tactics [ none ↦ true | some [] ↦ true | some (t ∷ ts) ↦ false ]

unfoldable pub fu_errors : List PlanFu → List ValidationError
fu_errors [] = []
fu_errors (fu ∷ fus) =
    let rest = fu_errors fus in if lacks_tactics fu then no_tactics fu.fu_id ∷ rest else rest

unfoldable pub tactic_errors : List PlanFu → List ValidationError
unfolding fu_errors
tactic_errors [] = no_fu ∷ []
tactic_errors (fu ∷ fus) = fu_errors (fu ∷ fus)

abbrev budget_errors : BudgetCheck → List ValidationError
budget_errors check = if check.overall_sufficient then [] else insufficient check ∷ []

-- `plan.channel?.code || ''`.
abbrev pub channel_code : Plan → Text
channel_code p = or_text p.channel_code []

-- `createHistoryEntry`.
unfoldable pub create_history_entry :
    Uuid
    → Uuid
    → Uuid
    → HistoryAction
    → Option Text
    → Option Text
    → Option (List Text)
    → Option Text
    → Action (Unit {0})
create_history_entry plan_id tenant_id user_id action comments rejection_reason changes escalation =
    let entry : PlanApprovalHistory = record {
      plan_id = plan_id;
      tenant_id = tenant_id;
      actioned_by_id = user_id;
      action = action;
      comments = comments;
      rejection_reason = rejection_reason;
      specific_changes = changes;
      escalation_reason = escalation;
    } in
    write (λ db. record db { histories = entry ∷ db.histories })

-- The columns that a submission writes.
abbrev pub submitted_row : Uuid → Option Text → ℕ → Uuid → ℤ × ℤ → Plan → Plan
submitted_row request_id notes now user_id (on, off) p = record p {
  status = PlanStatus.pending_approval;
  approval_request_id = some request_id;
  submission_notes = or_keep notes p.submission_notes;
  submitted_at = some now;
  submitted_by_id = some user_id;
  on_invoice_spend = on;
  off_invoice_spend = off;
  updated_by = some user_id;
}

abbrev pub draft_row : Uuid → Plan → Plan
draft_row user_id p = record p { status = PlanStatus.draft; updated_by = some user_id }

-- `reserveBudgetForPlan` and `commitBudgetForPlan` pass the same arguments on to `reserveForPlan`;
-- the spend type is not used. A submission reserves numbers, and an approval the stored columns,
-- which are texts.
unfoldable pub reserve_side : Comparison → Plan → Uuid → Uuid → ℤ → Action (Unit {0})
reserve_side at_most p tenant_id user_id amount = when (ltb_ℤ (pos 0) amount) (do
  reserve_for_plan at_most p.id amount (channel_code p) p.period_month (codes "TRY") tenant_id
      user_id
  return tt)

-- Both sides of the plan's budget, on-invoice first.
unfoldable pub reserve_sides : Comparison → Plan → Uuid → Uuid → ℤ × ℤ → Action (Unit {0})
reserve_sides at_most p tenant_id user_id (on, off) =
    reserve_side at_most p tenant_id user_id on >> reserve_side at_most p tenant_id user_id off

-- `try { m } catch (error) { handler }`.
abbrev pub recover : {A : Type 0} → (Error → Action A) → Result A × Db → Result A × Db
recover handler (ok a, db) = (ok a, db)
recover handler (err e, db) = handler e db

abbrev pub try_catch : {A : Type 0} → Action A → (Error → Action A) → Action A
try_catch m handler db = recover handler (m db)

-- The budget is reserved, or the plan goes back to draft and the error is thrown on.
unfoldable pub reserve_or_return : Plan → Uuid → Uuid → ℤ × ℤ → Action (Unit {0})
reserve_or_return p tenant_id user_id spend =
    try_catch (reserve_sides leb_ℤ p tenant_id user_id spend) (λ e. do
      update_plan p.id tenant_id (draft_row user_id)
      throw (Error.bad_request (budget_reservation_failed (message e))))

abbrev pub plan_request : Uuid → CreateRequestDto
plan_request plan_id = record {
  request_type = RequestType.plan;
  entity_type = codes "PLAN";
  entity_id = plan_id;
  approval_levels = none;
}

-- The part of `submitForApproval` behind the validation.
unfoldable pub submit_valid :
    Plan → Uuid → Uuid → Option Text → ℤ × ℤ → BudgetCheck → Action SubmissionResult
submit_valid plan tenant_id user_id notes spend check = do
  request ← create_request (plan_request plan.id) tenant_id user_id
  now ← query (λ db. db.now)
  update_plan plan.id tenant_id (submitted_row request.id notes now user_id spend)
  reserve_or_return plan tenant_id user_id spend
  create_history_entry plan.id tenant_id user_id HistoryAction.submitted notes none none none
  return (record {
    success = true;
    plan_id = plan.id;
    status = PlanStatus.pending_approval;
    budget_check = check;
    validation_errors = [];
    red_warning = plan.rag_red;
    approval_request_id = some request.id;
  })

abbrev refused : Plan → BudgetCheck → List ValidationError → SubmissionResult
refused plan check errors = record {
  success = false;
  plan_id = plan.id;
  status = plan.status;
  budget_check = check;
  validation_errors = errors;
  red_warning = false;
  approval_request_id = none;
}

abbrev pub checked_by :
    List ValidationError
    → Action SubmissionResult
    → (List ValidationError → SubmissionResult)
    → Action SubmissionResult
checked_by [] m result = m
checked_by (e ∷ es) m result = return (result (e ∷ es))

unfoldable pub submit_for_approval :
    Products → Uuid → Uuid → Uuid → Option Text → Action SubmissionResult
submit_for_approval products plan_id tenant_id user_id notes = do
  found ← query (find_plan plan_id tenant_id)
  plan ← or_throw (Error.not_found plan_not_found) found
  throw_if (not (same_status plan.status PlanStatus.draft)) (Error.bad_request plan_not_draft)
  spend ← query (calculate_spend_breakdown products plan tenant_id)
  check ← query (check_budget tenant_id (channel_code plan) plan.period_month spend.0 spend.1)
  let errors = tactic_errors plan.plan_fus ++ budget_errors check
  checked_by errors (submit_valid plan tenant_id user_id notes spend check) (refused plan check)
