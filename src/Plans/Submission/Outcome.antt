-- ===== src/Plans/Submission/Outcome.antt =====
-- What a submission leaves behind, on every way it ends.
use collmind_backend.Base.{
  leb_ℤ, ℕ, ◌+◌, ◌≡◌, refl, ◌∙◌, true, false, Option, some, List, [], ◌∷◌, ◌++◌, Uuid, Text, ℤ, ◌⊎◌,
  inl, inr, arith,
}
use collmind_backend.Entities.Approval.{ApprovalRequest}
use collmind_backend.Entities.Plan.{Plan, PlanStatus, same_status}
use collmind_backend.Db.{Db, Error, Action, or_throw}
use collmind_backend.Db.Ends.{Ends, returns, throws, weaken, bind_rule, throw_if_rule}
use collmind_backend.Budget.Service.Frame.{Frame}
use collmind_backend.Approval.{create_request}
use collmind_backend.Approval.Requests.{created}
use collmind_backend.Plans.Dto.{SubmissionResult, BudgetCheck, ValidationError}
use collmind_backend.Plans.Repository.{find_plan, KeepsPlan, find-with_plan, update_plan_lem}
use collmind_backend.Plans.Spend.{Products, calculate_spend_breakdown}
use collmind_backend.Plans.Submission.{
  check_budget, channel_code, tactic_errors, budget_errors, create_history_entry, submitted_row,
  draft_row, reserve_or_return, plan_request, submit_valid, checked_by, submit_for_approval,
  refused,
}
use collmind_backend.Plans.Submission.Frame.{
  find_plan-same, found_self, recover_rule, reserve_sides-Frame,
}

submitted_keeps :
    (request_id : Uuid) (notes : Option Text) (now : ℕ) (user_id : Uuid) (spend : ℤ × ℤ)
    → KeepsPlan (submitted_row request_id notes now user_id spend)
submitted_keeps request_id notes now user_id (on, off) p = (refl, refl, refl)

draft_keeps : (user_id : Uuid) → KeepsPlan (draft_row user_id)
draft_keeps user_id p = (refl, refl, refl)

-- A failed reservation puts the plan back to draft and leaves the requests alone.
pub reserve_or_return_outcome :
    (plan : Plan) (tenant_id user_id : Uuid) (on off : ℤ) (db : Db) (row : Plan)
    → find_plan plan.id tenant_id db ≡ some row
    → Ends
        (λ _ db'. Frame db db')
        (λ e db'.
          (find_plan plan.id tenant_id db' ≡ some (draft_row user_id row))
          × (db'.requests ≡ db.requests))
        (reserve_or_return plan tenant_id user_id (on, off) db)
unfolding reserve_or_return
reserve_or_return_outcome plan tenant_id user_id on off db row found = recover_rule _ (
    weaken (λ _ db' f. f)
      (λ e db' f.
        let still = find_plan-same plan.id tenant_id db db' f.plans ∙ found in
        rw (update_plan_lem plan.id tenant_id (draft_row user_id) (draft_keeps user_id) db' still) (
          throws (
            find-with_plan plan.id tenant_id (draft_row user_id) (draft_keeps user_id) db' still,
            f.requests,
          )))
      (reserve_sides-Frame leb_ℤ plan tenant_id user_id on off db))

module _ (plan : Plan) (tenant_id user_id : Uuid) (notes : Option Text) (on off : ℤ) (db : Db) where
  -- The request that the submission makes, and the row of the plan that it writes.
  abbrev pub new_request : ApprovalRequest
  new_request = created (plan_request plan.id) tenant_id user_id db

  abbrev pub new_row : Plan
  new_row = submitted_row new_request.id notes db.now user_id (on, off) plan

  -- The plan waits for approval, with a request that stands at the head of the queue.
  abbrev pub Submitted : Db → Type 0
  Submitted db' =
      (find_plan plan.id tenant_id db' ≡ some new_row) × (db'.requests ≡ new_request ∷ db.requests)

  -- The plan is in draft again, and the request stays behind.
  abbrev pub PutBack : Db → Type 0
  PutBack db' =
      (find_plan plan.id tenant_id db' ≡ some (draft_row user_id new_row))
      × (db'.requests ≡ new_request ∷ db.requests)

  pub submit_valid_outcome :
      (check : BudgetCheck)
      → find_plan plan.id tenant_id db ≡ some plan
      → Ends
          (λ r db'.
            (r.success ≡ true) × (r.approval_request_id ≡ some new_request.id) × Submitted db')
          (λ e db'. (db' ≡ db) ⊎ PutBack db')
          (submit_valid plan tenant_id user_id notes (on, off) check db)
  unfolding submit_valid create_request create_history_entry
  submit_valid_outcome check found = bind_rule _ (
      throw_if_rule _ _ _ _ (λ pending. inl refl)
        λ free.
          let change = submitted_row new_request.id notes db.now user_id (on, off) in
          let keeps = submitted_keeps new_request.id notes db.now user_id (on, off) in
          let d1 = record db { requests = new_request ∷ db.requests; drawn = db.drawn + 1 } in
          let here = find_plan-same plan.id tenant_id db d1 refl ∙ found in
          returns {db = d1} (
            rw (update_plan_lem plan.id tenant_id change keeps d1 here) (
              bind_rule _ (
                weaken
                  (λ _ d3 f. returns (
                    refl,
                    refl,
                    (
                      find_plan-same plan.id tenant_id _ _ f.plans
                          ∙ find-with_plan plan.id tenant_id change keeps d1 here,
                      f.requests,
                    ),
                  ))
                  (λ e d3 back. inr back)
                  (reserve_or_return_outcome plan tenant_id user_id on off _ new_row
                    (find-with_plan plan.id tenant_id change keeps d1 here))))))

pub checked_by_rule :
    {P : SubmissionResult → Db → Type 0} {E : Error → Db → Type 0} (es : List ValidationError)
    (m : Action SubmissionResult) (result : List ValidationError → SubmissionResult) (db : Db)
    → (es ≡ [] → Ends P E (m db))
    → P (result es) db
    → Ends P E (checked_by es m result db)
checked_by_rule [] m result db valid bad = valid refl
checked_by_rule (e ∷ es) m result db valid bad = returns bad

module _ (products : Products) (plan_id tenant_id user_id : Uuid) (notes : Option Text) (db : Db)
    (plan : Plan) where
  abbrev pub spend : ℤ × ℤ
  spend = calculate_spend_breakdown products plan tenant_id db

  abbrev pub checked : BudgetCheck
  checked = check_budget tenant_id (channel_code plan) plan.period_month spend.0 spend.1 db

  abbrev pub errors : List ValidationError
  errors = tactic_errors plan.plan_fus ++ budget_errors checked

  -- A submission of the plan that a tenant has under an id ends in one of three ways. It returns
  -- the validation errors and changes nothing. It returns success: the plan was a draft with no
  -- error, and it is now pending, with the new request at the head of the queue. Or it throws:
  -- nothing has changed, or the reservation has failed and the plan is back in draft with the new
  -- request left in the queue.
  pub submit_outcome :
      find_plan plan_id tenant_id db ≡ some plan
      → Ends
          (λ r db'.
            ((r.success ≡ false) × (r.validation_errors ≡ errors) × (db' ≡ db))
            ⊎ ((r.success ≡ true)
                × (same_status plan.status PlanStatus.draft ≡ true)
                × (errors ≡ [])
                × Submitted plan tenant_id user_id notes spend.0 spend.1 db db'))
          (λ e db'. (db' ≡ db) ⊎ PutBack plan tenant_id user_id notes spend.0 spend.1 db db')
          (submit_for_approval products plan_id tenant_id user_id notes db)
  unfolding submit_for_approval or_throw
  submit_outcome found = rw found (
      throw_if_rule _ _ _ _ (λ other. inl refl)
        λ draft.
          checked_by_rule errors (submit_valid plan tenant_id user_id notes spend checked)
            (refused plan checked) db
            (λ none_found.
              weaken (λ r db' (done, _, kept). inr (done, ground arith, none_found, kept))
                (λ e db' back. back)
                (submit_valid_outcome plan tenant_id user_id notes spend.0 spend.1 db checked
                  (found_self plan_id tenant_id db found)))
            (inl (refl, refl, refl)))
