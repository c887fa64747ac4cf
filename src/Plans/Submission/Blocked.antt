-- ===== src/Plans/Submission/Blocked.antt =====
-- A plan whose newest request is pending cannot be submitted.
use collmind_backend.Base.{◌≡◌, refl, true, false, Option, some, Uuid, Text, ℤ, codes}
use collmind_backend.Entities.Plan.{Plan}
use collmind_backend.Db.{Db, Result, throw_if, or_throw}
use collmind_backend.Db.Ends.{Ends, throws, throw_if_rule}
use collmind_backend.Approval.{find_by_entity_id, has_pending, create_request}
use collmind_backend.Plans.Dto.{SubmissionResult, BudgetCheck}
use collmind_backend.Plans.Repository.{find_plan}
use collmind_backend.Plans.Spend.{Products}
use collmind_backend.Plans.Submission.{submit_for_approval, submit_valid, refused}
use collmind_backend.Plans.Submission.Outcome.{spend, checked_by_rule, checked, errors}

-- The newest request of the plan is pending.
abbrev pub Waiting : Uuid → Uuid → Db → Type 0
Waiting plan_id tenant_id db =
    has_pending (find_by_entity_id (codes "PLAN") plan_id tenant_id db) ≡ true

-- The submission is refused, with an error or with a throw, and changes nothing.
abbrev pub Refuses : Db → Result SubmissionResult × Db → Type 0
Refuses db = Ends (λ r db'. (r.success ≡ false) × (db' ≡ db)) (λ e db'. db' ≡ db)

blocked :
    (plan : Plan) (tenant_id user_id : Uuid) (notes : Option Text) (spend : ℤ × ℤ)
    (check : BudgetCheck) (db : Db)
    → Waiting plan.id tenant_id db
    → Refuses db (submit_valid plan tenant_id user_id notes spend check db)
unfolding submit_valid create_request throw_if
blocked plan tenant_id user_id notes spend check db waiting = rw waiting (throws refl)

pub submit_blocked :
    (products : Products) (plan_id tenant_id user_id : Uuid) (notes : Option Text) (db : Db)
    (plan : Plan)
    → find_plan plan_id tenant_id db ≡ some plan
    → Waiting plan.id tenant_id db
    → Refuses db (submit_for_approval products plan_id tenant_id user_id notes db)
unfolding submit_for_approval or_throw
submit_blocked products plan_id tenant_id user_id notes db plan found waiting = rw found (
    throw_if_rule _ _ _ _ (λ other. refl)
      λ draft.
        let sides = spend products plan_id tenant_id user_id notes db plan in
        let check = checked products plan_id tenant_id user_id notes db plan in
        checked_by_rule (errors products plan_id tenant_id user_id notes db plan)
          (submit_valid plan tenant_id user_id notes sides check) (refused plan check) db
          (λ none_found. blocked plan tenant_id user_id notes sides check db waiting) (refl, refl))
