-- ===== src/Examples/Decisions.antt =====
-- The decisions of the plan service.
use collmind_backend.Base.{◌≡◌, none, some, true}
use collmind_backend.Db.Ends.{Ends}
use collmind_backend.Approval.{approved_row}
use collmind_backend.Plans.Repository.{find_plan}
use collmind_backend.Plans.Review.{approved_plan}
use collmind_backend.Plans.Service.{approve}
use collmind_backend.Plans.Service.Outcome.{Decides, plan-approve_outcome}
use collmind_backend.Examples.Data.{tenant, manager}
use collmind_backend.Examples.Plans.{pending, pending_shop, queued}

plan-approve_outcome_example :
    Ends
      (Decides 60 tenant manager pending_shop pending
        (approved_plan 5 manager)
        (approved_row manager 5 none))
      (λ e db'. find_plan 60 tenant db' ≡ some pending)
      (approve 60 tenant manager none true none pending_shop)
plan-approve_outcome_example =
    plan-approve_outcome 60 tenant manager pending_shop pending none true none queued
