-- ===== src/Plans/Editing/Removal.antt =====
-- The removal of the last FU of a plan.
use collmind_backend.Base.{
  ◌≡◌, refl, ap, ◌∙◌, Uuid, true, some, [], ◌∷◌, not, ◌==◌, select, ==_refl,
}
use collmind_backend.Entities.Plan.{Plan, PlanFu, PlanStatus, same_status}
use collmind_backend.Db.{Db, ok, or_throw, throw_if}
use collmind_backend.Plans.Repository.{find_plan}
use collmind_backend.Plans.Repository.Rows.{find_plan_fu, remove_plan_fu}
use collmind_backend.Plans.Repository.Rows.Present.{find-over_fus}
use collmind_backend.Plans.Service.{find_by_id}
use collmind_backend.Plans.Recalculation.{Calculator, recalculate, recalculate_fus}
use collmind_backend.Plans.Editing.{remove_fu}

-- The removal of the only FU of a draft returns, and leaves the draft without FUs and otherwise as
-- it was, with the totals that counted the FU.
pub remove_last_fu :
    (c : Calculator) (plan_id fu_id tenant_id : Uuid) (db : Db) (p : Plan) (fu : PlanFu)
    → find_plan plan_id tenant_id db ≡ some p
    → same_status p.status PlanStatus.draft ≡ true
    → p.plan_fus ≡ fu ∷ []
    → find_plan_fu plan_id fu_id db ≡ some fu
    → let (r, db') = remove_fu c plan_id fu_id tenant_id db in
      (r ≡ ok tt) × (find_plan plan_id tenant_id db' ≡ some (record p { plan_fus = [] }))
unfolding remove_fu find_by_id or_throw throw_if remove_plan_fu recalculate recalculate_fus
remove_last_fu c plan_id fu_id tenant_id db p fu found draft only there =
    let emptied : select (λ g. not (g.id == fu.id)) p.plan_fus ≡ [] =
      rw only (rw (==_refl fu.id) refl) in
    let left =
      find-over_fus plan_id tenant_id (select (λ g. not (g.id == fu.id))) db found
      ∙ ap (λ fus. some (record p { plan_fus = fus })) emptied in
    rw found (rw draft (rw there (rw left (refl, left))))
