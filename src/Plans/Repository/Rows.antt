-- ===== src/Plans/Repository/Rows.antt =====
-- plan.repository.ts: the FUs of a plan and their SKUs, which the model keeps in the plan's row.
pub mod Present
use collmind_backend.Base.{
  ◌≡◌, refl, Uuid, Text, Bool, true, false, ◌&&◌, ◌||◌, not, Option, none, some, List, [], ◌∷◌,
  ◌++◌, ◌==◌, find, exists, select, update_where, if◌then◌else◌, ℤ, pos, arith,
}
use collmind_backend.Entities.Plan.{Plan, PlanFu, PlanSku}
use collmind_backend.Entities.Catalogue.{Sku}
use collmind_backend.Db.{
  Db, Action, Error, plan_fu_lost, plan_sku_lost, ok, ◌>>=◌, ◌>>◌, query, throw_if, write, return,
  new_id,
}
use collmind_backend.Kpi.Aggregate.{each}
use collmind_backend.Plans.Repository.{find_plan, is_live_plan}

abbrev pub with_fus : (List PlanFu → List PlanFu) → Plan → Plan
with_fus change p = record p { plan_fus = change p.plan_fus }

-- A write to the FUs, whichever plan they are of.
abbrev pub over_fus : (List PlanFu → List PlanFu) → Db → Db
over_fus change db = record db { plans = each (with_fus change) db.plans }

abbrev pub over_fu : Uuid → (PlanFu → PlanFu) → Db → Db
over_fu id change = over_fus (update_where (λ fu. fu.id == id) change)

abbrev pub over_skus : (List PlanSku → List PlanSku) → PlanFu → PlanFu
over_skus change fu = record fu { plan_skus = change fu.plan_skus }

abbrev pub over_sku : Uuid → (PlanSku → PlanSku) → Db → Db
over_sku id change = over_fus (each (over_skus (update_where (λ s. s.id == id) change)))

abbrev pub fu_of : Uuid → Option Plan → Option PlanFu
fu_of fu_id none = none
fu_of fu_id (some p) = find (λ fu. fu.fu_id == fu_id) p.plan_fus

-- `findPlanFu`: by the id of the plan alone.
unfoldable pub find_plan_fu : Uuid → Uuid → Db → Option PlanFu
find_plan_fu plan_id fu_id db = fu_of fu_id (find (λ p. p.id == plan_id) db.plans)

abbrev pub in_plan : Uuid → (List PlanFu → List PlanFu) → Db → Db
in_plan plan_id change db = record db {
  plans = update_where (λ p. p.id == plan_id) (with_fus change) db.plans;
}

abbrev pub new_fu : Uuid → Uuid → Option (List (Text × ℤ)) → PlanFu
new_fu id fu_id tactics = record {
  id = id;
  fu_id = fu_id;
  tactics = tactics;
  total_planned_volume = pos 0;
  total_spend = pos 0;
  total_gp = pos 0;
  gp_roi = none;
  rag_status = none;
  plan_skus = [];
}

-- `addFu`.
unfoldable pub add_plan_fu : Uuid → Uuid → Option (List (Text × ℤ)) → Action PlanFu
add_plan_fu plan_id fu_id tactics = do
  id ← new_id
  let fu = new_fu id fu_id tactics
  write (in_plan plan_id (λ fus. fus ++ (fu ∷ [])))
  return fu

-- `updatePlanFu`. The row is read back by its id; what is read back is not used.
unfoldable pub update_plan_fu : Uuid → (PlanFu → PlanFu) → Action (Unit {0})
update_plan_fu plan_fu_id change = do
  write (over_fu plan_fu_id change)
  there ← query (λ db. exists (λ p. exists (λ fu. fu.id == plan_fu_id) p.plan_fus) db.plans)
  throw_if (not there) (Error.plain plan_fu_lost)

-- `removeFu`.
unfoldable pub remove_plan_fu : Uuid → Action (Unit {0})
remove_plan_fu plan_fu_id = write (over_fus (select (λ fu. not (fu.id == plan_fu_id))))

-- A SKU that `addSku` adds without volumes, with the columns' defaults.
abbrev pub new_sku : Uuid → Sku → PlanSku
new_sku id sku = record {
  id = id;
  sku_id = sku.id;
  sku_there = true;
  base_volume = none;
  planned_volume = pos 0;
  incremental_volume = pos 0;
  unit_price = sku.unit_price;
  cogs = sku.cogs;
  planned_turnover = pos 0;
  tactic_spend = pos 0;
  planned_gp = pos 0;
  gp_roi = none;
  rag_status = none;
}

-- `addSku`.
unfoldable pub add_plan_sku : Uuid → Sku → Action (Unit {0})
add_plan_sku plan_fu_id sku = do
  id ← new_id
  write (over_fu plan_fu_id (over_skus (λ skus. skus ++ (new_sku id sku ∷ []))))

-- The SKU of an FU, wherever the FU is.
unfoldable pub sku_of_fus : Uuid → Uuid → List PlanFu → Option PlanSku
sku_of_fus plan_fu_id sku_id [] = none
sku_of_fus plan_fu_id sku_id (fu ∷ fus) =
    let rest = sku_of_fus plan_fu_id sku_id fus in
    if fu.id == plan_fu_id then find (λ s. s.sku_id == sku_id) fu.plan_skus else rest

abbrev or_first {ℓ} : {A : Type ℓ} → Option A → Option A → Option A
or_first none o = o
or_first (some a) o = some a

unfoldable pub sku_of_plans : Uuid → Uuid → List Plan → Option PlanSku
sku_of_plans plan_fu_id sku_id [] = none
sku_of_plans plan_fu_id sku_id (p ∷ plans) =
    or_first (sku_of_fus plan_fu_id sku_id p.plan_fus) (sku_of_plans plan_fu_id sku_id plans)

-- `findPlanSku`.
abbrev pub find_plan_sku : Uuid → Uuid → Db → Option PlanSku
find_plan_sku plan_fu_id sku_id db = sku_of_plans plan_fu_id sku_id db.plans

-- `updatePlanSku`. The row is read back by its id; what is read back is not used.
unfoldable pub update_plan_sku : Uuid → (PlanSku → PlanSku) → Action (Unit {0})
update_plan_sku plan_sku_id change = do
  write (over_sku plan_sku_id change)
  there ← query λ db.
      exists (λ p. exists (λ fu. exists (λ s. s.id == plan_sku_id) fu.plan_skus) p.plan_fus)
        db.plans
  throw_if (not there) (Error.plain plan_sku_lost)
