-- ===== src/Plans/Editing.antt =====
-- plan.service.ts: the editing of a draft plan, with the recalculation behind each change.
pub mod Outcome
pub mod Runs
pub mod Removal
use collmind_backend.Base.{
  ℕ, Uuid, Text, Bool, true, false, ◌&&◌, ◌||◌, not, Option, none, some, List, [], ◌∷◌, ◌==◌, find,
  select, if◌then◌else◌, ℤ, pos, ◌-ℤ◌, leb_ℤ,
}
use collmind_backend.Entities.Plan.{Plan, PlanFu, PlanSku, PlanStatus, same_status}
use collmind_backend.Entities.Catalogue.{Catalogue, ForecastingUnit, Sku, Channel, Category}
use collmind_backend.Db.{
  Action, Error, plan_not_draft, fu_not_found, fu_not_plannable, fu_in_plan, fu_not_in_plan,
  sku_not_in_plan, ◌>>=◌, ◌>>◌, query, or_throw, throw_if, return,
}
use collmind_backend.Allocations.Service.{or_else, or_present}
use collmind_backend.Plans.Repository.{update_plan}
use collmind_backend.Plans.Repository.Rows.{
  find_plan_fu, find_plan_sku, add_plan_fu, update_plan_fu, remove_plan_fu, add_plan_sku,
  update_plan_sku,
}
use collmind_backend.Plans.Service.{find_by_id}
use collmind_backend.Plans.Recalculation.{Calculator, recalculate}

-- `UpdatePlanDto`, without the name, the description and the region, which no modelled code reads.
pub record UpdatePlanDto : Type 0 where
  pub cpl_id : Option Uuid
  pub channel_id : Option Uuid
  pub category_id : Option Uuid
  pub start_date : Option ℕ
  pub end_date : Option ℕ
  pub comments : Option Text

pub record AddFuDto : Type 0 where
  pub fu_id : Uuid
  pub tactics : Option (List (Text × ℤ))

pub record UpdateSkuVolumeDto : Type 0 where
  pub base_volume : Option ℤ
  pub planned_volume : Option ℤ

-- `fuRepo.findOne({ where: { id, tenantId } })`.
pub find_fu : Uuid → Uuid → List ForecastingUnit → Option ForecastingUnit
find_fu id tenant_id units =
    find (λ fu. (fu.id == id) && (fu.tenant_id == tenant_id) && not fu.deleted) units

abbrev is_id : Option Uuid → Uuid → Bool
is_id none id = false
is_id (some a) id = a == id

-- `skuRepo.findBy({ fuId, tenantId, isActive: true })`.
active_skus : Uuid → Uuid → List Sku → List Sku
active_skus fu_id tenant_id skus =
    select (λ s. is_id s.fu_id fu_id && (s.tenant_id == tenant_id) && s.is_active && not s.deleted)
      skus

abbrev period_of : (ℕ → Text) → Option ℕ → Text → Text
period_of month_of none old = old
period_of month_of (some date) old = month_of date

abbrev code_of : Option Channel → Option Text
code_of none = none
code_of (some c) = some c.code

abbrev name_of : Option Channel → Option Text
name_of none = none
name_of (some c) = some c.name

abbrev category_code_of : Option Category → Option Text
category_code_of none = none
category_code_of (some c) = some c.code

module _ (catalogue : Catalogue) where
  -- The relations `channel` and `category`, which are loaded again when the row is read back.
  abbrev with_relations : Plan → Plan
  with_relations p =
      let channel = find (λ x. x.id == p.channel_id) catalogue.channels in
      record p {
        channel_code = code_of channel;
        channel_name = name_of channel;
        category_code = category_code_of (find (λ x. x.id == p.category_id) catalogue.categories);
      }

  -- The row that `update` writes. `month_of` prints the year and the month of a date, in the time
  -- zone of the server.
  pub changed_plan : (ℕ → Text) → UpdatePlanDto → Uuid → Plan → Plan
  changed_plan month_of dto user_id p = with_relations (record p {
    cpl_id = or_else dto.cpl_id p.cpl_id;
    channel_id = or_else dto.channel_id p.channel_id;
    category_id = or_else dto.category_id p.category_id;
    comments = or_present dto.comments p.comments;
    updated_by = some user_id;
    period_month = period_of month_of dto.start_date p.period_month;
    start_date = or_else dto.start_date p.start_date;
    end_date = or_else dto.end_date p.end_date;
  })

  -- `update`.
  pub update : (ℕ → Text) → Uuid → UpdatePlanDto → Uuid → Uuid → Action Plan
  update month_of id dto tenant_id user_id = do
    plan ← find_by_id id tenant_id
    throw_if (not (same_status plan.status PlanStatus.draft)) (Error.bad_request plan_not_draft)
    update_plan id tenant_id (changed_plan month_of dto user_id)

-- `if (existing) throw …`.
abbrev pub is_present {ℓ} : {A : Type ℓ} → Option A → Bool
is_present none = false
is_present (some a) = true

-- `dto.plannedVolume && …`: a zero of the request counts as missing.
abbrev truthy : Option ℤ → Option ℤ
truthy none = none
truthy (some v) = if leb_ℤ v (pos 0) && leb_ℤ (pos 0) v then none else some v

-- The planned volume and the base volume of the request, the stored base volume, and the stored
-- increment. A stored volume is a decimal, which arrives as a text and is truthy even at zero.
incremental_for : Option ℤ → Option ℤ → Option ℤ → ℤ → ℤ
incremental_for none base stored old = old
incremental_for (some planned) (some base) stored old = planned -ℤ base
incremental_for (some planned) none (some stored) old = planned -ℤ stored
incremental_for (some planned) none none old = old

pub changed_sku : UpdateSkuVolumeDto → PlanSku → PlanSku → PlanSku
changed_sku dto read s = record s {
  base_volume = or_present dto.base_volume read.base_volume;
  planned_volume = or_else dto.planned_volume read.planned_volume;
  incremental_volume =
      incremental_for (truthy dto.planned_volume) (truthy dto.base_volume) read.base_volume
        read.incremental_volume;
}

-- The SKUs of the FU, one after the other.
unfoldable pub add_skus : Uuid → List Sku → Action (Unit {0})
add_skus plan_fu_id [] = return tt
add_skus plan_fu_id (s ∷ skus) = do add_plan_sku plan_fu_id s; add_skus plan_fu_id skus

module _ (c : Calculator) (catalogue : Catalogue) where
  -- `addFu`.
  pub add_fu : Uuid → AddFuDto → Uuid → Action (Option PlanFu)
  add_fu plan_id dto tenant_id = do
    plan ← find_by_id plan_id tenant_id
    throw_if (not (same_status plan.status PlanStatus.draft)) (Error.bad_request plan_not_draft)
    fu ← or_throw (Error.not_found fu_not_found) (find_fu dto.fu_id tenant_id catalogue.units)
    throw_if (not fu.is_plannable) (Error.bad_request fu_not_plannable)
    existing ← query (find_plan_fu plan_id dto.fu_id)
    throw_if (is_present existing) (Error.conflict fu_in_plan)
    plan_fu ← add_plan_fu plan_id dto.fu_id dto.tactics
    add_skus plan_fu.id (active_skus dto.fu_id tenant_id catalogue.skus)
    recalculate c plan_id tenant_id
    query (find_plan_fu plan_id dto.fu_id)

module _ (c : Calculator) where
  -- `updateFuTactic`.
  pub update_fu_tactic : Uuid → Uuid → Option (List (Text × ℤ)) → Uuid → Action (Option PlanFu)
  update_fu_tactic plan_id fu_id tactics tenant_id = do
    plan ← find_by_id plan_id tenant_id
    throw_if (not (same_status plan.status PlanStatus.draft)) (Error.bad_request plan_not_draft)
    found ← query (find_plan_fu plan_id fu_id)
    plan_fu ← or_throw (Error.not_found fu_not_in_plan) found
    update_plan_fu plan_fu.id (λ fu. record fu { tactics = or_present tactics plan_fu.tactics })
    recalculate c plan_id tenant_id
    query (find_plan_fu plan_id fu_id)

  -- `updateSkuVolume`.
  pub update_sku_volume : Uuid → Uuid → Uuid → UpdateSkuVolumeDto → Uuid → Action (Option PlanSku)
  update_sku_volume plan_id fu_id sku_id dto tenant_id = do
    plan ← find_by_id plan_id tenant_id
    throw_if (not (same_status plan.status PlanStatus.draft)) (Error.bad_request plan_not_draft)
    found ← query (find_plan_fu plan_id fu_id)
    plan_fu ← or_throw (Error.not_found fu_not_in_plan) found
    found_sku ← query (find_plan_sku plan_fu.id sku_id)
    plan_sku ← or_throw (Error.not_found sku_not_in_plan) found_sku
    update_plan_sku plan_sku.id (changed_sku dto plan_sku)
    recalculate c plan_id tenant_id
    query (find_plan_sku plan_fu.id sku_id)

  -- `removeFu`.
  pub remove_fu : Uuid → Uuid → Uuid → Action (Unit {0})
  remove_fu plan_id fu_id tenant_id = do
    plan ← find_by_id plan_id tenant_id
    throw_if (not (same_status plan.status PlanStatus.draft)) (Error.bad_request plan_not_draft)
    found ← query (find_plan_fu plan_id fu_id)
    plan_fu ← or_throw (Error.not_found fu_not_in_plan) found
    remove_plan_fu plan_fu.id
    recalculate c plan_id tenant_id
