-- ===== src/Plans/Recalculation.antt =====
-- plan.service.ts: `recalculatePlanWithKpiEngine`, from the SKUs over the FUs to the plan.
pub mod Totals
pub mod Outcome
pub mod Stable
use collmind_backend.Base.{
  every, Uuid, Text, codes, Bool, true, false, Option, none, some, List, [], ◌∷◌, if◌then◌else◌, ℤ,
  pos, ◌+ℤ◌, ◌-ℤ◌, ltb_ℤ,
}
use collmind_backend.Entities.Plan.{Plan, PlanFu, PlanSku, Tactic}
use collmind_backend.Db.{Error, sku_deleted, throw, Action, ◌>>=◌, ◌>>◌, query, write, return}
use collmind_backend.Allocations.Service.{or_else, or_present}
use collmind_backend.Kpi.Maps.{get}
use collmind_backend.Kpi.Rows.{Kpi}
use collmind_backend.Kpi.Aggregate.{Numbers, Rag, values, each, is_red, is_amber, includes_rag}
use collmind_backend.Kpi.Engine.{
  Evaluation, CalculationResult, Results, Context, value_in, calculate_sku, calculate_fu,
  calculate_plan,
}
use collmind_backend.Plans.Repository.{with_plan, update_plan}
use collmind_backend.Plans.Service.{find_by_id}
use collmind_backend.Plans.Spend.{Products, tenant_tactics, entries, calculate_fu_tactic_spend}

-- What a recalculation works with. `share spend volume total` is `spend * (volume / total)` and
-- `roi gp spend` is `(gp / spend) * 100`, in floating point and rounded to hundredths; `kpis` are
-- the active KPIs of the tenant, as the cache of the engine gives them; with no KPIs every result
-- is empty, as the code has it where the engine throws.
pub record Calculator : Type 0 where
  pub products : Products
  pub share : ℤ → ℤ → ℤ → ℤ
  pub roi : ℤ → ℤ → ℤ
  pub numbers : Numbers ℤ
  pub evaluation : Evaluation ℤ
  pub kpis : List (Kpi ℤ)

abbrev roi_code : Text
roi_code = codes "GP_ROI_PCT"

-- The `reduce` over the planned volumes.
unfoldable pub volume_from : ℤ → List PlanSku → ℤ
volume_from sum [] = sum
volume_from sum (s ∷ skus) = volume_from (sum +ℤ s.planned_volume) skus

-- `Number(planSku.baseVolume) || 0`.
abbrev pub base_volume_of : PlanSku → ℤ
base_volume_of s = or_else s.base_volume (pos 0)

-- `gpRoi < 0` and `gpRoi < 15`.
abbrev by_roi : Option ℤ → Rag
by_roi none = Rag.green
by_roi (some r) =
    if ltb_ℤ r (pos 0) then Rag.red else if ltb_ℤ r (pos 1500) then Rag.amber else Rag.green

abbrev pub rag_for : Option (CalculationResult ℤ) → Option ℤ → Rag
rag_for none roi = by_roi roi
rag_for (some r) roi = or_else r.rag_status Rag.green

abbrev tactic_values : List (Text × ℤ) → Context ℤ
tactic_values [] = []
tactic_values ((code, value) ∷ rest) = (code, some value) ∷ tactic_values rest

-- The sums over the rows of an FU, and over the FUs of a plan.
unfoldable pub sum_by {ℓ} : {A : Type ℓ} → (A → ℤ) → List A → ℤ → ℤ
sum_by f [] sum = sum
sum_by f (a ∷ as') sum = sum_by f as' (sum +ℤ f a)

abbrev worst_fu : List Rag → Rag
worst_fu rags =
    if includes_rag is_red rags
    then Rag.red
    else if includes_rag is_amber rags
    then Rag.amber
    else Rag.green

abbrev plan_rag : Option (CalculationResult ℤ) → List Rag → Rag
plan_rag none rags = worst_fu rags
plan_rag (some r) rags = or_else r.rag_status Rag.green

-- All SKUs of an FU, and of FUs, are loaded.
abbrev pub fu_there : PlanFu → Bool
fu_there fu = every (λ s. s.sku_there) fu.plan_skus

abbrev pub skus_there : List PlanFu → Bool
skus_there fus = every fu_there fus

module _ (c : Calculator) where
  -- `fuTacticTotalSpend * skuShareRatio`.
  abbrev pub sku_spend : ℤ → ℤ → PlanSku → ℤ
  sku_spend spend total s =
      if ltb_ℤ (pos 0) total then c.share spend s.planned_volume total else pos 0

  abbrev pub basic_gp : ℤ → PlanSku → ℤ
  basic_gp spend s =
      (c.products.times s.planned_volume s.unit_price -ℤ c.products.times s.planned_volume s.cogs)
      -ℤ spend

  -- `spend > 0 ? (gp / spend) * 100 : null`.
  abbrev basic_roi : ℤ → ℤ → Option ℤ
  basic_roi gp spend = if ltb_ℤ (pos 0) spend then some (c.roi gp spend) else none

  -- `results['GP_ROI_PCT']?.value ?? …`.
  abbrev pub roi_of : Results ℤ → ℤ → ℤ → Option ℤ
  roi_of results gp spend =
      or_present (value_in c.numbers c.evaluation roi_code results) (basic_roi gp spend)

  -- The context of a SKU with its share of the spend.
  unfoldable pub sku_context : ℤ → PlanSku → Context ℤ
  sku_context spend s =
      (codes "BASE_VOL", some (base_volume_of s))
      ∷ (codes "PLAN_VOL", some s.planned_volume)
      ∷ (codes "BPTT", some s.unit_price)
      ∷ (codes "COGS", some s.cogs)
      ∷ (codes "INCR_VOL", some (s.planned_volume -ℤ base_volume_of s))
      ∷ (codes "PLAN_TURNOVER", some (c.products.times s.planned_volume s.unit_price))
      ∷ (codes "TACTIC_SPEND", some spend)
      ∷ (codes "BASE_TURNOVER", some (c.products.times (base_volume_of s) s.unit_price))
      ∷ (codes "PLAN_COGS", some (c.products.times s.planned_volume s.cogs))
      ∷ (codes "GP", some (basic_gp spend s))
      ∷ []

  abbrev pub sku_results : ℤ → ℤ → PlanSku → Results ℤ
  sku_results spend total s =
      calculate_sku c.numbers c.evaluation c.kpis (sku_context (sku_spend spend total s) s)

  -- The row that `updatePlanSku` leaves. An undefined `gpRoi` is not written.
  abbrev pub sku_row : Results ℤ → ℤ → PlanSku → PlanSku
  sku_row results spend s =
      let gp = or_else (value_in c.numbers c.evaluation (codes "GP") results) (basic_gp spend s) in
      let roi = roi_of results gp spend in
      record s {
        incremental_volume = s.planned_volume -ℤ base_volume_of s;
        planned_turnover = c.products.times s.planned_volume s.unit_price;
        tactic_spend = spend;
        planned_gp = gp;
        gp_roi = or_present roi s.gp_roi;
        rag_status = some (rag_for (get roi_code results) roi);
      }

  unfoldable pub recalculated_sku : ℤ → ℤ → PlanSku → PlanSku
  recalculated_sku spend total s = sku_row (sku_results spend total s) (sku_spend spend total s) s

  unfoldable pub fu_results : List Tactic → PlanFu → Results ℤ
  fu_results tactics fu =
      let spend = calculate_fu_tactic_spend c.products fu tactics in
      let total = volume_from (pos 0) fu.plan_skus in
      calculate_fu c.numbers c.evaluation c.kpis (each (sku_results spend total) fu.plan_skus)
        (tactic_values (entries c.products fu.tactics))

  -- The row that `updatePlanFu` leaves, over the rows of its SKUs.
  abbrev pub fu_row : Results ℤ → ℤ → List PlanSku → PlanFu → PlanFu
  fu_row results spend skus fu =
      let gp = sum_by (λ s. s.planned_gp) skus (pos 0) in
      let roi = roi_of results gp spend in
      record fu {
        total_planned_volume = sum_by (λ s. s.planned_volume) skus (pos 0);
        total_spend = spend;
        total_gp = gp;
        gp_roi = or_present roi fu.gp_roi;
        rag_status = some (rag_for (get roi_code results) roi);
        plan_skus = skus;
      }

  unfoldable pub recalculated_fu : List Tactic → PlanFu → PlanFu
  recalculated_fu tactics fu =
      let spend = calculate_fu_tactic_spend c.products fu tactics in
      let total = volume_from (pos 0) fu.plan_skus in
      fu_row (fu_results tactics fu) spend (each (recalculated_sku spend total) fu.plan_skus) fu

  -- The row that `update` leaves, with the results of the FUs and their updated rows.
  unfoldable pub totalled : List (Results ℤ) → List PlanFu → Plan → Plan
  totalled all fus plan =
      let results = calculate_plan c.numbers c.evaluation c.kpis all in
      let spend = sum_by (λ fu. fu.total_spend) fus (pos 0) in
      let gp = sum_by (λ fu. fu.total_gp) fus (pos 0) in
      record plan {
        total_planned_volume = sum_by (λ fu. fu.total_planned_volume) fus (pos 0);
        total_spend = spend;
        total_gp = gp;
        overall_roi = or_present (roi_of results gp spend) plan.overall_roi;
        rag_red =
            is_red (plan_rag (get roi_code results) (values (each (λ fu. fu.rag_status) fus)));
      }

  -- The rows that are written before a SKU is met that is not there: `sku.unitPrice` throws on it.
  unfoldable pub skus_before : ℤ → ℤ → List PlanSku → List PlanSku
  skus_before spend total [] = []
  skus_before spend total (s ∷ skus) =
      let rest = skus_before spend total skus in
      if s.sku_there then recalculated_sku spend total s ∷ rest else s ∷ skus

  unfoldable pub fus_before : List Tactic → List PlanFu → List PlanFu
  fus_before tactics [] = []
  fus_before tactics (fu ∷ fus) =
      let rest = fus_before tactics fus in
      let spend = calculate_fu_tactic_spend c.products fu tactics in
      let total = volume_from (pos 0) fu.plan_skus in
      if fu_there fu
      then recalculated_fu tactics fu ∷ rest
      else record fu { plan_skus = skus_before spend total fu.plan_skus } ∷ fus

  -- The two loops and the totals. The updates of the FUs and the SKUs are one write here, as what
  -- is read between two of them is the row that was just written.
  unfoldable pub recalculate_rows : Uuid → Uuid → List Tactic → List PlanFu → Action (Unit {0})
  recalculate_rows plan_id tenant_id tactics fus = do
    write (
        with_plan plan_id tenant_id
          (λ p. record p { plan_fus = each (recalculated_fu tactics) fus }))
    updated ← find_by_id plan_id tenant_id
    update_plan plan_id tenant_id (totalled (each (fu_results tactics) fus) updated.plan_fus)
    return tt

  unfoldable pub stop_at_missing : Uuid → Uuid → List Tactic → List PlanFu → Action (Unit {0})
  stop_at_missing plan_id tenant_id tactics fus = do
    write (with_plan plan_id tenant_id (λ p. record p { plan_fus = fus_before tactics fus }))
    throw (Error.plain sku_deleted)

  -- `recalculatePlanWithKpiEngine`.
  unfoldable pub recalculate_fus : Uuid → Uuid → List PlanFu → Action (Unit {0})
  recalculate_fus plan_id tenant_id [] = return tt
  recalculate_fus plan_id tenant_id (fu ∷ fus) = do
    tactics ← query (tenant_tactics tenant_id)
    if skus_there (fu ∷ fus)
        then recalculate_rows plan_id tenant_id tactics (fu ∷ fus)
        else stop_at_missing plan_id tenant_id tactics (fu ∷ fus)

  unfoldable pub recalculate : Uuid → Uuid → Action (Unit {0})
  recalculate plan_id tenant_id = do
    plan ← find_by_id plan_id tenant_id
    recalculate_fus plan_id tenant_id plan.plan_fus
