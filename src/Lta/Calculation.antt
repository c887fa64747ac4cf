-- ===== src/Lta/Calculation.antt =====
-- lta-calculation.service.ts: the spend of an SKU at the rates of its CPL.
use collmind_backend.Base.{Uuid, Option, none, some, ℤ, pos, ◌-ℤ◌, ℕ}
use collmind_backend.Db.{Db, Action, Error, plan_sku_missing, ◌>>=◌, query, or_throw, return}
use collmind_backend.Allocations.Service.{or_else}
use collmind_backend.Lta.Rates.{PlanContextDto, LtaContext, get_lta_for_plan_context}

-- The floating-point products, rounded to hundredths: `times` for a volume and a price, and
-- `share x v` for `(x * v) / 100`.
pub record LtaProducts : Type 0 where
  pub times : ℤ → ℤ → ℤ
  pub share : ℤ → ℤ → ℤ

pub record LtaSpendBreakdown : Type 0 where
  pub base_lta_on_invoice_spend : ℤ
  pub base_lta_off_invoice_spend : ℤ
  pub planned_lta_on_invoice_spend : ℤ
  pub planned_lta_off_invoice_spend : ℤ
  pub base_gsv : ℤ
  pub planned_gsv : ℤ
  pub base_volume : ℤ
  pub planned_volume : ℤ
  pub list_price : ℤ

-- What the query reads of the SKU of a plan.
pub record SkuOfPlan : Type 0 where
  pub base_volume : Option ℤ
  pub planned_volume : Option ℤ
  pub unit_price : Option ℤ

abbrev no_lta : LtaSpendBreakdown
no_lta = record {
  base_lta_on_invoice_spend = pos 0;
  base_lta_off_invoice_spend = pos 0;
  planned_lta_on_invoice_spend = pos 0;
  planned_lta_off_invoice_spend = pos 0;
  base_gsv = pos 0;
  planned_gsv = pos 0;
  base_volume = pos 0;
  planned_volume = pos 0;
  list_price = pos 0;
}

module _ (p : LtaProducts) where
  -- `(gsv * onPct) / 100`, and `((gsv - on) * offPct) / 100`.
  abbrev on_spend : ℤ → LtaContext → ℤ
  on_spend gsv c = p.share gsv c.final_on_invoice_pct

  abbrev off_spend : ℤ → LtaContext → ℤ
  off_spend gsv c = p.share (gsv -ℤ on_spend gsv c) c.final_off_invoice_pct

  abbrev base_of : SkuOfPlan → Option LtaContext → LtaSpendBreakdown
  base_of sku none = no_lta
  base_of sku (some c) =
      let volume = or_else sku.base_volume (pos 0) in
      let price = or_else sku.unit_price (pos 0) in
      let gsv = p.times volume price in
      record no_lta {
        base_lta_on_invoice_spend = on_spend gsv c;
        base_lta_off_invoice_spend = off_spend gsv c;
        base_gsv = gsv;
        base_volume = volume;
        list_price = price;
      }

  abbrev planned_of : SkuOfPlan → Option LtaContext → LtaSpendBreakdown
  planned_of sku none = no_lta
  planned_of sku (some c) =
      let volume = or_else sku.planned_volume (pos 0) in
      let price = or_else sku.unit_price (pos 0) in
      let gsv = p.times volume price in
      record no_lta {
        planned_lta_on_invoice_spend = on_spend gsv c;
        planned_lta_off_invoice_spend = off_spend gsv c;
        planned_gsv = gsv;
        planned_volume = volume;
        list_price = price;
      }

  module _ (find_sku : Uuid → Uuid → Uuid → Db → Option SkuOfPlan) (today : ℕ → ℕ) where
    -- `calculateBaseLTASpend` and `calculatePlannedLTASpend`, for a query that finds the SKU of a
    -- plan.
    unfoldable pub calculate_base_lta_spend :
        Uuid → Uuid → Uuid → PlanContextDto → Action LtaSpendBreakdown
    calculate_base_lta_spend tenant_id plan_id sku_id context = do
      found ← query (find_sku tenant_id plan_id sku_id)
      sku ← or_throw (Error.plain plan_sku_missing) found
      lta ←
          query (λ db. get_lta_for_plan_context tenant_id context (some plan_id) (today db.now) db)
      return (base_of sku lta)

    unfoldable pub calculate_planned_lta_spend :
        Uuid → Uuid → Uuid → PlanContextDto → Action LtaSpendBreakdown
    calculate_planned_lta_spend tenant_id plan_id sku_id context = do
      found ← query (find_sku tenant_id plan_id sku_id)
      sku ← or_throw (Error.plain plan_sku_missing) found
      lta ←
          query (λ db. get_lta_for_plan_context tenant_id context (some plan_id) (today db.now) db)
      return (planned_of sku lta)
