-- ===== src/Plans/Recalculation/Stable.antt =====
-- A recalculation reads nothing that it writes, so a second one changes nothing.
use mathlib.Core.Path.{ap₂}
use collmind_backend.Base.{
  ◌≡◌, refl, ◌∙◌, ap, Text, Option, none, some, List, [], ◌∷◌, ℤ, pos, ◌+ℤ◌,
}
use collmind_backend.Entities.Plan.{PlanFu, PlanSku, Tactic}
use collmind_backend.Allocations.Service.{or_present}
use collmind_backend.Kpi.Aggregate.{each}
use collmind_backend.Plans.Spend.{
  turnover_from, tactic_spend, entries, fu_spend_from, calculate_fu_tactic_spend,
}
use collmind_backend.Plans.Recalculation.{
  Calculator, volume_from, sku_context, sku_results, recalculated_sku, fu_results, fu_row,
  recalculated_fu, tactic_values,
}
use collmind_backend.Kpi.Engine.{calculate_fu}

pub or_present_twice {ℓ} :
    {A : Type ℓ} (a b : Option A) → or_present a (or_present a b) ≡ or_present a b
or_present_twice none b = refl
or_present_twice (some a) b = refl

pub each_again {ℓ} :
    {A : Type ℓ} (f : A → A) (as' : List A)
    → ((a : A) → f (f a) ≡ f a)
    → each f (each f as') ≡ each f as'
each_again f [] again = refl
each_again f (a ∷ as') again = ap₂ ◌∷◌ (again a) (each_again f as' again)

pub each_after {ℓ κ} :
    {A : Type ℓ} {B : Type κ} (f : A → A) (g : A → B) (as' : List A)
    → ((a : A) → g (f a) ≡ g a)
    → each g (each f as') ≡ each g as'
each_after f g [] same = refl
each_after f g (a ∷ as') same = ap₂ ◌∷◌ (same a) (each_after f g as' same)

module _ (c : Calculator) where
  module _ (spend total : ℤ) where
    turnover_stable :
        (sum : ℤ) (skus : List PlanSku)
        → turnover_from c.products sum (each (recalculated_sku c spend total) skus)
          ≡ turnover_from c.products sum skus
    unfolding turnover_from recalculated_sku
    turnover_stable sum [] = refl
    turnover_stable sum (s ∷ skus) =
        turnover_stable (sum +ℤ c.products.times s.planned_volume s.unit_price) skus

    volume_stable :
        (sum : ℤ) (skus : List PlanSku)
        → volume_from sum (each (recalculated_sku c spend total) skus) ≡ volume_from sum skus
    unfolding volume_from recalculated_sku
    volume_stable sum [] = refl
    volume_stable sum (s ∷ skus) = volume_stable (sum +ℤ s.planned_volume) skus

    results_stable :
        (s : PlanSku)
        → sku_results c spend total (recalculated_sku c spend total s) ≡ sku_results c spend total s
    unfolding recalculated_sku sku_context
    results_stable s = refl

    sku_stable :
        (s : PlanSku)
        → recalculated_sku c spend total (recalculated_sku c spend total s)
          ≡ recalculated_sku c spend total s
    unfolding recalculated_sku sku_context
    sku_stable s =
        ap (λ roi. record (recalculated_sku c spend total s) { gp_roi = roi })
          (or_present_twice _ s.gp_roi)

  module _ (tactics : List Tactic) (fu : PlanFu) where
    fu_spend_stable :
        (es : List (Text × ℤ)) (sum : ℤ)
        → fu_spend_from c.products tactics (recalculated_fu c tactics fu) es sum
          ≡ fu_spend_from c.products tactics fu es sum
    unfolding fu_spend_from tactic_spend recalculated_fu
    fu_spend_stable [] sum = refl
    fu_spend_stable ((code, value) ∷ es) sum =
        rw (turnover_stable _ _ (pos 0) fu.plan_skus) (fu_spend_stable es _)

    pub spend_stable :
        calculate_fu_tactic_spend c.products (recalculated_fu c tactics fu) tactics
        ≡ calculate_fu_tactic_spend c.products fu tactics
    unfolding calculate_fu_tactic_spend recalculated_fu
    spend_stable = fu_spend_stable (entries c.products fu.tactics) (pos 0)

    abbrev spend : ℤ
    spend = calculate_fu_tactic_spend c.products fu tactics

    abbrev total : ℤ
    total = volume_from (pos 0) fu.plan_skus

    total_stable : volume_from (pos 0) (recalculated_fu c tactics fu).plan_skus ≡ total
    unfolding recalculated_fu
    total_stable = volume_stable spend total (pos 0) fu.plan_skus

    pub fu_results_stable :
        fu_results c tactics (recalculated_fu c tactics fu) ≡ fu_results c tactics fu
    unfolding fu_results recalculated_fu
    fu_results_stable =
        ap
          (λ r.
            calculate_fu c.numbers c.evaluation c.kpis r
              (tactic_values (entries c.products fu.tactics)))
          (ap₂ (λ sp t. each (sku_results c sp t) (recalculated_fu c tactics fu).plan_skus)
              spend_stable total_stable
            ∙ each_after (recalculated_sku c spend total) (sku_results c spend total) fu.plan_skus
                (results_stable spend total))

    pub fu_stable :
        recalculated_fu c tactics (recalculated_fu c tactics fu) ≡ recalculated_fu c tactics fu
    unfolding recalculated_fu
    fu_stable =
        let next = recalculated_fu c tactics fu in
        let skus = next.plan_skus in
        let results = fu_results c tactics fu in
        ap
          (λ r.
            fu_row c r (calculate_fu_tactic_spend c.products next tactics)
              (each
                (recalculated_sku c (calculate_fu_tactic_spend c.products next tactics)
                  (volume_from (pos 0) skus))
                skus)
              next)
          fu_results_stable
        ∙ ap₂ (λ sp t. fu_row c results sp (each (recalculated_sku c sp t) skus) next) spend_stable
            total_stable
        ∙ ap (λ rows. fu_row c results spend rows next)
            (each_again (recalculated_sku c spend total) fu.plan_skus (sku_stable spend total))
        ∙ ap (λ roi. record next { gp_roi = roi }) (or_present_twice _ fu.gp_roi)
