-- ===== src/Plans/Recalculation/Totals.antt =====
-- What a recalculation leaves behind: the totals of a plan are the sums over its rows.
use mathlib.Core.Path.{ap₂}
use collmind_backend.Base.{◌≡◌, refl, ◌∙◌, ap, List, [], ◌∷◌, ℤ, pos, ◌+ℤ◌, int_laws}
use collmind_backend.Entities.Plan.{Plan, PlanFu, PlanSku, Tactic}
use collmind_backend.Kpi.Aggregate.{each}
use collmind_backend.Plans.Recalculation.{Calculator, sum_by, fu_results, recalculated_fu, totalled}
use collmind_backend.Plans.Recalculation.Stable.{
  each_again, fu_results_stable, fu_stable, each_after, or_present_twice,
}

-- The sum over all SKUs of the FUs.
abbrev pub all_by : (PlanSku → ℤ) → List PlanFu → ℤ
all_by f [] = pos 0
all_by f (fu ∷ fus) = sum_by f fu.plan_skus (pos 0) +ℤ all_by f fus

-- The stored totals of the plan are the sums over the stored rows of its FUs and SKUs.
pub record Settled (p : Plan) : Type 0 where
  pub spend : p.total_spend ≡ sum_by (λ fu. fu.total_spend) p.plan_fus (pos 0)
  pub gp : p.total_gp ≡ all_by (λ s. s.planned_gp) p.plan_fus
  pub volume : p.total_planned_volume ≡ all_by (λ s. s.planned_volume) p.plan_fus

sum_by-add {ℓ} :
    {A : Type ℓ} (f : A → ℤ) (as' : List A) (sum : ℤ)
    → sum_by f as' sum ≡ sum +ℤ sum_by f as' (pos 0)
unfolding sum_by
sum_by-add f [] sum = omega int_laws
sum_by-add f (a ∷ as') sum =
    rw (sum_by-add f as' (sum +ℤ f a)) (grind (int_laws, sum_by-add f as' (pos 0 +ℤ f a)))

zero_add : (a : ℤ) → pos 0 +ℤ a ≡ a
zero_add a = omega int_laws

module _ (c : Calculator) (tactics : List Tactic) where
  -- The rows of a plan behind a recalculation.
  abbrev pub recalculated : Plan → Plan
  recalculated p =
      let fus = each (recalculated_fu c tactics) p.plan_fus in
      totalled c (each (fu_results c tactics) p.plan_fus) fus (record p { plan_fus = fus })

  sum_rows :
      (total : PlanFu → ℤ) (f : PlanSku → ℤ) (fus : List PlanFu)
      → ((fu : PlanFu)
          → total (recalculated_fu c tactics fu)
            ≡ sum_by f (recalculated_fu c tactics fu).plan_skus (pos 0))
      → sum_by total (each (recalculated_fu c tactics) fus) (pos 0)
        ≡ all_by f (each (recalculated_fu c tactics) fus)
  unfolding sum_by
  sum_rows total f [] own = refl
  sum_rows total f (fu ∷ fus) own =
      let next = recalculated_fu c tactics fu in
      sum_by-add total (each (recalculated_fu c tactics) fus) (pos 0 +ℤ total next)
      ∙ ap₂ ◌+ℤ◌ (zero_add (total next) ∙ own fu) (sum_rows total f fus own)

  pub recalculated-Settled : (p : Plan) → Settled (recalculated p)
  unfolding totalled recalculated_fu
  recalculated-Settled p = record {
    spend = refl;
    gp = sum_rows (λ fu. fu.total_gp) (λ s. s.planned_gp) p.plan_fus (λ fu. refl);
    volume =
        sum_rows (λ fu. fu.total_planned_volume) (λ s. s.planned_volume) p.plan_fus (λ fu. refl);
  }

  pub recalculated_again : (p : Plan) → recalculated (recalculated p) ≡ recalculated p
  unfolding totalled
  recalculated_again p =
      let next = recalculated p in
      let fus = each (recalculated_fu c tactics) p.plan_fus in
      ap₂ (λ r rows. totalled c r rows (record next { plan_fus = rows }))
        (each_after (recalculated_fu c tactics) (fu_results c tactics) p.plan_fus
          (fu_results_stable c tactics))
        (each_again (recalculated_fu c tactics) p.plan_fus (fu_stable c tactics))
      ∙ ap (λ roi. record next { overall_roi = roi }) (or_present_twice _ p.overall_roi)
