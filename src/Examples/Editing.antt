-- ===== src/Examples/Editing.antt =====
-- The editing of a draft plan.
use collmind_backend.Base.{
  ◌⊎◌, false, ◌≡◌, refl, ℕ, Text, codes, none, some, [], pos, ◌+ℤ◌, leb_ℤ, if◌then◌else◌, text_eq,
  is_prefix, inr, update_where, ◌==◌,
}
use collmind_backend.Entities.Plan.{PlanFu, PlanSku}
use collmind_backend.Entities.Catalogue.{Catalogue}
use collmind_backend.Db.{sku_deleted, Error, ok}
use collmind_backend.Db.Ends.{Ends}
use collmind_backend.Kpi.Aggregate.{each}
use collmind_backend.Plans.Repository.{find_plan}
use collmind_backend.Plans.Repository.Rows.{find_plan_fu, find_plan_sku, over_skus}
use collmind_backend.Plans.Spend.{
  calculate_spend_breakdown, add_fus, add_tactics, add_tactic, tactic_of, is_off_invoice,
  tactic_spend, includes, turnover_from,
}
use collmind_backend.Plans.Recalculation.{skus_there, Calculator, recalculate, sum_by}
use collmind_backend.Plans.Recalculation.Totals.{Settled}
use collmind_backend.Plans.Recalculation.Outcome.{recalculate_again}
use collmind_backend.Plans.Editing.{UpdateSkuVolumeDto, changed_sku, update_sku_volume, remove_fu}
use collmind_backend.Plans.Editing.Outcome.{Edited, update_sku_volume_outcome}
use collmind_backend.Plans.Editing.Runs.{
  IsConsistent, done, volume_updated, fu_removed, run-IsConsistent,
}
use collmind_backend.Plans.Editing.Removal.{remove_last_fu}
use collmind_backend.Examples.Data.{tenant, draft_plan, fu, shop, products}

abbrev calculator : Calculator
calculator = record {
  products = products;
  share = λ spend volume total. spend;
  roi = λ gp spend. gp;
  numbers = record {
    zero = pos 0;
    plus = λ a b. a +ℤ b;
    over = λ a n. a;
    smaller = λ a b. if leb_ℤ a b then a else b;
    larger = λ a b. if leb_ℤ a b then b else a;
    at_least = λ a b. leb_ℤ b a;
  };
  evaluation = record { evaluate = λ type text vs. none; to_number = λ v. some v };
  kpis = [];
}

abbrev catalogue : Catalogue
catalogue = record { units = []; skus = []; channels = []; categories = [] }

abbrev months : ℕ → Text
months date = codes "2025-03"

abbrev more : UpdateSkuVolumeDto
more = record { base_volume = none; planned_volume = some (pos 20) }

drafted : find_plan 60 tenant shop ≡ some draft_plan
unfolding find_plan
drafted = refl

settled : Settled draft_plan
unfolding calculate_spend_breakdown add_fus add_tactics add_tactic tactic_of is_off_invoice
    tactic_spend includes turnover_from is_prefix text_eq sum_by ◌+ℤ◌
settled = record { spend = refl; gp = refl; volume = refl }

run-IsConsistent_example :
    IsConsistent calculator catalogue months 60 tenant
      (remove_fu calculator 60 80 tenant
        (update_sku_volume calculator 60 80 81 more tenant shop).1).1
run-IsConsistent_example =
    run-IsConsistent calculator catalogue months 60 tenant
      (volume_updated 80 81 more (fu_removed 80 done)) (draft_plan, drafted, refl, inr settled)

recalculate_again_example :
    Ends
      (λ _ db1.
        Ends
          (λ _ db2. find_plan 60 tenant db2 ≡ find_plan 60 tenant db1)
          (λ e db2. ⊥)
          (recalculate calculator 60 tenant db1))
      (λ e db1. ⊥)
      (recalculate calculator 60 tenant shop)
recalculate_again_example = recalculate_again calculator 60 tenant shop draft_plan drafted refl

update_sku_volume_outcome_example :
    Ends
      (λ _ db'.
        (f : PlanFu) × (s : PlanSku) × (find_plan_fu 60 80 shop ≡ some f)
        × (find_plan_sku f.id 81 shop ≡ some s)
        × Edited calculator 60 tenant shop draft_plan
            (each (over_skus (update_where (λ t. t.id == s.id) (changed_sku more s))))
            db')
      (λ e db'.
        (db' ≡ shop) ⊎ ((e ≡ Error.plain sku_deleted) × (skus_there draft_plan.plan_fus ≡ false)))
      (update_sku_volume calculator 60 80 81 more tenant shop)
update_sku_volume_outcome_example =
    update_sku_volume_outcome calculator 60 tenant shop draft_plan drafted 80 81 more

remove_last_fu_example :
    let (r, db') = remove_fu calculator 60 80 tenant shop in
    (r ≡ ok tt) × (find_plan 60 tenant db' ≡ some (record draft_plan { plan_fus = [] }))
unfolding find_plan_fu
remove_last_fu_example =
    remove_last_fu calculator 60 80 tenant shop draft_plan fu drafted refl refl refl
