-- ===== src/Examples/Kpis.antt =====
-- Two KPIs, over whole numbers that are rounded down.
use collmind_backend.Base.{
  ℕ, ◌+◌, ◌≡◌, refl, Text, codes, text_eq, true, false, none, some, List, [], ◌∷◌, leb,
  if◌then◌else◌,
}
use collmind_backend.Kpi.Maps.{get}
use collmind_backend.Kpi.Rows.{FormulaType, CalculationLevel, DisplayFormat, AggregationMethod, Kpi}
use collmind_backend.Kpi.Aggregate.{Numbers, Rag, each, worst}
use collmind_backend.Kpi.Engine.{
  Evaluation, CalculationResult, Context, result_of, calculated, calculate_sku, calculate_fu,
  calculate_plan, value_in, rag_in, rags_of,
}
use collmind_backend.Kpi.Engine.Order.{context_after, sku_level, get-calculate_sku}
use collmind_backend.Kpi.Engine.Rags.{FuInput, AllRated, all_skus, plan_status_is_worst}
use collmind_backend.Kpi.Cache.{EngineState}
use collmind_backend.Examples.Data.{tenant}

abbrev numbers : Numbers ℕ
numbers = record {
  zero = 0;
  plus = λ a b. a + b;
  over = λ a n. a;
  smaller = λ a b. if leb a b then a else b;
  larger = λ a b. if leb a b then b else a;
  at_least = λ a b. leb b a;
}

-- Each formula adds its dependencies.
abbrev add_up : List (Text × ℕ) → ℕ
add_up [] = 0
add_up ((code, v) ∷ vs) = v + add_up vs

abbrev sums : Evaluation ℕ
sums = record { evaluate = λ type text vs. some (add_up vs); to_number = λ v. some v }

abbrev net : Kpi ℕ
net = record {
  id = 1;
  tenant_id = tenant;
  kpi_code = codes "NSV";
  formula_type = FormulaType.expression;
  formula_text = codes "GSV + COGS";
  calculation_order = 1;
  calculation_level = CalculationLevel.sku;
  display_format = DisplayFormat.currency;
  decimal_places = 2;
  aggregation_method_fu = some AggregationMethod.sum;
  rag_green_threshold = none;
  rag_amber_threshold = none;
  is_active = true;
  deleted = false;
}

abbrev margin : Kpi ℕ
margin = record net {
  id = 2;
  kpi_code = codes "GM";
  formula_text = codes "NSV + GSV";
  calculation_order = 2;
  rag_green_threshold = some 20;
  rag_amber_threshold = some 10;
}

abbrev plan_total : Kpi ℕ
plan_total = record net {
  id = 3;
  kpi_code = codes "TOTAL";
  calculation_order = 3;
  calculation_level = CalculationLevel.plan;
}

abbrev volumes : Context ℕ
volumes = (codes "GSV", some 5) ∷ (codes "COGS", some 3) ∷ []

get-calculate_sku_example :
    get (codes "GM") (calculate_sku numbers sums (net ∷ margin ∷ plan_total ∷ []) volumes)
    ≡ some (
        calculated numbers sums margin
          (context_after numbers sums (sku_level numbers sums (net ∷ [])) volumes))
unfolding text_eq
get-calculate_sku_example =
    get-calculate_sku numbers sums (net ∷ []) margin (plan_total ∷ []) volumes refl refl

abbrev result : ℕ → Rag → CalculationResult ℕ
result v rag = result_of numbers sums margin (some v) (some rag)

abbrev fus : List (FuInput numbers sums)
fus =
    record {
      sku_results =
          ((codes "GM", result 25 Rag.green) ∷ []) ∷ ((codes "GM", result 12 Rag.amber) ∷ []) ∷ [];
      tactics = [];
    }
    ∷ record { sku_results = ((codes "GM", result 4 Rag.red) ∷ []) ∷ []; tactics = [] }
    ∷ []

fus_rated : AllRated numbers sums (codes "GM") fus
unfolding value_in text_eq
fus_rated = ((λ h. absurd (cc), (λ h. absurd (cc), tt)), ((λ h. absurd (cc), tt), tt))

plan_status_is_worst_example :
    rag_in numbers sums (codes "GM") (
      calculate_plan numbers sums (net ∷ margin ∷ plan_total ∷ []) (
        each
          (λ fu.
            calculate_fu numbers sums (net ∷ margin ∷ plan_total ∷ []) fu.sku_results fu.tactics)
          fus))
    ≡ worst (rags_of numbers sums (codes "GM") (all_skus numbers sums fus))
unfolding text_eq
plan_status_is_worst_example =
    plan_status_is_worst numbers sums (net ∷ []) margin (plan_total ∷ []) 20 refl refl refl fus
      fus_rated

abbrev nothing_cached : EngineState ℕ
nothing_cached = record { kpi_cache = []; formula_cache = [] }
