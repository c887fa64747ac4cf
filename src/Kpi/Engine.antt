-- ===== src/Kpi/Engine.antt =====
-- The calculations of kpi-engine.service.ts, for numbers and an evaluation of formulas that the
-- engine is given.
pub mod Order
pub mod Rags
use collmind_backend.Base.{
  ℕ, ◌+◌, Text, Bool, true, false, ◌||◌, Option, none, some, List, [], ◌∷◌, if◌then◌else◌, select,
  length,
}
use collmind_backend.Formula.{extract_dependencies}
use collmind_backend.Kpi.Maps.{get, put}
use collmind_backend.Kpi.Rows.{
  FormulaType, CalculationLevel, DisplayFormat, AggregationMethod, Kpi, same_level,
}
use collmind_backend.Kpi.Aggregate.{
  Numbers, Rag, flat, values, each, worst, rag_of, aggregate, or_sum,
}

-- The evaluation of a formula text in which the values of its dependencies are put in, and
-- `Number(x)`, of which NaN is `none`.
pub record Evaluation (V : Type 0) : Type 0 where
  pub evaluate : FormulaType → Text → List (Text × V) → Option V
  pub to_number : V → Option V

-- `value` is `none` where the code has null.
pub record CalculationResult (V : Type 0) : Type 0 where
  pub kpi_code : Text
  pub value : Option V
  pub display_format : DisplayFormat
  pub decimal_places : ℕ
  pub rag_status : Option Rag

abbrev pub Results : Type 0 → Type 0
Results V = List (Text × CalculationResult V)

-- An object of values, some of which are null.
abbrev pub Context : Type 0 → Type 0
Context V = List (Text × Option V)

module _ {V : Type 0} (n : Numbers V) (e : Evaluation V) where
  -- The values of the dependencies, if none is null or not a number.
  unfoldable pub gather : List Text → Context V → Option (List (Text × V))
  gather [] context = some []
  gather (d ∷ ds) context = elim (flat (get d context)) [
    | none ↦ none
    | some v ↦ elim (e.to_number v) [
      | none ↦ none
      | some w ↦ elim (gather ds context) [ none ↦ none | some vs ↦ some ((d, w) ∷ vs) ]
    ]
  ]

  abbrev evaluated : FormulaType → Text → Option (List (Text × V)) → Option V
  evaluated type text none = none
  evaluated type text (some vs) = e.evaluate type text vs

  -- `parseFormula(text, type).execute(context)`.
  unfoldable pub execute : FormulaType → Text → Context V → Option V
  execute FormulaType.expression text context =
      evaluated FormulaType.expression text (gather (extract_dependencies text) context)
  execute FormulaType.conditional text context =
      evaluated FormulaType.conditional text (gather (extract_dependencies text) context)
  execute FormulaType.user_input text context = flat (get text context)
  execute FormulaType.external text context = flat (get text context)
  execute FormulaType.javascript text context =
      evaluated FormulaType.expression text (gather (extract_dependencies text) context)

  abbrev pub result_of : Kpi V → Option V → Option Rag → CalculationResult V
  result_of kpi value rag = record {
    kpi_code = kpi.kpi_code;
    value = value;
    display_format = kpi.display_format;
    decimal_places = kpi.decimal_places;
    rag_status = rag;
  }

  -- A KPI whose formula is executed.
  abbrev pub calculated : Kpi V → Context V → CalculationResult V
  calculated kpi context =
      let value = execute kpi.formula_type kpi.formula_text context in
      result_of kpi value (rag_of n kpi.rag_green_threshold kpi.rag_amber_threshold value)

  -- The loop of `calculateSku` over the KPIs of its level.
  unfoldable pub run_sku : List (Kpi V) → Context V → Results V → Results V
  run_sku [] context results = results
  run_sku (kpi ∷ kpis) context results =
      run_sku kpis (put kpi.kpi_code (calculated kpi context).value context)
        (put kpi.kpi_code (calculated kpi context) results)

  -- `calculateSku`.
  unfoldable pub calculate_sku : List (Kpi V) → Context V → Results V
  calculate_sku kpis context =
      run_sku (select (λ k. same_level k.calculation_level CalculationLevel.sku) kpis) context []

  -- `r?.value` and `r?.ragStatus`.
  abbrev pub value_of : Option (CalculationResult V) → Option V
  value_of none = none
  value_of (some r) = r.value

  abbrev pub status_of : Option (CalculationResult V) → Option Rag
  status_of none = none
  status_of (some r) = r.rag_status

  unfoldable pub value_in : Text → Results V → Option V
  value_in code results = value_of (get code results)

  unfoldable pub rag_in : Text → Results V → Option Rag
  rag_in code results = status_of (get code results)

  -- `.map(sr => sr[code]?.value).filter(…)`, and the same for `ragStatus`.
  abbrev pub values_of : Text → List (Results V) → List V
  values_of code all = values (each (value_in code) all)

  abbrev pub rags_of : Text → List (Results V) → List Rag
  rags_of code all = values (each (rag_in code) all)

  abbrev pub fu_rag : Option V → Option V → List Rag → Option Rag
  fu_rag none aggregated rags = none
  fu_rag (some good) none rags = none
  fu_rag (some good) (some v) rags = worst rags

  -- `{ ...tactics }`, and the values of the results so far.
  abbrev with_results : Results V → Context V → Context V
  with_results [] context = context
  with_results ((code, r) ∷ results) context = with_results results (put code r.value context)

  abbrev pub fu_result :
      CalculationLevel
      → Kpi V
      → List (Results V)
      → Context V
      → Results V
      → Option (CalculationResult V)
  fu_result CalculationLevel.sku kpi sku_results tactics results =
      let aggregated =
        aggregate n (values_of kpi.kpi_code sku_results) (or_sum kpi.aggregation_method_fu) in
      some (
        result_of kpi aggregated
          (fu_rag kpi.rag_green_threshold aggregated (rags_of kpi.kpi_code sku_results)))
  fu_result CalculationLevel.fu kpi sku_results tactics results =
      some (calculated kpi (with_results results tactics))
  fu_result CalculationLevel.plan kpi sku_results tactics results = none

  abbrev pub put_result : Kpi V → Option (CalculationResult V) → Results V → Results V
  put_result kpi none results = results
  put_result kpi (some r) results = put kpi.kpi_code r results

  -- A loop that adds the result of each KPI to those before it.
  unfoldable pub run :
      (Kpi V → Results V → Option (CalculationResult V)) → List (Kpi V) → Results V → Results V
  run f [] results = results
  run f (kpi ∷ kpis) results = run f kpis (put_result kpi (f kpi results) results)

  -- `calculateFu`.
  unfoldable pub calculate_fu : List (Kpi V) → List (Results V) → Context V → Results V
  calculate_fu kpis sku_results tactics =
      run (λ kpi. fu_result kpi.calculation_level kpi sku_results tactics) kpis []

  abbrev or_zero : Option V → V
  or_zero none = n.zero
  or_zero (some v) = v

  -- `contextMap[code] += result.value || 0`, from 0 where the key is new.
  abbrev add_values : Results V → Context V → Context V
  add_values [] context = context
  add_values ((code, r) ∷ results) context =
      add_values results
        (put code (some (n.plus (or_zero (flat (get code context))) (or_zero r.value))) context)

  abbrev add_all_values : List (Results V) → Context V → Context V
  add_all_values [] context = context
  add_all_values (results ∷ all) context = add_all_values all (add_values results context)

  abbrev pub aggregated_result : Kpi V → List (Results V) → CalculationResult V
  aggregated_result kpi fu_results =
      result_of kpi
        (aggregate n (values_of kpi.kpi_code fu_results) (or_sum kpi.aggregation_method_fu))
        (worst (rags_of kpi.kpi_code fu_results))

  abbrev pub plan_result : CalculationLevel → Kpi V → List (Results V) → CalculationResult V
  plan_result CalculationLevel.plan kpi fu_results = calculated kpi (add_all_values fu_results [])
  plan_result CalculationLevel.sku kpi fu_results = aggregated_result kpi fu_results
  plan_result CalculationLevel.fu kpi fu_results = aggregated_result kpi fu_results

  -- `calculatePlan`.
  unfoldable pub calculate_plan : List (Kpi V) → List (Results V) → Results V
  calculate_plan kpis fu_results =
      run (λ kpi results. some (plan_result kpi.calculation_level kpi fu_results)) kpis []
