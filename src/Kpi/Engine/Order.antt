-- ===== src/Kpi/Engine/Order.antt =====
-- The KPIs are calculated in their order, each from those before it.
use collmind_backend.Base.{
  ◌≡◌, refl, ◌∙◌, ap, Text, text_eq, Bool, true, false, ◌||◌, Option, none, some, List, [], ◌∷◌,
  ◌++◌, arith, exists, select,
}
use collmind_backend.Kpi.Maps.{get, put, get-put_self, get-put_ne}
use collmind_backend.Kpi.Rows.{Kpi, CalculationLevel, same_level}
use collmind_backend.Kpi.Aggregate.{Numbers}
use collmind_backend.Kpi.Engine.{
  Evaluation, CalculationResult, Results, Context, calculated, run_sku, calculate_sku, run,
  put_result,
}

-- Whether a KPI of a list has a code.
abbrev pub has_code : {V : Type 0} → Text → List (Kpi V) → Bool
has_code code kpis = exists (λ k. text_eq k.kpi_code code) kpis

none_of : (a b : Bool) → (a || b) ≡ false → (a ≡ false) × (b ≡ false)
none_of a b h = ground arith

module _ {V : Type 0} (n : Numbers V) (e : Evaluation V) where
  get-put_result :
      (kpi : Kpi V) (o : Option (CalculationResult V)) (results : Results V) (code : Text)
      → text_eq kpi.kpi_code code ≡ false
      → get code (put_result n e kpi o results) ≡ get code results
  get-put_result kpi none results code ne = refl
  get-put_result kpi (some r) results code ne = get-put_ne kpi.kpi_code code r results ne

  module _ (f : Kpi V → Results V → Option (CalculationResult V)) where
    run_keeps :
        (kpis : List (Kpi V)) (results : Results V) (code : Text)
        → has_code code kpis ≡ false
        → get code (run n e f kpis results) ≡ get code results
    unfolding run
    run_keeps [] results code h = refl
    run_keeps (k ∷ kpis) results code h =
        let (ne, rest) = none_of (text_eq k.kpi_code code) (has_code code kpis) h in
        run_keeps kpis (put_result n e k (f k results) results) code rest
        ∙ get-put_result k (f k results) results code ne

    -- The result of a KPI is calculated from the results of those before it.
    pub get-run :
        (before : List (Kpi V)) (k : Kpi V) (after : List (Kpi V)) (results : Results V)
        {r : CalculationResult V}
        → has_code k.kpi_code after ≡ false
        → f k (run n e f before results) ≡ some r
        → get k.kpi_code (run n e f (before ++ (k ∷ after)) results) ≡ some r
    unfolding run
    get-run [] k after results {r} apart h =
        run_keeps after (put_result n e k (f k results) results) k.kpi_code apart
        ∙ ap (λ o. get k.kpi_code (put_result n e k o results)) h
        ∙ get-put_self k.kpi_code r results
    get-run (b ∷ before) k after results apart h =
        get-run before k after (put_result n e b (f b results) results) apart h

  -- The context that the loop of `calculateSku` has behind some KPIs.
  abbrev pub context_after : List (Kpi V) → Context V → Context V
  context_after [] context = context
  context_after (k ∷ kpis) context =
      context_after kpis (put k.kpi_code (calculated n e k context).value context)

  run_sku_keeps :
      (kpis : List (Kpi V)) (context : Context V) (results : Results V) (code : Text)
      → has_code code kpis ≡ false
      → get code (run_sku n e kpis context results) ≡ get code results
  unfolding run_sku
  run_sku_keeps [] context results code h = refl
  run_sku_keeps (k ∷ kpis) context results code h =
      let (ne, rest) = none_of (text_eq k.kpi_code code) (has_code code kpis) h in
      run_sku_keeps kpis _ (put k.kpi_code (calculated n e k context) results) code rest
      ∙ get-put_ne k.kpi_code code (calculated n e k context) results ne

  get-run_sku :
      (before : List (Kpi V)) (k : Kpi V) (after : List (Kpi V)) (context : Context V)
      (results : Results V)
      → has_code k.kpi_code after ≡ false
      → get k.kpi_code (run_sku n e (before ++ (k ∷ after)) context results)
        ≡ some (calculated n e k (context_after before context))
  unfolding run_sku
  get-run_sku [] k after context results apart =
      run_sku_keeps after _ (put k.kpi_code (calculated n e k context) results) k.kpi_code apart
      ∙ get-put_self k.kpi_code (calculated n e k context) results
  get-run_sku (b ∷ before) k after context results apart = get-run_sku before k after _ _ apart

  abbrev pub sku_level : List (Kpi V) → List (Kpi V)
  sku_level kpis = select (λ k. same_level k.calculation_level CalculationLevel.sku) kpis

  select-append :
      (p : Kpi V → Bool) (xs ys : List (Kpi V)) → select p (xs ++ ys) ≡ select p xs ++ select p ys
  select-append p [] ys = refl
  select-append p (x ∷ xs) ys = ground (arith, select-append p xs ys)

  select_apart :
      (p : Kpi V → Bool) (code : Text) (kpis : List (Kpi V))
      → has_code code kpis ≡ false
      → has_code code (select p kpis) ≡ false
  select_apart p code [] h = refl
  select_apart p code (k ∷ kpis) h = ground (arith, select_apart p code kpis)

  -- `calculateSku` gives a KPI of its level the value of its formula over the context and the
  -- values of the KPIs of that level before it, with the status of that value, and whatever KPIs
  -- follow, if none of these has its code.
  pub get-calculate_sku :
      (before : List (Kpi V)) (k : Kpi V) (after : List (Kpi V)) (context : Context V)
      → same_level k.calculation_level CalculationLevel.sku ≡ true
      → has_code k.kpi_code after ≡ false
      → get k.kpi_code (calculate_sku n e (before ++ (k ∷ after)) context)
        ≡ some (calculated n e k (context_after (sku_level before) context))
  unfolding calculate_sku
  get-calculate_sku before k after context level apart =
      let p : Kpi V → Bool = λ k. same_level k.calculation_level CalculationLevel.sku in
      let kept : select p (k ∷ after) ≡ k ∷ select p after = rw level refl in
      ap (λ l. get k.kpi_code (run_sku n e l context []))
        (select-append p before (k ∷ after) ∙ ap (λ l. select p before ++ l) kept)
      ∙ get-run_sku (select p before) k (select p after) context []
          (select_apart p k.kpi_code after apart)
