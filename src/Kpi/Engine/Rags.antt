-- ===== src/Kpi/Engine/Rags.antt =====
-- The status of a KPI on the levels above the SKUs.
use mathlib.Core.Path.{ap₂}
use collmind_backend.Base.{
  ◌≡◌, refl, sym, ◌∙◌, ap, Text, Bool, true, false, ◌||◌, Option, none, some, List, [], ◌∷◌, ◌++◌,
  Option-cases, inl, inr, if◌then◌else◌,
}
use collmind_backend.Kpi.Maps.{get}
use collmind_backend.Kpi.Rows.{Kpi, CalculationLevel, AggregationMethod}
use collmind_backend.Kpi.Aggregate.{
  Numbers, Rag, values, each, is_red, is_amber, includes_rag, worst, aggregate, or_sum,
}
use collmind_backend.Kpi.Engine.{
  Evaluation, CalculationResult, Results, Context, value_in, rag_in, status_of, values_of, rags_of,
  fu_rag, calculate_fu, calculate_plan, run, fu_result, plan_result,
}
use collmind_backend.Kpi.Engine.Order.{has_code, get-run}

-- The worse of two statuses.
join : Option Rag → Option Rag → Option Rag
join none b = b
join (some Rag.red) b = some Rag.red
join (some Rag.amber) (some Rag.red) = some Rag.red
join (some Rag.amber) (some Rag.amber) = some Rag.amber
join (some Rag.amber) (some Rag.green) = some Rag.amber
join (some Rag.amber) none = some Rag.amber
join (some Rag.green) none = some Rag.green
join (some Rag.green) (some r) = some r

join_assoc : (a b c : Option Rag) → join (join a b) c ≡ join a (join b c)
unfolding join
join_assoc none b c = refl
join_assoc (some Rag.red) b c = refl
join_assoc (some Rag.amber) none c = refl
join_assoc (some Rag.amber) (some Rag.red) c = refl
join_assoc (some Rag.amber) (some Rag.amber) none = refl
join_assoc (some Rag.amber) (some Rag.amber) (some Rag.red) = refl
join_assoc (some Rag.amber) (some Rag.amber) (some Rag.amber) = refl
join_assoc (some Rag.amber) (some Rag.amber) (some Rag.green) = refl
join_assoc (some Rag.amber) (some Rag.green) none = refl
join_assoc (some Rag.amber) (some Rag.green) (some r) = refl
join_assoc (some Rag.green) none c = refl
join_assoc (some Rag.green) (some Rag.red) c = refl
join_assoc (some Rag.green) (some Rag.amber) none = refl
join_assoc (some Rag.green) (some Rag.amber) (some Rag.red) = refl
join_assoc (some Rag.green) (some Rag.amber) (some Rag.amber) = refl
join_assoc (some Rag.green) (some Rag.amber) (some Rag.green) = refl
join_assoc (some Rag.green) (some Rag.green) none = refl
join_assoc (some Rag.green) (some Rag.green) (some r) = refl

amber_first :
    (a b : Bool)
    → (if a then some Rag.red else some Rag.amber)
      ≡ join
          (some Rag.amber)
          (if a then some Rag.red else if b then some Rag.amber else some Rag.green)
unfolding join
amber_first true b = refl
amber_first false true = refl
amber_first false false = refl

green_first :
    (a b : Bool)
    → (if a then some Rag.red else if b then some Rag.amber else some Rag.green)
      ≡ join
          (some Rag.green)
          (if a then some Rag.red else if b then some Rag.amber else some Rag.green)
unfolding join
green_first true b = refl
green_first false true = refl
green_first false false = refl

worst-cons : (r : Rag) (rs : List Rag) → worst (r ∷ rs) ≡ join (some r) (worst rs)
unfolding worst join
worst-cons Rag.red rs = refl
worst-cons Rag.amber [] = refl
worst-cons Rag.amber (r ∷ rs) =
    amber_first (is_red r || includes_rag is_red rs) (is_amber r || includes_rag is_amber rs)
worst-cons Rag.green [] = refl
worst-cons Rag.green (r ∷ rs) =
    green_first (is_red r || includes_rag is_red rs) (is_amber r || includes_rag is_amber rs)

worst-append : (rs ss : List Rag) → worst (rs ++ ss) ≡ join (worst rs) (worst ss)
unfolding join worst
worst-append [] ss = refl
worst-append (r ∷ rs) ss =
    worst-cons r (rs ++ ss)
    ∙ ap (join (some r)) (worst-append rs ss)
    ∙ sym (join_assoc (some r) (worst rs) (worst ss))
    ∙ ap (λ o. join o (worst ss)) (sym (worst-cons r rs))

worst-values :
    (o : Option Rag) (os : List (Option Rag)) → worst (values (o ∷ os)) ≡ join o (worst (values os))
unfolding join
worst-values none os = refl
worst-values (some r) os = worst-cons r (values os)

not_empty : {A : Type 0} {x : A} {xs : List A} → x ∷ xs ≡ [] → false ≡ true
not_empty h = cc

module _ {V : Type 0} (n : Numbers V) (e : Evaluation V) where
  -- The results of an SKU have a status only where they have a value.
  abbrev pub Rated : Text → List (Results V) → Type 0
  Rated code [] = Unit
  Rated code (r ∷ all) = (value_in n e code r ≡ none → rag_in n e code r ≡ none) × Rated code all

  no_rags :
      (code : Text) (all : List (Results V))
      → Rated code all
      → values_of n e code all ≡ []
      → rags_of n e code all ≡ []
  no_rags code [] rated h = refl
  no_rags code (r ∷ all) (rated, more) h = elim (Option-cases (value_in n e code r)) [
    | inl absent ↦ rw (rated absent) (no_rags code all more (rw absent at h))
    | inr (v, present) ↦ cc (not_empty (rw present at h))
  ]

  fu_rag_lem :
      (good : V) (m : AggregationMethod) (vs : List V) (rags : List Rag)
      → (vs ≡ [] → rags ≡ [])
      → fu_rag n e (some good) (aggregate n vs m) rags ≡ worst rags
  unfolding aggregate worst
  fu_rag_lem good m [] rags h = rw (h refl) refl
  fu_rag_lem good m (v ∷ vs) rags h = refl

  -- The SKUs of an FU, with their results, and the values of its tactics.
  pub record FuInput : Type 0 where
    pub sku_results : List (Results V)
    pub tactics : Context V

  abbrev pub all_skus : List FuInput → List (Results V)
  all_skus [] = []
  all_skus (fu ∷ fus) = fu.sku_results ++ all_skus fus

  abbrev pub AllRated : Text → List FuInput → Type 0
  AllRated code [] = Unit
  AllRated code (fu ∷ fus) = Rated code fu.sku_results × AllRated code fus

  rags_of-append :
      (code : Text) (xs ys : List (Results V))
      → rags_of n e code (xs ++ ys) ≡ rags_of n e code xs ++ rags_of n e code ys
  rags_of-append code [] ys = refl
  rags_of-append code (x ∷ xs) ys = elim (Option-cases (rag_in n e code x)) [
    | inl absent ↦ rw absent (rags_of-append code xs ys)
    | inr (r, present) ↦ rw present (ap (◌∷◌ r) (rags_of-append code xs ys))
  ]

  rag_in-get :
      (code : Text) (results : Results V) {r : CalculationResult V}
      → get code results ≡ some r
      → rag_in n e code results ≡ r.rag_status
  unfolding rag_in
  rag_in-get code results h = ap (status_of n e) h

  module _ (before : List (Kpi V)) (k : Kpi V) (after : List (Kpi V)) (good : V)
      (level : k.calculation_level ≡ CalculationLevel.sku)
      (threshold : k.rag_green_threshold ≡ some good)
      (apart : has_code k.kpi_code after ≡ false) where
    fu_status :
        (fu : FuInput)
        → Rated k.kpi_code fu.sku_results
        → rag_in n e k.kpi_code (calculate_fu n e (before ++ (k ∷ after)) fu.sku_results fu.tactics)
          ≡ worst (rags_of n e k.kpi_code fu.sku_results)
    unfolding calculate_fu
    fu_status fu rated =
        let vs = values_of n e k.kpi_code fu.sku_results in
        let rags = rags_of n e k.kpi_code fu.sku_results in
        let m = or_sum k.aggregation_method_fu in
        rag_in-get k.kpi_code _ (
          get-run n e (λ kpi. fu_result n e kpi.calculation_level kpi fu.sku_results fu.tactics)
            before k after [] apart
            (ap
              (λ l. fu_result n e l k fu.sku_results fu.tactics (
                run n e (λ kpi. fu_result n e kpi.calculation_level kpi fu.sku_results fu.tactics)
                  before []))
              level))
        ∙ ap (λ t. fu_rag n e t (aggregate n vs m) rags) threshold
        ∙ fu_rag_lem good m vs rags (no_rags k.kpi_code fu.sku_results rated)

    fus_status :
        (fus : List FuInput)
        → AllRated k.kpi_code fus
        → worst (
            rags_of n e k.kpi_code
              (each (λ fu. calculate_fu n e (before ++ (k ∷ after)) fu.sku_results fu.tactics) fus))
          ≡ worst (rags_of n e k.kpi_code (all_skus fus))
    fus_status [] rated = refl
    fus_status (fu ∷ fus) (rated, more) =
        worst-values
          (rag_in n e k.kpi_code
            (calculate_fu n e (before ++ (k ∷ after)) fu.sku_results fu.tactics))
          _
        ∙ ap₂ join (fu_status fu rated) (fus_status fus more)
        ∙ sym (
            worst-append (rags_of n e k.kpi_code fu.sku_results)
              (rags_of n e k.kpi_code (all_skus fus)))
        ∙ ap worst (sym (rags_of-append k.kpi_code fu.sku_results (all_skus fus)))

    -- The status that `calculatePlan` gives to a KPI of the SKU level with a green threshold, over
    -- the results of `calculateFu`, is the worst status of all SKUs of all FUs, if a status stands
    -- only beside a value and no later KPI has the same code.
    pub plan_status_is_worst :
        (fus : List FuInput)
        → AllRated k.kpi_code fus
        → rag_in n e k.kpi_code (
            calculate_plan n e
              (before ++ (k ∷ after))
              (each (λ fu. calculate_fu n e (before ++ (k ∷ after)) fu.sku_results fu.tactics) fus))
          ≡ worst (rags_of n e k.kpi_code (all_skus fus))
    unfolding calculate_plan
    plan_status_is_worst fus rated =
        let fu_results =
          each (λ fu. calculate_fu n e (before ++ (k ∷ after)) fu.sku_results fu.tactics) fus in
        rag_in-get k.kpi_code _ (
          get-run n e (λ kpi results. some (plan_result n e kpi.calculation_level kpi fu_results))
            before k after [] apart (ap (λ l. some (plan_result n e l k fu_results)) level))
        ∙ fus_status fus rated
