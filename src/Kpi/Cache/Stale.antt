-- ===== src/Kpi/Cache/Stale.antt =====
-- How long the caches answer for rows that have changed.
use collmind_backend.Base.{
  ◌≡◌, ◌≤◌, refl, Uuid, text_eq_refl, Option, none, some, List, [], ◌∷◌, ◌==◌, ==_refl, arith, leb,
  select, find, Option-cases, Bool-cases, inl, inr,
}
use collmind_backend.Kpi.Rows.{FormulaType, Kpi}
use collmind_backend.Kpi.Cache.{
  CachedKpis, EngineState, insert_in_order, in_order, load_kpis, cached_kpis, get_active_kpis,
  expire, clear_cache, is_formula_of, get_or_parse_formula, is_active_of, drop_tenant,
}

module _ {V : Type 0} where
  -- KPIs in ascending order.
  abbrev pub FromOn : Kpi V → List (Kpi V) → Type 0
  FromOn k [] = Unit
  FromOn k (j ∷ kpis) = (k.calculation_order ≤ j.calculation_order) × FromOn j kpis

  abbrev pub InOrder : List (Kpi V) → Type 0
  InOrder [] = Unit
  InOrder (k ∷ kpis) = FromOn k kpis

  insert-FromOn :
      (i k : Kpi V) (kpis : List (Kpi V))
      → i.calculation_order ≤ k.calculation_order
      → FromOn i kpis
      → FromOn i (insert_in_order k kpis)
  insert-FromOn i k [] le h = (le, tt)
  insert-FromOn i k (j ∷ kpis) le (h, more) =
      elim (Bool-cases (leb k.calculation_order j.calculation_order)) [
        | inl first ↦ rw first (le, (ground arith, more))
        | inr later ↦ rw later (h, insert-FromOn j k kpis (ground arith) more)
      ]

  insert-InOrder :
      (k : Kpi V) (kpis : List (Kpi V)) → InOrder kpis → InOrder (insert_in_order k kpis)
  insert-InOrder k [] h = tt
  insert-InOrder k (j ∷ kpis) h = elim (Bool-cases (leb k.calculation_order j.calculation_order)) [
    | inl first ↦ rw first (ground arith, h)
    | inr later ↦ rw later (insert-FromOn j k kpis (ground arith) h)
  ]

  in_order-InOrder : (kpis : List (Kpi V)) → InOrder (in_order kpis)
  in_order-InOrder [] = tt
  in_order-InOrder (k ∷ kpis) = insert-InOrder k (in_order kpis) (in_order-InOrder kpis)

  find-drop_tenant :
      (tenant_id : Uuid) (cache : List (CachedKpis V))
      → find (λ c. c.tenant_id == tenant_id) (drop_tenant tenant_id cache) ≡ none
  find-drop_tenant tenant_id [] = refl
  find-drop_tenant tenant_id (c ∷ cache) = elim (Bool-cases (c.tenant_id == tenant_id)) [
    | inl same ↦ rw same (find-drop_tenant tenant_id cache)
    | inr other ↦ rw other (rw other (find-drop_tenant tenant_id cache))
  ]

  loaded_again :
      (rows : List (Kpi V)) (tenant_id : Uuid) (st : EngineState V)
      → cached_kpis tenant_id st ≡ none
      → (get_active_kpis rows tenant_id st).0 ≡ load_kpis rows tenant_id
  unfolding get_active_kpis
  loaded_again rows tenant_id st gone = rw gone refl

  kept_list :
      (rows later : List (Kpi V)) (tenant_id : Uuid) (st : EngineState V)
      → get_active_kpis later tenant_id (get_active_kpis rows tenant_id st).1
        ≡ get_active_kpis rows tenant_id st
  unfolding get_active_kpis
  kept_list rows later tenant_id st = elim (Option-cases (cached_kpis tenant_id st)) [
    | inl fresh ↦ rw fresh (rw (==_refl tenant_id) refl)
    | inr (c, found) ↦ rw found (rw found refl)
  ]

  -- A loaded list of KPIs answers for the tenant whatever the table becomes; once the time is over
  -- or the cache is cleared, the active KPIs of the tenant are loaded, in the order of their
  -- calculation.
  pub get_active_kpis_lem :
      (rows later : List (Kpi V)) (tenant_id : Uuid) (st : EngineState V)
      → let kept = (get_active_kpis rows tenant_id st).1 in
        (get_active_kpis later tenant_id kept ≡ get_active_kpis rows tenant_id st)
        × ((get_active_kpis later tenant_id (expire tenant_id kept)).0 ≡ load_kpis later tenant_id)
        × ((get_active_kpis later tenant_id (clear_cache (some tenant_id) kept)).0
            ≡ load_kpis later tenant_id)
        × ((get_active_kpis later tenant_id (clear_cache none kept)).0 ≡ load_kpis later tenant_id)
        × InOrder (load_kpis later tenant_id)
  unfolding expire clear_cache load_kpis
  get_active_kpis_lem rows later tenant_id st =
      let kept = (get_active_kpis rows tenant_id st).1 in
      (
        kept_list rows later tenant_id st,
        loaded_again later tenant_id (expire tenant_id kept)
            (find-drop_tenant tenant_id kept.kpi_cache),
        loaded_again later tenant_id (clear_cache (some tenant_id) kept)
            (find-drop_tenant tenant_id kept.kpi_cache),
        loaded_again later tenant_id (clear_cache none kept) refl,
        in_order-InOrder (select (is_active_of tenant_id) later),
      )

  -- A formula that was parsed is executed with its first type: a KPI that is saved with another
  -- type and the same text keeps the old one when the time of its list is over, and has the new
  -- one only once the cache is cleared.
  pub formula_type_stays :
      (kpi : Kpi V) (type : FormulaType) (tenant_id : Uuid) (of : Option Uuid) (st : EngineState V)
      → let (first, st') = get_or_parse_formula kpi st in
        let changed : Kpi V = record kpi { formula_type = type } in
        ((get_or_parse_formula changed (expire tenant_id st')).0 ≡ first)
        × ((get_or_parse_formula changed (clear_cache of st')).0 ≡ type)
  unfolding get_or_parse_formula expire clear_cache
  formula_type_stays kpi type tenant_id of st =
      elim (Option-cases (find (is_formula_of kpi) st.formula_cache)) [
        | inl fresh ↦ rw fresh (rw (==_refl kpi.id) (rw (text_eq_refl kpi.formula_text) refl), refl)
        | inr (c, found) ↦ rw found (rw found refl, refl)
      ]
