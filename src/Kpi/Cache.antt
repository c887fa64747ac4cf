-- ===== src/Kpi/Cache.antt =====
-- The two caches of kpi-engine.service.ts: the KPIs of a tenant, for 60 seconds, and the parsed
-- formulas.
pub mod Stale
use collmind_backend.Base.{
  ℕ, Uuid, Text, text_eq, Bool, true, false, ◌&&◌, not, Option, none, some, List, [], ◌∷◌, ◌==◌,
  leb, if◌then◌else◌, select, find,
}
use collmind_backend.Kpi.Rows.{FormulaType, Kpi}

-- A formula in the cache: its key is `id:formulaText`, and the parsed formula has the type with
-- which it was parsed.
pub record CachedFormula : Type 0 where
  pub kpi_id : Uuid
  pub formula_text : Text
  pub formula_type : FormulaType

pub record CachedKpis (V : Type 0) : Type 0 where
  pub tenant_id : Uuid
  pub kpis : List (Kpi V)

pub record EngineState (V : Type 0) : Type 0 where
  pub kpi_cache : List (CachedKpis V)
  pub formula_cache : List CachedFormula

module _ {V : Type 0} where
  abbrev pub is_active_of : Uuid → Kpi V → Bool
  is_active_of tenant_id k = (k.tenant_id == tenant_id) && k.is_active && not k.deleted

  abbrev pub insert_in_order : Kpi V → List (Kpi V) → List (Kpi V)
  insert_in_order k [] = k ∷ []
  insert_in_order k (j ∷ kpis) =
      let rest = insert_in_order k kpis in
      if leb k.calculation_order j.calculation_order then k ∷ j ∷ kpis else j ∷ rest

  -- `order: { calculationOrder: 'ASC' }`.
  abbrev pub in_order : List (Kpi V) → List (Kpi V)
  in_order [] = []
  in_order (k ∷ kpis) = insert_in_order k (in_order kpis)

  unfoldable pub load_kpis : List (Kpi V) → Uuid → List (Kpi V)
  load_kpis rows tenant_id = in_order (select (is_active_of tenant_id) rows)

  abbrev pub cached_kpis : Uuid → EngineState V → Option (CachedKpis V)
  cached_kpis tenant_id st = find (λ c. c.tenant_id == tenant_id) st.kpi_cache

  -- The part of `getActiveKpis` behind the test of the cache, for the rows of the table.
  abbrev pub cached_or_loaded :
      Option (CachedKpis V) → List (Kpi V) → Uuid → EngineState V → List (Kpi V) × EngineState V
  cached_or_loaded (some c) rows tenant_id st = (c.kpis, st)
  cached_or_loaded none rows tenant_id st = (
    load_kpis rows tenant_id,
    record st {
      kpi_cache = record { tenant_id = tenant_id; kpis = load_kpis rows tenant_id } ∷ st.kpi_cache;
    },
  )

  -- `getActiveKpis`.
  unfoldable pub get_active_kpis :
      List (Kpi V) → Uuid → EngineState V → List (Kpi V) × EngineState V
  get_active_kpis rows tenant_id st = cached_or_loaded (cached_kpis tenant_id st) rows tenant_id st

  abbrev pub drop_tenant : Uuid → List (CachedKpis V) → List (CachedKpis V)
  drop_tenant tenant_id cache = select (λ c. not (c.tenant_id == tenant_id)) cache

  -- What the timer does 60 seconds after a load.
  unfoldable pub expire : Uuid → EngineState V → EngineState V
  expire tenant_id st = record st { kpi_cache = drop_tenant tenant_id st.kpi_cache }

  abbrev pub cleared : Option Uuid → List (CachedKpis V) → List (CachedKpis V)
  cleared none cache = []
  cleared (some tenant_id) cache = drop_tenant tenant_id cache

  -- `clearCache`.
  unfoldable pub clear_cache : Option Uuid → EngineState V → EngineState V
  clear_cache tenant_id st = record {
    kpi_cache = cleared tenant_id st.kpi_cache;
    formula_cache = [];
  }

  abbrev pub is_formula_of : Kpi V → CachedFormula → Bool
  is_formula_of kpi c = (c.kpi_id == kpi.id) && text_eq c.formula_text kpi.formula_text

  abbrev pub cached_or_parsed :
      Option CachedFormula → Kpi V → EngineState V → FormulaType × EngineState V
  cached_or_parsed (some c) kpi st = (c.formula_type, st)
  cached_or_parsed none kpi st = (
    kpi.formula_type,
    record st {
      formula_cache =
          record {
            kpi_id = kpi.id;
            formula_text = kpi.formula_text;
            formula_type = kpi.formula_type;
          }
          ∷ st.formula_cache;
    },
  )

  -- `getOrParseFormula`: the type with which the text of the KPI is executed.
  unfoldable pub get_or_parse_formula : Kpi V → EngineState V → FormulaType × EngineState V
  get_or_parse_formula kpi st = cached_or_parsed (find (is_formula_of kpi) st.formula_cache) kpi st
