-- ===== src/Kpi/Rows.antt =====
-- kpi.entity.ts, for KPIs with thresholds of a type `V` of numbers.
use collmind_backend.Base.{ℕ, Uuid, Text, Bool, Option, ◌==◌}

pub data FormulaType : Type 0 where
  expression conditional user_input external javascript : FormulaType

pub data CalculationLevel : Type 0 where
  sku fu plan : CalculationLevel

pub data DisplayFormat : Type 0 where
  number currency percentage : DisplayFormat

pub data AggregationMethod : Type 0 where
  sum avg min max weighted_avg : AggregationMethod

pub record Kpi (V : Type 0) : Type 0 where
  pub id : Uuid
  pub tenant_id : Uuid
  pub kpi_code : Text
  pub formula_type : FormulaType
  pub formula_text : Text
  pub calculation_order : ℕ
  pub calculation_level : CalculationLevel
  pub display_format : DisplayFormat
  pub decimal_places : ℕ
  pub aggregation_method_fu : Option AggregationMethod
  pub rag_green_threshold : Option V
  pub rag_amber_threshold : Option V
  pub is_active : Bool
  pub deleted : Bool

abbrev level_code : CalculationLevel → ℕ
level_code CalculationLevel.sku = 0
level_code CalculationLevel.fu = 1
level_code CalculationLevel.plan = 2

abbrev pub same_level : CalculationLevel → CalculationLevel → Bool
same_level a b = level_code a == level_code b
