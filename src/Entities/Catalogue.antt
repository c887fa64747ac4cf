-- ===== src/Entities/Catalogue.antt =====
-- The master data that the editing of a plan reads: forecasting-unit.entity.ts, sku.entity.ts,
-- channel.entity.ts and category.entity.ts.
use collmind_backend.Base.{Uuid, Text, Bool, Option, List, ℤ}

pub record ForecastingUnit : Type 0 where
  pub id : Uuid
  pub tenant_id : Uuid
  pub is_plannable : Bool
  pub deleted : Bool

-- A missing price or cost is 0, as `Number(x) || 0` reads it.
pub record Sku : Type 0 where
  pub id : Uuid
  pub tenant_id : Uuid
  pub fu_id : Option Uuid
  pub unit_price : ℤ
  pub cogs : ℤ
  pub is_active : Bool
  pub deleted : Bool

pub record Channel : Type 0 where
  pub id : Uuid
  pub code : Text
  pub name : Text

pub record Category : Type 0 where
  pub id : Uuid
  pub code : Text

-- The tables together. No modelled call writes them.
pub record Catalogue : Type 0 where
  pub units : List ForecastingUnit
  pub skus : List Sku
  pub channels : List Channel
  pub categories : List Category
