-- ===== src/Kpi.antt =====
-- The KPI engine: kpi.entity.ts and src/modules/shared/kpi-engine/kpi-engine.service.ts.
pub mod Maps
pub mod Rows
pub mod Aggregate
pub mod Engine
pub mod Cache
