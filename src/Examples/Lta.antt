-- ===== src/Examples/Lta.antt =====
-- Agreements of a CPL for a year.
use collmind_backend.Base.{
  ◌≡◌, ◌≤◌, refl, Uuid, codes, text_eq, true, false, none, some, List, [], ◌∷◌, pos, arith,
}
use mathlib.Core.Logic.{◌↔◌}
use collmind_backend.Entities.Lta.{LtaAgreementStatus, LtaAgreement, LtaRate, LtaPlanOverride}
use collmind_backend.Db.{Db}
use collmind_backend.Lta.Repository.{meets, find_active_for_cpl}
use collmind_backend.Lta.Service.{CreateLtaAgreementDto, UpdateLtaAgreementDto}
use collmind_backend.Lta.Periods.{CommonDay, meets_lem}
use collmind_backend.Lta.Calls.{LtaOperation}
use collmind_backend.Lta.Rates.{
  PlanContextDto, LtaContext, rate_for, active_agreement, get_lta_for_plan_context,
  get_rates_for_context, lta_context,
}
use collmind_backend.Lta.Rates.Best.{IsBest, rate_for_lem}
use collmind_backend.Examples.Data.{tenant, channel, shop}

abbrev whole_year : LtaAgreement
whole_year = record {
  id = 300;
  tenant_id = tenant;
  cpl_id = 61;
  agreement_code = codes "KA_2025";
  effective_date = 20089;
  expiry_date = some 20453;
  status = LtaAgreementStatus.active;
  deleted = false;
}

abbrev any_category : LtaRate
any_category = record {
  id = 301;
  lta_agreement_id = 300;
  channel = channel;
  category = codes "ALL";
  on_invoice_percentage = pos 500;
  off_invoice_percentage = pos 200;
  is_active = true;
}

abbrev dairy : LtaRate
dairy = record any_category {
  id = 302;
  channel = codes "ALL";
  category = codes "Dairy";
  on_invoice_percentage = pos 700;
}

abbrev special : LtaPlanOverride
special = record {
  lta_agreement_id = 300;
  lta_rate_id = 301;
  plan_id = 60;
  override_on_invoice_pct = some (pos 900);
  override_off_invoice_pct = none;
}

abbrev contracts : Db
contracts = record shop { lta_agreements = whole_year ∷ []; lta_rates = dairy ∷ any_category ∷ [] }

abbrev next_year : CreateLtaAgreementDto
next_year = record {
  cpl_id = 61;
  agreement_code = codes "KA_2026";
  effective_date = 20454;
  expiry_date = some 20818;
  rates = [];
}

abbrev longer : UpdateLtaAgreementDto
longer = record {
  agreement_code = none;
  effective_date = none;
  expiry_date = some 20820;
  rates = none;
}

abbrev calls : List (Uuid × LtaOperation)
calls =
    (tenant, LtaOperation.create next_year)
    ∷ (tenant, LtaOperation.update 100 longer)
    ∷ (tenant, LtaOperation.activate 100)
    ∷ (tenant, LtaOperation.terminate 300)
    ∷ []

meets_lem_example :
    ((meets 20454 (some 20818) 20089 (some 20453) ≡ true) ↔ CommonDay 20454 20818 20089 20453)
    × (meets 20454 (some 20818) 20089 none ≡ true)
    × (meets 20454 none 20089 none ≡ true)
    × ((meets 20454 none 20089 (some 20453) ≡ true) ↔ ((20089 ≤ 20454) × (20454 ≤ 20453)))
meets_lem_example = meets_lem 20454 20818 20089 20453 (omega arith) (omega arith)

rate_for_lem_example :
    IsBest channel
      (codes "Dairy")
      (dairy ∷ any_category ∷ [])
      (rate_for channel (codes "Dairy") (dairy ∷ any_category ∷ []))
rate_for_lem_example = rate_for_lem channel (codes "Dairy") (dairy ∷ any_category ∷ [])

abbrev context : PlanContextDto
context = record {
  cpl_id = some 61;
  channel_code = some channel;
  channel_id = none;
  category_code = some (codes "Dairy");
  category_id = none;
}

abbrev found : LtaContext
found =
    lta_context
      record { row = whole_year; rates = dairy ∷ any_category ∷ []; plan_overrides = none }
      any_category none

found_in :
    get_lta_for_plan_context tenant context
      (some 60)
      20100
      (record contracts { lta_overrides = special ∷ [] })
    ≡ some found
unfolding get_lta_for_plan_context active_agreement get_rates_for_context find_active_for_cpl
    rate_for text_eq
found_in = refl
