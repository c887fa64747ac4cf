-- ===== src/Lta/Rates.antt =====
-- lta-agreement.service.ts: the rates of a CPL for a plan.
pub mod Best
use collmind_backend.Base.{
  ℕ, Uuid, Text, codes, text_eq, Bool, true, false, ◌&&◌, Option, none, some, List, [], ◌∷◌, ◌==◌,
  find, select, ℤ,
}
use collmind_backend.Entities.Lta.{LtaAgreement, LtaRate, LtaPlanOverride}
use collmind_backend.Db.{Db}
use collmind_backend.Allocations.Queries.{or_null}
use collmind_backend.Allocations.Service.{or_else, or_present}
use collmind_backend.Lta.Repository.{find_active_for_cpl}

-- A row with the relations that a query joins; `none` is a relation that it does not.
pub record LoadedLta : Type 0 where
  pub row : LtaAgreement
  pub rates : List LtaRate
  pub plan_overrides : Option (List LtaPlanOverride)

-- `findActiveForCPL` joins the rates and not the overrides.
abbrev pub with_rates : Db → Option LtaAgreement → Option LoadedLta
with_rates db none = none
with_rates db (some a) = some (record {
  row = a;
  rates = select (λ r. r.lta_agreement_id == a.id) db.lta_rates;
  plan_overrides = none;
})

-- `getActiveAgreementForCPL`.
unfoldable pub active_agreement : Uuid → Uuid → ℕ → Db → Option LoadedLta
active_agreement tenant_id cpl_id day db =
    with_rates db (find_active_for_cpl tenant_id cpl_id day db)

abbrev pub all_of_them : Text
all_of_them = codes "ALL"

abbrev pub is_rate_for : Text → Text → LtaRate → Bool
is_rate_for channel category r =
    text_eq r.channel channel && text_eq r.category category && r.is_active

-- `if (!rate)`.
abbrev pub or_next : Option LtaRate → Option LtaRate → Option LtaRate
or_next none next = next
or_next (some r) next = some r

-- The four searches of `getRatesForContext`.
unfoldable pub rate_for : Text → Text → List LtaRate → Option LtaRate
rate_for channel category rates = or_next (find (is_rate_for channel category) rates) (
    or_next (find (is_rate_for channel all_of_them) rates) (
      or_next (find (is_rate_for all_of_them category) rates)
        (find (is_rate_for all_of_them all_of_them) rates)))

abbrev rate_of_loaded : Text → Text → Option LoadedLta → Option LtaRate
rate_of_loaded channel category none = none
rate_of_loaded channel category (some a) = rate_for channel category a.rates

-- `getRatesForContext`.
unfoldable pub get_rates_for_context : Uuid → Uuid → Text → Text → ℕ → Db → Option LtaRate
get_rates_for_context tenant_id cpl_id channel category day db =
    rate_of_loaded channel category (active_agreement tenant_id cpl_id day db)

-- Ids of channels and categories are used as texts.
pub record PlanContextDto : Type 0 where
  pub cpl_id : Option Uuid
  pub channel_code : Option Text
  pub channel_id : Option Text
  pub category_code : Option Text
  pub category_id : Option Text

-- `code || id || ''`.
abbrev pub code_or_id : Option Text → Option Text → Text
code_or_id code id = or_else (or_null code) (or_else id [])

pub record LtaContext : Type 0 where
  pub agreement : LoadedLta
  pub rate : LtaRate
  pub override_on_invoice_pct : Option ℤ
  pub override_off_invoice_pct : Option ℤ
  pub final_on_invoice_pct : ℤ
  pub final_off_invoice_pct : ℤ

abbrev pub find_override :
    Option Uuid → LtaRate → Option (List LtaPlanOverride) → Option LtaPlanOverride
find_override none rate overrides = none
find_override (some plan_id) rate none = none
find_override (some plan_id) rate (some overrides) =
    find (λ o. (o.plan_id == plan_id) && (o.lta_rate_id == rate.id)) overrides

abbrev on_override : Option LtaPlanOverride → Option ℤ
on_override none = none
on_override (some o) = o.override_on_invoice_pct

abbrev off_override : Option LtaPlanOverride → Option ℤ
off_override none = none
off_override (some o) = o.override_off_invoice_pct

abbrev pub lta_context : LoadedLta → LtaRate → Option LtaPlanOverride → LtaContext
lta_context a rate override = record {
  agreement = a;
  rate = rate;
  override_on_invoice_pct = on_override override;
  override_off_invoice_pct = off_override override;
  final_on_invoice_pct = or_else (on_override override) rate.on_invoice_percentage;
  final_off_invoice_pct = or_else (off_override override) rate.off_invoice_percentage;
}

abbrev pub context_with : Option Uuid → LoadedLta → Option LtaRate → Option LtaContext
context_with plan_id a none = none
context_with plan_id a (some rate) =
    some (lta_context a rate (find_override plan_id rate a.plan_overrides))

abbrev pub context_from : Option Uuid → Option LoadedLta → Option LtaRate → Option LtaContext
context_from plan_id none rate = none
context_from plan_id (some a) rate = context_with plan_id a rate

-- `getLTAForPlanContext`, on a day.
unfoldable pub get_lta_for_plan_context :
    Uuid → PlanContextDto → Option Uuid → ℕ → Db → Option LtaContext
get_lta_for_plan_context tenant_id context plan_id day db = elim context.cpl_id [
  | none ↦ none
  | some cpl_id ↦ context_from plan_id (active_agreement tenant_id cpl_id day db) (
      get_rates_for_context tenant_id cpl_id (code_or_id context.channel_code context.channel_id)
        (code_or_id context.category_code context.category_id) day db)
]
