-- ===== src/Plans/Spend.antt =====
-- The spend of a plan: `calculateSpendBreakdown` of approval-workflow.service.ts and
-- `calculateFuTacticSpend` of plan.service.ts.
pub mod Total
use collmind_backend.Base.{
  ℕ, ◌≡◌, refl, Uuid, Text, codes, text_eq, is_prefix, Bool, true, false, ◌&&◌, ◌||◌, not, Option,
  none, some, List, [], ◌∷◌, ◌==◌, if◌then◌else◌, select, ℤ, pos, ◌+ℤ◌, int_laws, arith, Bool-cases,
  inl, inr,
}
use collmind_backend.Entities.Plan.{Plan, PlanFu, PlanSku, Tactic, SpendType}
use collmind_backend.Db.{Db}

-- The floating-point products of the spend, rounded to hundredths: `times volume price`, and
-- `percent x v` for `x * (v / 100)`.
pub record Products : Type 0 where
  pub times : ℤ → ℤ → ℤ
  pub percent : ℤ → ℤ → ℤ

-- `s.includes(part)`.
unfoldable pub includes : Text → Text → Bool
includes [] part = is_prefix part []
includes (a ∷ s) part = is_prefix part (a ∷ s) || includes s part

abbrev or_else : Option Tactic → Option Tactic → Option Tactic
or_else none o = o
or_else (some t) o = some t

-- `new Map(tactics.map(t => [t.code, t])).get(code)`: the last entry of a code wins.
unfoldable pub tactic_of : Text → List Tactic → Option Tactic
tactic_of code [] = none
tactic_of code (t ∷ ts) = or_else (tactic_of code ts) (if text_eq t.code code then some t else none)

-- `tacticRepo.find({ where: { tenantId } })`.
abbrev pub tenant_tactics : Uuid → Db → List Tactic
tenant_tactics tenant_id db = select (λ t. (t.tenant_id == tenant_id) && not t.deleted) db.tactics

abbrev by_code : Text → Bool
by_code code =
    includes code (codes "OFF") || includes code (codes "DISPLAY") || includes code (codes "LUMP")

abbrev by_type : Option SpendType → Text → Bool
by_type (some SpendType.off_invoice) code = true
by_type (some SpendType.on_invoice) code = false
by_type _ code = by_code code

unfoldable pub is_off_invoice : Option Tactic → Text → Bool
is_off_invoice none code = by_code code
is_off_invoice (some t) code = by_type t.spend_type code

abbrev discount : Option Tactic → Bool
discount none = false
discount (some t) = t.is_discount

module _ (products : Products) where
  -- The `reduce` over the SKUs.
  unfoldable pub turnover_from : ℤ → List PlanSku → ℤ
  turnover_from sum [] = sum
  turnover_from sum (s ∷ skus) =
      turnover_from (sum +ℤ products.times s.planned_volume s.unit_price) skus

  -- The spend of one tactic of an FU.
  unfoldable pub tactic_spend : Option Tactic → Text → ℤ → PlanFu → ℤ
  tactic_spend tactic code value fu =
      if discount tactic || includes code (codes "PCT") || includes code (codes "%")
      then products.percent (turnover_from (pos 0) fu.plan_skus) value
      else value

  -- One round of the loop over the tactics, on the sums (on-invoice, off-invoice).
  unfoldable pub add_tactic : List Tactic → PlanFu → Text → ℤ → ℤ × ℤ → ℤ × ℤ
  add_tactic tactics fu code value (on, off) =
      let tactic = tactic_of code tactics in
      let spend = tactic_spend tactic code value fu in
      if is_off_invoice tactic code then (on, off +ℤ spend) else (on +ℤ spend, off)

  unfoldable pub add_tactics : List Tactic → PlanFu → List (Text × ℤ) → ℤ × ℤ → ℤ × ℤ
  add_tactics tactics fu [] acc = acc
  add_tactics tactics fu ((code, value) ∷ rest) acc =
      add_tactics tactics fu rest (add_tactic tactics fu code value acc)

  abbrev pub entries : Option (List (Text × ℤ)) → List (Text × ℤ)
  entries none = []
  entries (some es) = es

  unfoldable pub add_fus : List Tactic → List PlanFu → ℤ × ℤ → ℤ × ℤ
  add_fus tactics [] acc = acc
  add_fus tactics (fu ∷ fus) acc =
      add_fus tactics fus (add_tactics tactics fu (entries fu.tactics) acc)

  -- `calculateSpendBreakdown`: the on-invoice and the off-invoice spend.
  unfoldable pub calculate_spend_breakdown : Plan → Uuid → Db → ℤ × ℤ
  calculate_spend_breakdown plan tenant_id db =
      add_fus (tenant_tactics tenant_id db) plan.plan_fus (pos 0, pos 0)

  unfoldable pub fu_spend_from : List Tactic → PlanFu → List (Text × ℤ) → ℤ → ℤ
  fu_spend_from tactics fu [] total = total
  fu_spend_from tactics fu ((code, value) ∷ rest) total =
      fu_spend_from tactics fu rest (total +ℤ tactic_spend (tactic_of code tactics) code value fu)

  -- `calculateFuTacticSpend`.
  unfoldable pub calculate_fu_tactic_spend : PlanFu → List Tactic → ℤ
  calculate_fu_tactic_spend fu tactics = fu_spend_from tactics fu (entries fu.tactics) (pos 0)

  -- The spend of the FUs together.
  unfoldable pub total_spend_of : List Tactic → List PlanFu → ℤ
  total_spend_of tactics [] = pos 0
  total_spend_of tactics (fu ∷ fus) =
      calculate_fu_tactic_spend fu tactics +ℤ total_spend_of tactics fus
