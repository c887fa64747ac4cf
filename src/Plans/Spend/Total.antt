-- ===== src/Plans/Spend/Total.antt =====
-- The two services agree on the spend of a plan.
use collmind_backend.Base.{◌≡◌, Uuid, Text, List, [], ◌∷◌, ℤ, pos, ◌+ℤ◌, int_laws}
use collmind_backend.Entities.Plan.{Plan, PlanFu, Tactic}
use collmind_backend.Db.{Db}
use collmind_backend.Plans.Spend.{
  Products, tactic_of, tenant_tactics, tactic_spend, add_tactic, add_tactics, add_fus, entries,
  calculate_spend_breakdown, fu_spend_from, calculate_fu_tactic_spend, total_spend_of,
}

abbrev both : ℤ × ℤ → ℤ
both (on, off) = on +ℤ off

module _ (products : Products) (tactics : List Tactic) where
  both-add_tactic :
      (fu : PlanFu) (code : Text) (value : ℤ) (acc : ℤ × ℤ)
      → both (add_tactic products tactics fu code value acc)
        ≡ both acc +ℤ tactic_spend products (tactic_of code tactics) code value fu
  unfolding add_tactic
  both-add_tactic fu code value (on, off) = grind int_laws

  fu_spend_from-add :
      (fu : PlanFu) (es : List (Text × ℤ)) (total : ℤ)
      → fu_spend_from products tactics fu es total
        ≡ total +ℤ fu_spend_from products tactics fu es (pos 0)
  unfolding fu_spend_from
  fu_spend_from-add fu [] total = omega int_laws
  fu_spend_from-add fu ((code, value) ∷ es) total =
      let spend = tactic_spend products (tactic_of code tactics) code value fu in
      rw (fu_spend_from-add fu es (total +ℤ spend))
        (grind (int_laws, fu_spend_from-add fu es (pos 0 +ℤ spend)))

  both-add_tactics :
      (fu : PlanFu) (es : List (Text × ℤ)) (acc : ℤ × ℤ)
      → both (add_tactics products tactics fu es acc)
        ≡ both acc +ℤ fu_spend_from products tactics fu es (pos 0)
  unfolding add_tactics fu_spend_from
  both-add_tactics fu [] acc = omega int_laws
  both-add_tactics fu ((code, value) ∷ es) acc =
      let spend = tactic_spend products (tactic_of code tactics) code value fu in
      rw (both-add_tactics fu es (add_tactic products tactics fu code value acc)) (
        grind
          (int_laws, both-add_tactic fu code value acc, fu_spend_from-add fu es (pos 0 +ℤ spend)))

  both-add_fus :
      (fus : List PlanFu) (acc : ℤ × ℤ)
      → both (add_fus products tactics fus acc) ≡ both acc +ℤ total_spend_of products tactics fus
  unfolding add_fus total_spend_of calculate_fu_tactic_spend
  both-add_fus [] acc = omega int_laws
  both-add_fus (fu ∷ fus) acc =
      rw (both-add_fus fus (add_tactics products tactics fu (entries products fu.tactics) acc))
        (grind (int_laws, both-add_tactics fu (entries products fu.tactics) acc))

-- The on-invoice and the off-invoice spend of the approval workflow add up to the tactic spend that
-- the plan service computes FU by FU, whatever the floating-point products are: every tactic is
-- counted once, on one of the two sides.
pub breakdown_total :
    (products : Products) (plan : Plan) (tenant_id : Uuid) (db : Db)
    → let (on, off) = calculate_spend_breakdown products plan tenant_id db in
      on +ℤ off ≡ total_spend_of products (tenant_tactics tenant_id db) plan.plan_fus
unfolding calculate_spend_breakdown
breakdown_total products plan tenant_id db =
    grind
      (int_laws, both-add_fus products (tenant_tactics tenant_id db) plan.plan_fus (pos 0, pos 0))
