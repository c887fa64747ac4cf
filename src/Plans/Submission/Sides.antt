-- ===== src/Plans/Submission/Sides.antt =====
-- The two sides of a plan's budget share one commit.
use collmind_backend.Base.{
  leb_ℤ, ◌≡◌, refl, Bool, true, false, none, some, Uuid, ℤ, pos, ltb_ℤ, inl, inr, arith, codes,
}
use collmind_backend.Entities.Budget.{Envelope, Transaction}
use collmind_backend.Entities.Plan.{Plan}
use collmind_backend.Db.{Db, Action, ok, when, return, ◌>>◌}
use collmind_backend.Db.Ends.{Ends, returns, weaken, bind_rule}
use collmind_backend.Budget.Repository.Summary.{insert_transaction}
use collmind_backend.Budget.Service.{reserve_for_plan}
use collmind_backend.Budget.Service.Calls.{Covered}
use collmind_backend.Budget.Service.Plan.{
  Commits, commit_in, committed, kept, reserve_for_plan_outcome, reserve_for_plan_found,
}
use collmind_backend.Plans.Submission.{channel_code, reserve_side, reserve_sides}

when_same :
    (b : Bool) (m : Action (Unit {0})) (db : Db) → m db ≡ (ok tt, db) → when b m db ≡ (ok tt, db)
when_same true m db same = same
when_same false m db same = refl

module _ (plan : Plan) (tenant_id user_id : Uuid) where
  second_side :
      (amount : ℤ) (db : Db) (tx : Transaction)
      → committed plan.id tenant_id db ≡ some tx
      → reserve_side leb_ℤ plan tenant_id user_id amount db ≡ (ok tt, db)
  unfolding reserve_side
  second_side amount db tx found =
      when_same (ltb_ℤ (pos 0) amount)
        (reserve_for_plan leb_ℤ plan.id amount (channel_code plan) plan.period_month (codes "TRY")
            tenant_id user_id
          >> return tt)
        db
        (rw
          (reserve_for_plan_found plan.id tenant_id leb_ℤ amount (channel_code plan)
            plan.period_month (codes "TRY") user_id db tx found)
          refl)

  first_side :
      (amount : ℤ) (db : Db)
      → ltb_ℤ (pos 0) amount ≡ true
      → Ends
          (λ _ db'.
            (tx : Transaction) × Commits plan.id tenant_id leb_ℤ amount
              (channel_code plan)
              plan.period_month
              (codes "TRY")
              user_id
              tx
              db
              db')
          (λ e db'. db' ≡ db)
          (reserve_side leb_ℤ plan tenant_id user_id amount db)
  unfolding reserve_side
  first_side amount db spent = rw spent (
      bind_rule (λ _. return tt)
        (weaken (λ tx db' done. returns (tx, done)) (λ e db' same. same)
          (reserve_for_plan_outcome plan.id tenant_id leb_ℤ amount (channel_code plan)
            plan.period_month (codes "TRY") user_id db)))

  -- A plan with on-invoice spend and no commit yet: whatever its off-invoice spend is, a
  -- reservation of both sides that goes through stores one commit, of the on-invoice amount, in an
  -- envelope that covers that amount, and nothing for the off-invoice amount. One that throws
  -- stores nothing.
  pub off_invoice_side_dropped :
      (on off : ℤ) (db : Db)
      → ltb_ℤ (pos 0) on ≡ true
      → committed plan.id tenant_id db ≡ none
      → Ends
          (λ _ db'.
            (e : Envelope) × Covered leb_ℤ tenant_id (channel_code plan) plan.period_month on e db
            × (db'
                ≡ insert_transaction (commit_in plan.id tenant_id e on (codes "TRY") user_id) db))
          (λ e db'. db' ≡ db)
          (reserve_sides leb_ℤ plan tenant_id user_id (on, off) db)
  unfolding reserve_sides
  off_invoice_side_dropped on off db on_spent first = bind_rule _ (
      weaken
        (λ _ db' (tx, done).
          let again = second_side off db' tx (
            kept plan.id tenant_id leb_ℤ on (channel_code plan) plan.period_month (codes "TRY")
              user_id tx db db' done) in
          rw again (elim done [
            | inl (_, found) ↦ ground (arith, first, found)
            | inr (_, (e, covered, _, stored_one)) ↦ returns (e, covered, stored_one)
          ]))
        (λ e db' same. same) (first_side on db on_spent))
