-- ===== src/Budget/Service/Plan.antt =====
-- `reserveForPlan` and `releaseForPlan`: outcomes, idempotency, and what they do to the available
-- amounts.
use collmind_backend.Base.{◌≡◌, refl, Option, none, some, Uuid, Text, ℤ, int_laws, inl, inr, ◌⊎◌}
use collmind_backend.Entities.Budget.{Envelope, Transaction, TxType, SourceType}
use collmind_backend.Db.{Db, ok}
use collmind_backend.Db.Ends.{Ends, weaken, returned, bind_rule}
use collmind_backend.Budget.Repository.{Comparison, available_amount}
use collmind_backend.Budget.Repository.Summary.{insert_transaction, stored, available-insert}
use collmind_backend.Budget.Repository.Calls.{create_transaction_rule}
use collmind_backend.Budget.Envelopes.{or_try}
use collmind_backend.Budget.Service.{
  reserve_for_plan, existing_posting, unless_existing, posting, key,
}
use collmind_backend.Budget.Service.Calls.{
  Covered, envelope_with_budget_outcome, unless_existing_rule, existing-insert_self,
}

module _ (plan_id tenant_id : Uuid) where
  abbrev pub commit_in : Envelope → ℤ → Text → Uuid → Transaction
  commit_in e amount currency user_id =
      posting tenant_id e.id TxType.commit SourceType.plan plan_id amount (or_try currency)
        (key TxType.commit SourceType.plan plan_id (some e.id)) (some user_id)

  -- The posted COMMIT that an earlier call left.
  abbrev pub committed : Db → Option Transaction
  committed = existing_posting tenant_id SourceType.plan plan_id TxType.commit

  module _ (at_most : Comparison) where
    -- What the call returns: an earlier commit with nothing changed, or a new one, stored in an
    -- envelope that covers the amount.
    abbrev pub Commits : ℤ → Text → Text → Text → Uuid → Transaction → Db → Db → Type 0
    Commits amount channel period_month currency user_id tx db db' =
        ((db' ≡ db) × (committed db ≡ some tx))
        ⊎ ((committed db ≡ none)
            × ((e : Envelope) × Covered at_most tenant_id channel period_month amount e db
                × (tx ≡ stored (commit_in e amount currency user_id) db)
                × (db' ≡ insert_transaction (commit_in e amount currency user_id) db)))

    -- `reserveForPlan` returns an earlier commit of the plan and changes nothing, or it stores one
    -- commit in an envelope that covers the amount, or it throws and changes nothing.
    pub reserve_for_plan_outcome :
        (amount : ℤ) (channel period_month currency : Text) (user_id : Uuid) (db : Db)
        → Ends
            (λ tx db'. Commits amount channel period_month currency user_id tx db db')
            (λ e db'. db' ≡ db)
            (reserve_for_plan at_most plan_id amount channel period_month currency tenant_id user_id
              db)
    unfolding reserve_for_plan
    reserve_for_plan_outcome amount channel period_month currency user_id db =
        unless_existing_rule _ _ _ (λ tx same. inl (refl, same))
          λ first. bind_rule _ (
            weaken
              (λ e db' (same, covered). rw same (
                create_transaction_rule _ db (λ taken. refl)
                  (λ saved. inr (first, (e, covered, refl, refl)))))
              (λ e db' same. same)
              (envelope_with_budget_outcome at_most tenant_id channel period_month amount db))

    commit_available :
        (e f : Envelope) (amount : ℤ) (currency : Text) (user_id : Uuid) (db : Db)
        → available_amount f (insert_transaction (commit_in e amount currency user_id) db)
          ≡ available_amount f db
    commit_available e f amount currency user_id db =
        grind (int_laws, available-insert f (commit_in e amount currency user_id) db)

    -- However it ends, the reservation of a plan leaves the available amount of every envelope as it
    -- was: the summary view counts no COMMIT.
    pub reserve_for_plan_takes_nothing :
        (amount : ℤ) (channel period_month currency : Text) (user_id : Uuid) (db : Db)
        (f : Envelope)
        → Ends
            (λ tx db'. available_amount f db' ≡ available_amount f db)
            (λ e db'. available_amount f db' ≡ available_amount f db)
            (reserve_for_plan at_most plan_id amount channel period_month currency tenant_id user_id
              db)
    reserve_for_plan_takes_nothing amount channel period_month currency user_id db f =
        weaken
          (λ tx db' done. elim done [
            | inl (same, _) ↦ rw same
            | inr (_, (e, _, _, stored_one)) ↦
                rw stored_one (commit_available e f amount currency user_id db)
          ])
          (λ e db' same. rw same)
          (reserve_for_plan_outcome amount channel period_month currency user_id db)

    pub kept :
        (amount : ℤ) (channel period_month currency : Text) (user_id : Uuid) (tx : Transaction)
        (db db' : Db)
        → Commits amount channel period_month currency user_id tx db db'
        → committed db' ≡ some tx
    kept amount channel period_month currency user_id tx db db' (inl (same, found)) = rw same found
    kept amount channel period_month currency user_id tx db db'
          (inr (_, (e, _, made, stored_one))) =
        rw (made, stored_one) (existing-insert_self _ _ _ _ _ _ _ _ _ _)

    pub reserve_for_plan_found :
        (amount : ℤ) (channel period_month currency : Text) (user_id : Uuid) (db : Db)
        (tx : Transaction)
        → committed db ≡ some tx
        → reserve_for_plan at_most plan_id amount channel period_month currency tenant_id user_id db
          ≡ (ok tx, db)
    unfolding reserve_for_plan unless_existing
    reserve_for_plan_found amount channel period_month currency user_id db tx found = rw found refl

    -- Once a plan has a commit, a further reservation of any amount, in any channel and period,
    -- returns that commit and stores nothing.
    pub reserve_for_plan_once :
        (amount more : ℤ) (channel channel' period_month period' currency currency' : Text)
        (user_id user : Uuid) (db db' : Db) (tx : Transaction)
        → reserve_for_plan at_most plan_id amount channel period_month currency tenant_id user_id db
          ≡ (ok tx, db')
        → reserve_for_plan at_most plan_id more channel' period' currency' tenant_id user db'
          ≡ (ok tx, db')
    reserve_for_plan_once amount more channel channel' period_month period' currency currency'
          user_id user db db' tx h =
        reserve_for_plan_found more channel' period' currency' user db' tx (
          kept amount channel period_month currency user_id tx db db'
            (returned (reserve_for_plan_outcome amount channel period_month currency user_id db) h))
