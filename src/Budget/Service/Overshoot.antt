-- ===== src/Budget/Service/Overshoot.antt =====
-- What `releaseForPlan` gives back was never taken.
use collmind_backend.Base.{
  ◌≡◌, refl, Bool, false, none, some, List, [], ◌∷◌, Uuid, Text, arith, ℤ, ◌+ℤ◌, int_laws, ◌==◌,
  if◌then◌else◌, exists, find, inl, inr, select,
}
use collmind_backend.Entities.Budget.{Envelope, Transaction, TxType, SourceType}
use collmind_backend.Db.{Db, ok}
use collmind_backend.Db.Ends.{returned}
use collmind_backend.Budget.Repository.{
  Comparison, find_transactions_by_source, available_amount, same_key,
}
use collmind_backend.Budget.Repository.Summary.{
  insert_transaction, stored, create_transaction_lem, available-insert, find-none_of_free,
  free-insert,
}
use collmind_backend.Budget.Service.{
  reserve_for_plan, release_for_plan, release_commit, release_commits, existing_posting,
  unless_existing, key, is_posted_of,
}
use collmind_backend.Budget.Service.Plan.{commit_in, committed, reserve_for_plan_outcome}
use collmind_backend.Budget.Service.Release.{release_key, release_of, commits}

module _ (plan_id tenant_id : Uuid) where
  none_selected :
      (p : Transaction → Bool) (txs : List Transaction) → find p txs ≡ none → select p txs ≡ []
  none_selected p [] h = refl
  none_selected p (tx ∷ txs) h = grind (arith, none_selected p txs)

  one_commit :
      (e : Envelope) (amount : ℤ) (currency : Text) (user_id : Uuid) (db : Db)
      → committed plan_id tenant_id db ≡ none
      → commits plan_id tenant_id
          (insert_transaction (commit_in plan_id tenant_id e amount currency user_id) db)
        ≡ stored (commit_in plan_id tenant_id e amount currency user_id) db ∷ []
  unfolding existing_posting find_transactions_by_source
  one_commit e amount currency user_id db h = ground (
    arith,
    none_selected (is_posted_of TxType.commit)
        (find_transactions_by_source tenant_id SourceType.plan plan_id db) h,
  )

  -- The release of one commit under a free key goes through.
  release_one :
      (tx : Transaction) (db : Db)
      → exists (same_key tenant_id (release_key plan_id tenant_id tx.envelope_id)) db.transactions
        ≡ false
      → release_commits plan_id tenant_id (tx ∷ []) db
        ≡ (ok tt, insert_transaction (release_of plan_id tenant_id tx) db)
  unfolding release_commits release_commit unless_existing
  release_one tx db free =
      rw (find-none_of_free tenant_id (release_key plan_id tenant_id tx.envelope_id) db free)
        (rw (create_transaction_lem (release_of plan_id tenant_id tx) db) (rw free))

  gives :
      (e f : Envelope) (amount : ℤ) (currency : Text) (user_id : Uuid) (db : Db)
      → let tx = commit_in plan_id tenant_id e amount currency user_id in
        let db' = insert_transaction tx db in
        available_amount f (insert_transaction (release_of plan_id tenant_id (stored tx db)) db')
        ≡ (if e.id == f.id then available_amount f db +ℤ amount else available_amount f db)
  gives e f amount currency user_id db =
      let tx = commit_in plan_id tenant_id e amount currency user_id in
      let db' = insert_transaction tx db in
      grind (
        int_laws,
        available-insert f tx db,
        available-insert f (release_of plan_id tenant_id (stored tx db)) db',
      )

  released_after :
      (e : Envelope) (amount : ℤ) (currency : Text) (user_id : Uuid) (db : Db)
      → committed plan_id tenant_id db ≡ none
      → exists (same_key tenant_id (release_key plan_id tenant_id e.id)) db.transactions ≡ false
      → let tx = commit_in plan_id tenant_id e amount currency user_id in
        let db' = insert_transaction tx db in
        release_for_plan plan_id tenant_id db'
        ≡ (ok tt, insert_transaction (release_of plan_id tenant_id (stored tx db)) db')
  unfolding release_for_plan
  released_after e amount currency user_id db first free =
      let tx = commit_in plan_id tenant_id e amount currency user_id in
      rw (one_commit e amount currency user_id db first) (
        release_one (stored tx db) (insert_transaction tx db)
          (free-insert tenant_id (release_key plan_id tenant_id e.id) tx db refl free))

  -- When the plan has no commit yet and no row stands under one of its release keys, its commit
  -- and its release together raise the available amount of the envelope by the plan's amount, and
  -- change no other envelope: what the release gives back was never taken.
  pub release_for_plan_overshoots :
      (at_most : Comparison) (amount : ℤ) (channel period_month currency : Text) (user_id : Uuid)
      (db db' : Db) (tx : Transaction)
      → committed plan_id tenant_id db ≡ none
      → ((envelope_id : Uuid)
          → exists
              (same_key tenant_id (key TxType.release SourceType.plan plan_id (some envelope_id)))
              db.transactions
            ≡ false)
      → reserve_for_plan at_most plan_id amount channel period_month currency tenant_id user_id db
        ≡ (ok tx, db')
      → (db'' : Db) × (release_for_plan plan_id tenant_id db' ≡ (ok tt, db''))
        × ((f : Envelope)
            → available_amount f db'' ≡ (
                if tx.envelope_id == f.id
                then available_amount f db +ℤ amount
                else available_amount f db))
  release_for_plan_overshoots at_most amount channel period_month currency user_id db db' tx first
        free h =
      elim (returned
        (reserve_for_plan_outcome plan_id tenant_id at_most amount channel period_month currency
          user_id db)
        h) [
          | inl (_, found) ↦ absurd (cc)
          | inr (_, (e, _, made, stored_one)) ↦
              rw (made, stored_one)
                (
                  insert_transaction
                      (release_of plan_id tenant_id
                        (stored (commit_in plan_id tenant_id e amount currency user_id) db))
                      (insert_transaction (commit_in plan_id tenant_id e amount currency user_id)
                        db),
                  released_after e amount currency user_id db first (free e.id),
                  λ f. gives e f amount currency user_id db,
                )
        ]
