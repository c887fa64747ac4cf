-- ===== src/Budget/Service/Release.antt =====
-- `releaseForPlan` is idempotent.
use collmind_backend.Base.{
  ◌≡◌, refl, ◌∙◌, Bool, true, none, some, List, [], ◌∷◌, Uuid, arith, inl, inr, Option-cases,
  select,
}
use collmind_backend.Entities.Budget.{Transaction, TxType, SourceType, IdempotencyKey}
use collmind_backend.Db.{Db, ok}
use collmind_backend.Db.Ends.{Ends, weaken, returned, returns, bind_rule}
use collmind_backend.Budget.Repository.{
  find_transaction_by_idempotency_key, find_transactions_by_source,
}
use collmind_backend.Budget.Repository.Summary.{insert_transaction, find-insert_self}
use collmind_backend.Budget.Repository.Calls.{create_transaction_rule}
use collmind_backend.Budget.Envelopes.{is_some}
use collmind_backend.Budget.Service.{
  release_for_plan, release_commit, release_commits, unless_existing, posting, key, is_posted_of,
}
use collmind_backend.Budget.Service.Calls.{unless_existing_rule}

module _ (plan_id tenant_id : Uuid) where
  abbrev pub release_key : Uuid → IdempotencyKey
  release_key envelope_id = key TxType.release SourceType.plan plan_id (some envelope_id)

  abbrev pub release_of : Transaction → Transaction
  release_of tx =
      posting tenant_id tx.envelope_id TxType.release SourceType.plan plan_id tx.amount tx.currency
        (release_key tx.envelope_id) none

  -- The commits that the method releases.
  abbrev pub commits : Db → List Transaction
  commits db =
      select (is_posted_of TxType.commit)
        (find_transactions_by_source tenant_id SourceType.plan plan_id db)

  is_released : Transaction → Db → Bool
  is_released tx db =
      is_some (find_transaction_by_idempotency_key tenant_id (release_key tx.envelope_id) db)

  found_released :
      (tx : Transaction) {t : Transaction} (db : Db)
      → find_transaction_by_idempotency_key tenant_id (release_key tx.envelope_id) db ≡ some t
      → is_released tx db ≡ true
  unfolding is_released
  found_released tx db h = rw h

  is_released-insert :
      (tx t : Transaction) (db : Db)
      → is_released tx db ≡ true
      → is_released tx (insert_transaction t db) ≡ true
  unfolding is_released find_transaction_by_idempotency_key
  is_released-insert tx t db h = ground arith

  is_released-release_of :
      (tx : Transaction) (db : Db) → is_released tx (insert_transaction (release_of tx) db) ≡ true
  unfolding is_released
  is_released-release_of tx db = rw (find-insert_self (release_of tx) db refl)

  commits-release_of :
      (tx : Transaction) (db : Db) → commits (insert_transaction (release_of tx) db) ≡ commits db
  unfolding find_transactions_by_source
  commits-release_of tx db = ground arith

  -- One step leads to a database with the same commits, and undoes no release.
  record Follows (db db' : Db) : Type 0 where
    same_commits : commits db' ≡ commits db
    keeps : (tx : Transaction) → is_released tx db ≡ true → is_released tx db' ≡ true

  Follows-refl : (db : Db) → Follows db db
  Follows-refl db = record { same_commits = refl; keeps = λ tx h. h }

  release_commit_outcome :
      (tx : Transaction) (db : Db)
      → Ends
          (λ _ db'. (is_released tx db' ≡ true) × Follows db db')
          (λ e db'. Unit {0})
          (release_commit plan_id tenant_id tx db)
  unfolding release_commit
  release_commit_outcome tx db = bind_rule _ (
      unless_existing_rule _ _ _
        (λ t found. returns {db = db} (found_released tx db found, Follows-refl db))
        λ absent.
          create_transaction_rule _ db (λ taken. tt)
            λ saved. returns (
              is_released-release_of tx db,
              record {
                same_commits = commits-release_of tx db;
                keeps = λ t. is_released-insert t (release_of tx) db;
              },
            ))

  abbrev AllReleased : List Transaction → Db → Type 0
  AllReleased [] db = Unit
  AllReleased (tx ∷ txs) db = (is_released tx db ≡ true) × AllReleased txs db

  release_commits_outcome :
      (txs : List Transaction) (db : Db)
      → Ends
          (λ _ db'. AllReleased txs db' × Follows db db')
          (λ e db'. Unit {0})
          (release_commits plan_id tenant_id txs db)
  unfolding release_commits
  release_commits_outcome [] db = returns (tt, Follows-refl db)
  release_commits_outcome (tx ∷ txs) db = bind_rule _ (
      weaken
        (λ _ db' (one, step).
          weaken
            (λ _ db'' (rest, steps). (
              (steps.keeps tx one, rest),
              record {
                same_commits = steps.same_commits ∙ step.same_commits;
                keeps = λ t h. steps.keeps t (step.keeps t h);
              },
            ))
            (λ e db''. λ _. tt) (release_commits_outcome txs db'))
        (λ e db' _. tt) (release_commit_outcome tx db))

  release_commits_skip :
      (txs : List Transaction) (db : Db)
      → AllReleased txs db
      → release_commits plan_id tenant_id txs db ≡ (ok tt, db)
  unfolding release_commits release_commit is_released unless_existing
  release_commits_skip [] db h = refl
  release_commits_skip (tx ∷ txs) db h =
      elim (Option-cases
        (find_transaction_by_idempotency_key tenant_id (release_key tx.envelope_id) db)) [
          | inl missing ↦ absurd (ground (arith, h.0))
          | inr (t, found) ↦ rw found (release_commits_skip txs db h.1)
        ]

  -- A release that has gone through is not repeated: a second call finds every commit released and
  -- changes nothing.
  pub release_for_plan_idempotent :
      (db db' : Db)
      → release_for_plan plan_id tenant_id db ≡ (ok tt, db')
      → release_for_plan plan_id tenant_id db' ≡ (ok tt, db')
  unfolding release_for_plan
  release_for_plan_idempotent db db' h =
      let (all, step) = returned (release_commits_outcome (commits db) db) h in
      rw step.same_commits (release_commits_skip (commits db) db' all)
