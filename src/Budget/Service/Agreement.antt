-- ===== src/Budget/Service/Agreement.antt =====
-- `reserveForAgreement` and `releaseForAgreement`: outcomes, idempotency, and the round trip.
use collmind_backend.Base.{
  ◌≡◌, refl, false, Option, none, some, Uuid, Text, arith, ℤ, int_laws, exists, inl, inr,
  Option-cases, ◌⊎◌,
}
use collmind_backend.Entities.Budget.{Envelope, Transaction, TxType, SourceType}
use collmind_backend.Db.{Db, ok}
use collmind_backend.Db.Ends.{Ends, weaken, returned, bind_rule}
use collmind_backend.Budget.Repository.{
  text_at_most, find_transaction_by_idempotency_key, available_amount, same_key,
}
use collmind_backend.Budget.Repository.Summary.{
  insert_transaction, stored, create_transaction_lem, available-insert, find-none_of_free,
  free-insert,
}
use collmind_backend.Budget.Repository.Calls.{create_transaction_rule}
use collmind_backend.Budget.Envelopes.{or_try}
use collmind_backend.Budget.Service.{
  reserve_for_agreement, release_for_agreement, existing_posting, unless_existing, posting, key,
  post_reservation,
}
use collmind_backend.Budget.Service.Calls.{
  Covered, envelope_with_budget_outcome, unless_existing_rule, existing-insert_self,
}

module _ (agreement_id : Uuid) (amount : ℤ) (channel period_month currency : Text)
    (tenant_id user_id : Uuid) where
  abbrev pub reservation_in : Envelope → Transaction
  reservation_in e =
      posting tenant_id e.id TxType.reserve SourceType.agreement agreement_id amount
        (or_try currency) (key TxType.reserve SourceType.agreement agreement_id none) (some user_id)

  abbrev pub earlier : Db → Option Transaction
  earlier = existing_posting tenant_id SourceType.agreement agreement_id TxType.reserve

  abbrev pub earlier_by_key : Db → Option Transaction
  earlier_by_key =
      find_transaction_by_idempotency_key tenant_id
        (key TxType.reserve SourceType.agreement agreement_id none)

  -- What the call returns: an earlier reservation with nothing changed, or a new one, stored in an
  -- envelope whose available amount, as a text, is not before the amount.
  abbrev pub Reserved : Transaction → Db → Db → Type 0
  Reserved tx db db' =
      ((db' ≡ db) × ((earlier db ≡ some tx) ⊎ (earlier_by_key db ≡ some tx)))
      ⊎ ((earlier db ≡ none)
          × ((e : Envelope) × Covered text_at_most tenant_id channel period_month amount e db
              × (tx ≡ stored (reservation_in e) db)
              × (db' ≡ insert_transaction (reservation_in e) db)))

  -- `reserveForAgreement` returns an earlier reservation of the agreement and changes nothing, or it
  -- stores one reservation in an envelope whose available amount, as a text, is not before the amount, or it throws and changes nothing.
  pub reserve_for_agreement_outcome :
      (db : Db)
      → Ends
          (λ tx db'. Reserved tx db db')
          (λ e db'. db' ≡ db)
          (reserve_for_agreement agreement_id amount channel period_month currency tenant_id user_id
            db)
  unfolding reserve_for_agreement post_reservation
  reserve_for_agreement_outcome db =
      unless_existing_rule _ _ _ (λ tx same. inl (refl, inl same))
        λ first. bind_rule _ (
          weaken
            (λ e db' (same, covered). rw same (
              unless_existing_rule _ _ _ (λ tx by_key. inl (refl, inr by_key))
                λ free.
                  create_transaction_rule _ db (λ taken. refl)
                    (λ saved. inr (first, (e, covered, refl, refl)))))
            (λ e db' same. same)
            (envelope_with_budget_outcome text_at_most tenant_id channel period_month amount db))

  found_again :
      (db : Db) (tx : Transaction) (db' : Db)
      → (earlier db ≡ none → earlier_by_key db ≡ none)
      → Reserved tx db db'
      → (t : Transaction) × (earlier db' ≡ some t)
  found_again db tx db' coherent (inl (same, inl found)) = (tx, rw same found)
  found_again db tx db' coherent (inl (same, inr by_key)) = elim (Option-cases (earlier db)) [
    | inl first ↦ absurd (ground (arith, coherent first))
    | inr (t, found) ↦ (t, rw same found)
  ]
  found_again db tx db' coherent (inr (first, (e, covered, made, stored_one))) =
      (stored (reservation_in e) db, rw stored_one (existing-insert_self _ _ _ _ _ _ _ _ _ _))

  -- After a call that went through, a retry with any amount, channel, period and currency, by any
  -- user of the tenant, returns the posted reservation of the agreement and stores nothing.
  -- Required is that, where no reservation of the agreement is posted, no row stands under its
  -- key.
  pub reserve_for_agreement_idempotent :
      (db db' : Db) (tx : Transaction) (more : ℤ) (channel' period' currency' : Text) (user : Uuid)
      → (earlier db ≡ none → earlier_by_key db ≡ none)
      → reserve_for_agreement agreement_id amount channel period_month currency tenant_id user_id db
        ≡ (ok tx, db')
      → (t : Transaction) × (reserve_for_agreement agreement_id more channel' period' currency'
            tenant_id user db'
          ≡ (ok t, db'))
        × (earlier db' ≡ some t)
  unfolding reserve_for_agreement unless_existing
  reserve_for_agreement_idempotent db db' tx more channel' period' currency' user coherent h =
      let kept = found_again db tx db' coherent (returned (reserve_for_agreement_outcome db) h) in
      (kept.0, rw kept.1, kept.1)

  abbrev pub release_of : Uuid → Uuid → Transaction
  release_of envelope_id user =
      posting tenant_id envelope_id TxType.release SourceType.agreement agreement_id amount
        (or_try currency) (key TxType.release SourceType.agreement agreement_id (some envelope_id))
        (some user)

  -- A release under a key that is free goes through.
  pub release_for_agreement_free :
      (envelope_id user : Uuid) (db : Db)
      → exists
          (same_key tenant_id
            (key TxType.release SourceType.agreement agreement_id (some envelope_id)))
          db.transactions
        ≡ false
      → release_for_agreement agreement_id envelope_id amount currency tenant_id user db ≡ (
        ok (stored (release_of envelope_id user) db),
        insert_transaction (release_of envelope_id user) db,
      )
  unfolding release_for_agreement unless_existing
  release_for_agreement_free envelope_id user db free =
      let tx = release_of envelope_id user in
      rw (find-none_of_free tenant_id tx.idempotency_key db free)
        (rw (create_transaction_lem tx db) (rw free))

  restores :
      (e : Envelope) (user : Uuid) (db : Db)
      → exists
          (same_key tenant_id (key TxType.release SourceType.agreement agreement_id (some e.id)))
          db.transactions
        ≡ false
      → (t : Transaction) × (db'' : Db) × (release_for_agreement agreement_id e.id amount currency
            tenant_id user
            (insert_transaction (reservation_in e) db)
          ≡ (ok t, db''))
        × ((f : Envelope) → available_amount f db'' ≡ available_amount f db)
  restores e user db free =
      let db' = insert_transaction (reservation_in e) db in
      let tx = release_of e.id user in
      (
        stored tx db',
        insert_transaction tx db',
        release_for_agreement_free e.id user db'
            (free-insert tenant_id tx.idempotency_key (reservation_in e) db refl free),
        λ f. grind (int_laws, available-insert f tx db', available-insert f (reservation_in e) db),
      )

  -- When the agreement has no reservation yet and no row stands under one of its release keys, a
  -- reservation that goes through can be released, and after the release every envelope has the
  -- amount available that it had before.
  pub reserve-release_restores :
      (db db' : Db) (tx : Transaction) (user : Uuid)
      → earlier db ≡ none
      → earlier_by_key db ≡ none
      → ((envelope_id : Uuid)
          → exists
              (same_key tenant_id
                (key TxType.release SourceType.agreement agreement_id (some envelope_id)))
              db.transactions
            ≡ false)
      → reserve_for_agreement agreement_id amount channel period_month currency tenant_id user_id db
        ≡ (ok tx, db')
      → (t : Transaction) × (db'' : Db) × (release_for_agreement agreement_id tx.envelope_id amount
            currency tenant_id user db'
          ≡ (ok t, db''))
        × ((f : Envelope) → available_amount f db'' ≡ available_amount f db)
  reserve-release_restores db db' tx user first fresh free h =
      elim (returned (reserve_for_agreement_outcome db) h) [
        | inl (same, inl found) ↦ absurd (cc)
        | inl (same, inr found) ↦ absurd (cc)
        | inr (_, (e, covered, made, stored_one)) ↦
            rw (made, stored_one) (restores e user db (free e.id))
      ]
