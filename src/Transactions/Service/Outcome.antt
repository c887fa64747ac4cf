-- ===== src/Transactions/Service/Outcome.antt =====
-- What a call of `create` leaves behind, on every way it ends.
use collmind_backend.Base.{
  ℕ, ◌+◌, ◌≡◌, refl, true, false, Option, none, some, ◌∷◌, Uuid, Text, arith, ◌+ℤ◌, ◌≤ℤ◌, ◌⊎◌, inl,
  inr, exists, Option-cases, Bool-cases,
}
use collmind_backend.Entities.Budget.{Envelope, LedgerEntry, LedgerKey}
use collmind_backend.Entities.Agreement.{Agreement, is_running, AgreementTransaction}
use collmind_backend.Db.{return, duplicate_key, Db, Error, throw_if, proceed, Action}
use collmind_backend.Db.Ends.{
  Ends, returns, throws, weaken, bind_rule, or_throw_rule, or_throw_found, throw_if_rule,
}
use collmind_backend.Budget.Repository.{find_envelope_by_dimensions}
use collmind_backend.Agreements.Repository.{find_agreement}
use collmind_backend.Agreements.Service.{get_agreement}
use collmind_backend.Ledger.{
  create_from_agreement_transaction, entry_of, off_invoice_entry, find_entry_by_key,
}
use collmind_backend.Ledger.Entries.{insert_entry, create_entry_outcome}
use collmind_backend.Transactions.Repository.{
  save_transaction, find_by_invoice, sum_by_agreement_id, same_invoice,
}
use collmind_backend.Transactions.Service.{
  CreateTransactionDto, outside_period, invoice_key, fiscal_period_of, transaction_of,
  unless_imported, dimensions_of, post_spend, import_invoice, create_agreement_transaction,
}

-- The row that `save` stores, with the id that the database generates.
abbrev pub stored_row : AgreementTransaction → Db → AgreementTransaction
stored_row tx db = record tx { id = db.uuids db.drawn }

abbrev pub insert_row : AgreementTransaction → Db → Db
insert_row tx db = record db {
  agreement_transactions = stored_row tx db ∷ db.agreement_transactions;
  drawn = db.drawn + 1;
}

unless_imported_rule :
    {P : AgreementTransaction → Db → Type 0} {E : Error → Db → Type 0}
    (o : Option AgreementTransaction) (m : Action AgreementTransaction) (db : Db)
    → ((tx : AgreementTransaction) → o ≡ some tx → P tx db)
    → (o ≡ none → Ends P E (m db))
    → Ends P E (unless_imported o m db)
unfolding unless_imported
unless_imported_rule none m db known new = new refl
unless_imported_rule (some tx) m db known new = returns (known tx refl)

save_rule :
    {P : AgreementTransaction → Db → Type 0} {E : Error → Db → Type 0}
    (f : AgreementTransaction → Action AgreementTransaction) (tx : AgreementTransaction) (db : Db)
    → E (Error.plain duplicate_key) db
    → Ends P E (f (stored_row tx db) (insert_row tx db))
    → Ends P E (proceed f (save_transaction tx db))
unfolding save_transaction throw_if
save_rule f tx db refused saved =
    elim (Bool-cases
      (exists (same_invoice tx.tenant_id tx.idempotency_key) db.agreement_transactions)) [
        | inl taken ↦ rw taken (throws refused)
        | inr free ↦ rw free saved
      ]

module _ (month_of : ℕ → Text) (dto : CreateTransactionDto) (tenant_id user_id : Uuid)
    (batch_id : Option Uuid) (row_number : Option ℕ) (db : Db) (a : Agreement) where
  abbrev pub new_row : AgreementTransaction
  new_row = transaction_of month_of dto a tenant_id user_id batch_id row_number

  -- The tables after the row was stored.
  abbrev pub with_row : Db
  with_row = insert_row new_row db

  abbrev pub ledger_key : LedgerKey
  ledger_key = record { agreement_id = a.id; transaction_id = (stored_row new_row db).id }

  -- The spend was posted to the envelope that the period and the channel choose, or there was no
  -- such envelope, or an entry was known under the key.
  pub data Spent (db' : Db) : Type 0 where
    unposted :
        (code : Text)
        → a.channel_code ≡ some code
        → find_envelope_by_dimensions tenant_id code (fiscal_period_of month_of dto a) none with_row
          ≡ none
        → db' ≡ with_row
        → Spent db'
    posted :
        (code : Text) (e : Envelope)
        → a.channel_code ≡ some code
        → find_envelope_by_dimensions tenant_id code (fiscal_period_of month_of dto a) none with_row
          ≡ some e
        → db'
          ≡ insert_entry
              (entry_of
                (off_invoice_entry a.id dto.amount dto.invoice_date
                  (fiscal_period_of month_of dto a)
                  e.id
                  (dimensions_of code a))
                tenant_id
                user_id
                ledger_key)
              with_row
        → Spent db'
    known :
        (le : LedgerEntry)
        → find_entry_by_key ledger_key tenant_id with_row ≡ some le
        → db' ≡ with_row
        → Spent db'

  -- The guards of `create`.
  abbrev pub Guarded : Type 0
  Guarded = (is_running a.status ≡ true) × (outside_period a dto.invoice_date ≡ false)

  -- An unknown invoice that the cap allows.
  abbrev pub Allowed : Type 0
  Allowed =
      (find_by_invoice (invoice_key dto) tenant_id db ≡ none)
      × (sum_by_agreement_id dto.agreement_id tenant_id db +ℤ dto.amount ≤ℤ a.cap_total_amount)

  -- A call that returns has returned a known row, and changed nothing; or it has stored the row
  -- that it returned, and posted its spend where an envelope is found and no entry is known.
  abbrev pub Imported : AgreementTransaction → Db → Type 0
  Imported tx db' =
      Guarded
      × (((db' ≡ db) × (find_by_invoice (invoice_key dto) tenant_id db ≡ some tx))
          ⊎ (Allowed × (tx ≡ stored_row new_row db) × Spent db'))

  -- A call that throws has changed nothing, or it has stored the row, and not posted its spend.
  abbrev pub Failed : Db → Type 0
  Failed db' = (db' ≡ db) ⊎ (Guarded × Allowed × (db' ≡ with_row))

  post_spend_outcome :
      (code : Text)
      → a.channel_code ≡ some code
      → Ends
          (λ _ db'. Spent db')
          (λ e db'. db' ≡ with_row)
          (post_spend
            (find_envelope_by_dimensions tenant_id code
              (fiscal_period_of month_of dto a)
              none
              with_row)
            a
            (stored_row new_row db)
            dto.amount
            dto.invoice_date
            (fiscal_period_of month_of dto a)
            code
            tenant_id
            user_id
            with_row)
  unfolding post_spend create_from_agreement_transaction
  post_spend_outcome code in_channel =
      elim (Option-cases (
        find_envelope_by_dimensions tenant_id code (fiscal_period_of month_of dto a) none
          with_row)) [
            | inl absent ↦ rw absent (returns (unposted code in_channel absent refl))
            | inr (e, chosen) ↦ rw chosen (
                bind_rule (λ _. return tt)
                  (weaken
                    (λ le db' written. returns (elim written [
                      | inl (same, found) ↦ known le found same
                      | inr stored_one ↦ posted code e in_channel chosen stored_one
                    ]))
                    (λ e db' same. same)
                    (create_entry_outcome
                      (off_invoice_entry a.id dto.amount dto.invoice_date
                        (fiscal_period_of month_of dto a) e.id (dimensions_of code a))
                      tenant_id user_id ledger_key with_row)))
          ]

  import_invoice_outcome :
      Guarded
      → find_by_invoice (invoice_key dto) tenant_id db ≡ none
      → Ends Imported
          (λ e db'. Failed db')
          (import_invoice month_of dto a tenant_id user_id batch_id row_number db)
  unfolding import_invoice
  import_invoice_outcome guarded fresh =
      throw_if_rule _ _ _ _ (λ over. inl refl)
        λ within.
          let allowed : Allowed = (fresh, ground arith) in
          save_rule _ new_row db (inl refl) (
            or_throw_rule _ _ _ _ (λ missing. inr (guarded, allowed, refl))
              λ code in_channel. bind_rule _ (
                weaken (λ _ db' spent. returns (guarded, inr (allowed, refl, spent)))
                  (λ e db' same. inr (guarded, allowed, same))
                  (post_spend_outcome code in_channel)))

  -- `create`, for an agreement that the tenant has. It returns only for a running agreement and an
  -- invoice in its period: a known transaction, with nothing changed, or a new one that the cap
  -- allows, stored. The spend of a new one is posted to the ledger in the envelope that is found; it
  -- is not where no envelope is found, or an entry stands under its key. A call that throws has
  -- changed nothing, or it has stored the transaction and not posted its spend.
  pub create_outcome :
      find_agreement dto.agreement_id tenant_id db ≡ some a
      → Ends Imported
          (λ e db'. Failed db')
          (create_agreement_transaction month_of dto tenant_id user_id batch_id row_number db)
  unfolding create_agreement_transaction get_agreement
  create_outcome found = or_throw_found _ _ _ db a found (
      throw_if_rule _ _ _ _ (λ closed. inl refl)
        λ running.
          throw_if_rule _ _ _ _ (λ outside. inl refl)
            λ inside.
              unless_imported_rule _ _ _ (λ tx found. ((ground arith, inside), inl (refl, found)))
                λ fresh. import_invoice_outcome (ground arith, inside) fresh)
