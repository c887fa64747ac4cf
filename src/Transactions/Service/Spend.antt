-- ===== src/Transactions/Service/Spend.antt =====
-- A transaction that is sent twice, and what a transaction takes from the budget.
use collmind_backend.Base.{
  ℕ, ◌≡◌, refl, sym, ap, ◌∙◌, false, Option, none, some, List, ◌∷◌, Uuid, Text, arith, ℤ, pos, ◌-ℤ◌,
  inl, inr, text_eq_refl, ==_refl, if◌then◌else◌, ◌==◌,
}
use collmind_backend.Entities.Budget.{Envelope}
use collmind_backend.Entities.Agreement.{Agreement, AgreementTransaction}
use collmind_backend.Db.{Db, ok, or_throw, throw_if}
use collmind_backend.Db.Ends.{returned}
use collmind_backend.Budget.Repository.{available_amount, find_envelope_by_dimensions}
use collmind_backend.Agreements.Repository.{find_agreement, find_agreement-same}
use collmind_backend.Agreements.Service.{get_agreement}
use collmind_backend.Agreements.Service.Reservation.{available-same}
use collmind_backend.Ledger.{find_entry_by_key, off_invoice_entry}
use collmind_backend.Ledger.Entries.{available-insert_entry}
use collmind_backend.Transactions.Repository.{find_by_invoice}
use collmind_backend.Transactions.Service.{
  CreateTransactionDto, invoice_key, fiscal_period_of, transaction_of, dimensions_of,
  unless_imported, create_agreement_transaction,
}
use collmind_backend.Transactions.Service.Outcome.{
  stored_row, with_row, ledger_key, Spent, Imported, create_outcome,
}
use collmind_backend.Transactions.Service.Cap.{Spent-rows}

charged :
    {x y : ℤ} (i j : Uuid) (amount : ℤ)
    → i ≡ j
    → x ≡ y
    → x -ℤ (if i == j then amount else pos 0) ≡ y -ℤ amount
charged i j amount same_id same = rw same_id (rw (==_refl j) (rw same refl))

none-some : {A : Type 0} {x : A} → none ≡ some x → ⊥
none-some h = cc

-- The row that was stored last is found by its invoice.
find-newest :
    (tx : AgreementTransaction) (rows : List AgreementTransaction) (db : Db)
    → tx.deleted ≡ false
    → db.agreement_transactions ≡ tx ∷ rows
    → find_by_invoice tx.idempotency_key tx.tenant_id db ≡ some tx
unfolding find_by_invoice
find-newest tx rows db live listed =
    rw listed (ground (arith, text_eq_refl tx.idempotency_key.invoice_no))

module _ (month_of : ℕ → Text) (dto : CreateTransactionDto) (tenant_id user_id : Uuid)
    (batch_id : Option Uuid) (row_number : Option ℕ) (db d1 : Db) (a : Agreement)
    (tx : AgreementTransaction) where
  after :
      Imported month_of dto tenant_id user_id batch_id row_number db a tx d1
      → (d1.agreements ≡ db.agreements) × (find_by_invoice (invoice_key dto) tenant_id d1 ≡ some tx)
  after (guarded, inl (same, found)) = rw same (refl, found)
  after (guarded, inr (allowed, made, spent)) =
      let (agreements, rows) = Spent-rows d1 spent in
      (
        agreements,
        find-newest
              (stored_row (transaction_of month_of dto a tenant_id user_id batch_id row_number) db)
              _ d1 refl rows
            ∙ ap some (sym made),
      )

  -- A transaction that went through can be sent again, by any user of the tenant and with any
  -- amount, period, currency and notes: the call returns the transaction of the first call and
  -- changes nothing.
  pub create_idempotent :
      (amount : ℤ) (period currency notes : Option Text) (user : Uuid) (batch : Option Uuid)
      (row : Option ℕ)
      → find_agreement dto.agreement_id tenant_id db ≡ some a
      → create_agreement_transaction month_of dto tenant_id user_id batch_id row_number db
        ≡ (ok tx, d1)
      → create_agreement_transaction month_of
          (record dto {
            amount = amount;
            fiscal_period = period;
            currency = currency;
            notes = notes;
          })
          tenant_id
          user
          batch
          row
          d1
        ≡ (ok tx, d1)
  unfolding create_agreement_transaction get_agreement unless_imported or_throw throw_if
  create_idempotent amount period currency notes user batch row found h =
      let done =
        returned (create_outcome month_of dto tenant_id user_id batch_id row_number db a found) h in
      let (agreements, known) = after done in
      let (running, inside) = done.0 in
      rw (find_agreement-same dto.agreement_id tenant_id db d1 agreements ∙ found)
        (rw running (rw inside (rw known refl)))

  -- The spend of a new invoice goes to the envelope that its channel and period choose.
  pub charges :
      (code : Text) (e f : Envelope)
      → find_agreement dto.agreement_id tenant_id db ≡ some a
      → find_by_invoice (invoice_key dto) tenant_id db ≡ none
      → find_entry_by_key
          (record { agreement_id = a.id; transaction_id = db.uuids db.drawn })
          tenant_id
          db
        ≡ none
      → a.channel_code ≡ some code
      → find_envelope_by_dimensions tenant_id code (fiscal_period_of month_of dto a) none db
        ≡ some e
      → create_agreement_transaction month_of dto tenant_id user_id batch_id row_number db
        ≡ (ok tx, d1)
      → f.id ≡ e.id
      → available_amount f d1 ≡ available_amount f db -ℤ dto.amount
  unfolding find_entry_by_key find_envelope_by_dimensions
  charges code e f found new fresh in_channel chosen h own =
      elim ((returned (create_outcome month_of dto tenant_id user_id batch_id row_number db a found)
        h).1) [
          | inl (_, known) ↦ absurd (cc)
          | inr (allowed, made, Spent.unposted code' in_channel' absent written) ↦
              let codes : code' ≡ code = cc in
              let nothing =
                ap
                  (λ c.
                    find_envelope_by_dimensions tenant_id c (fiscal_period_of month_of dto a) none
                      db)
                  (sym codes)
                ∙ absent in
              absurd (cc)
          | inr (allowed, made, Spent.posted code' e' in_channel' chosen' written) ↦
              let codes : code' ≡ code = cc in
              let choice =
                ap
                  (λ c.
                    find_envelope_by_dimensions tenant_id c (fiscal_period_of month_of dto a) none
                      db)
                  (sym codes)
                ∙ chosen' in
              let same : e' ≡ e = cc in
              rw written (
                available-insert_entry f
                  (off_invoice_entry a.id dto.amount dto.invoice_date
                    (fiscal_period_of month_of dto a) e'.id (dimensions_of code' a))
                  tenant_id user_id
                  (ledger_key month_of dto tenant_id user_id batch_id row_number db a)
                  (with_row month_of dto tenant_id user_id batch_id row_number db a)
                ∙ charged e'.id f.id dto.amount (ap (λ x. x.id) same ∙ sym own)
                    (available-same f db _ refl refl))
          | inr (allowed, made, Spent.known le found_le written) ↦
              absurd (none-some (sym fresh ∙ found_le))
        ]
