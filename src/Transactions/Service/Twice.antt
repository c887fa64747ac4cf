-- ===== src/Transactions/Service/Twice.antt =====
-- An approved agreement and its spend: the budget pays twice.
use collmind_backend.Base.{ℕ, ◌≡◌, refl, sym, ap, ◌∙◌, Option, none, some, Uuid, Text, ◌-ℤ◌}
use collmind_backend.Entities.Budget.{Envelope}
use collmind_backend.Entities.Agreement.{Agreement, AgreementStatus, AgreementTransaction}
use collmind_backend.Db.{Db, ok}
use collmind_backend.Db.Ends.{returned}
use collmind_backend.Budget.Repository.{available_amount, find_envelope_by_dimensions}
use collmind_backend.Agreements.Repository.{
  find_agreement, with_agreement, find_agreement-same, find-with_agreement,
}
use collmind_backend.Agreements.Service.{approve_agreement, approved_fields}
use collmind_backend.Agreements.Service.Outcome.{moved}
use collmind_backend.Agreements.Service.Approve.{approve_agreement_outcome}
use collmind_backend.Agreements.Service.Reservation.{
  NoReservation, available-same, first_one, first_takes,
}
use collmind_backend.Ledger.{find_entry_by_key}
use collmind_backend.Transactions.Repository.{find_by_invoice}
use collmind_backend.Transactions.Service.{
  CreateTransactionDto, invoice_key, fiscal_period_of, create_agreement_transaction,
}
use collmind_backend.Transactions.Service.Spend.{charges}

some_injective : {A : Type 0} {x y : A} → some x ≡ some y → x ≡ y
some_injective h = cc

-- The choice of an envelope depends on the envelopes alone.
choice-same :
    (tenant_id : Uuid) (code period : Text) (db db' : Db)
    → db'.envelopes ≡ db.envelopes
    → find_envelope_by_dimensions tenant_id code period none db'
      ≡ find_envelope_by_dimensions tenant_id code period none db
unfolding find_envelope_by_dimensions
choice-same tenant_id code period db db' same = rw same refl

-- What an approval with a first reservation leaves for the transactions of the agreement.
approved_takes :
    (id tenant_id user_id : Uuid) (comments : Option Text) (a a1 : Agreement) (db d1 : Db)
    (code : Text) (e f : Envelope)
    → find_agreement id tenant_id db ≡ some a
    → a.channel_code ≡ some code
    → find_envelope_by_dimensions tenant_id code a.period_month none db ≡ some e
    → NoReservation a.id tenant_id db
    → approve_agreement id tenant_id user_id comments db ≡ (ok a1, d1)
    → f.id ≡ e.id
    → (find_agreement id tenant_id d1
        ≡ some (moved AgreementStatus.approved (approved_fields db.now user_id) a))
      × (d1.envelopes ≡ db.envelopes)
      × (available_amount f d1 ≡ available_amount f db -ℤ a.cap_total_amount)
approved_takes id tenant_id user_id comments a a1 db d1 code e f found in_channel chosen first
      approved own =
    let done =
      returned (approve_agreement_outcome id tenant_id user_id db a comments found) approved in
    let (e', chosen', made, stored_one) =
      first_one id tenant_id a (done.channel) db user_id (done.reservation) (done.between) first
        (done.reserved) in
    let now = moved AgreementStatus.approved (approved_fields db.now user_id) in
    let codes : done.channel ≡ code = some_injective (sym (done.in_channel) ∙ in_channel) in
    let choice =
      ap (λ c. find_envelope_by_dimensions tenant_id c a.period_month none db) codes ∙ chosen in
    let same : e' ≡ e = some_injective (sym chosen' ∙ choice) in
    (
      find_agreement-same id tenant_id (with_agreement id tenant_id now db) d1 (done.row.1)
          ∙ find-with_agreement id tenant_id now db (λ c. (refl, refl, refl)) found,
      done.envelopes_kept ∙ ap (λ d. d.envelopes) stored_one,
      available-same f (done.between) d1 (done.kept) (done.ledger_kept)
          ∙ first_takes id tenant_id a (done.channel) db user_id (done.reservation) (done.between) f
              first (done.reserved)
              (own ∙ ap (λ x. x.id) (sym same) ∙ ap (λ t. t.envelope_id) (sym made)),
    )

-- An agreement was approved, with its first reservation, and a new transaction of it then goes
-- through, for the period of the agreement and under a free key of the ledger. The envelope that
-- the agreement's channel and period choose has the cap less, for the reservation, and the amount
-- of the transaction less besides: the transaction does not draw on the reservation.
pub spend_counts_twice :
    (month_of : ℕ → Text) (dto : CreateTransactionDto) (tenant_id user_id clerk : Uuid)
    (comments : Option Text) (batch_id : Option Uuid) (row_number : Option ℕ) (a a1 : Agreement)
    (db d1 d2 : Db) (code : Text) (e f : Envelope) (tx : AgreementTransaction)
    → find_agreement dto.agreement_id tenant_id db ≡ some a
    → a.channel_code ≡ some code
    → find_envelope_by_dimensions tenant_id code a.period_month none db ≡ some e
    → NoReservation a.id tenant_id db
    → approve_agreement dto.agreement_id tenant_id user_id comments db ≡ (ok a1, d1)
    → fiscal_period_of month_of dto a ≡ a.period_month
    → find_by_invoice (invoice_key dto) tenant_id d1 ≡ none
    → find_entry_by_key
        (record { agreement_id = a.id; transaction_id = d1.uuids d1.drawn })
        tenant_id
        d1
      ≡ none
    → create_agreement_transaction month_of dto tenant_id clerk batch_id row_number d1 ≡ (ok tx, d2)
    → f.id ≡ e.id
    → available_amount f d2 ≡ available_amount f db -ℤ a.cap_total_amount -ℤ dto.amount
spend_counts_twice month_of dto tenant_id user_id clerk comments batch_id row_number a a1 db d1 d2
      code e f tx found in_channel chosen first approved period new fresh spent own =
    let (here, envelopes, taken) =
      approved_takes dto.agreement_id tenant_id user_id comments a a1 db d1 code e f found
        in_channel chosen first approved own in
    let b = moved AgreementStatus.approved (approved_fields db.now user_id) a in
    charges month_of dto tenant_id clerk batch_id row_number d1 d2 b tx code e f here new fresh
      in_channel
      (choice-same tenant_id code (fiscal_period_of month_of dto a) db d1 envelopes
        ∙ ap (λ p. find_envelope_by_dimensions tenant_id code p none db) period
        ∙ chosen)
      spent own
    ∙ ap (λ x. x -ℤ dto.amount) taken
