-- ===== src/Agreements/Service/Reservation/Return.antt =====
-- The way back: `cancel` releases what `approve` has reserved.
use collmind_backend.Base.{
  ◌≡◌, refl, ap, ◌∙◌, true, false, Option, some, [], Uuid, Text, int_laws, exists,
}
use collmind_backend.Entities.Budget.{Envelope, Transaction, TxType, SourceType}
use collmind_backend.Entities.Agreement.{Agreement, AgreementStatus, is_running}
use collmind_backend.Db.{Db, ok, or_throw, throw_if, try_wrap}
use collmind_backend.Db.Ends.{returned}
use collmind_backend.Budget.Repository.{same_key, available_amount, find_transactions_by_source}
use collmind_backend.Budget.Repository.Summary.{
  insert_transaction, stored, available-insert, free-insert,
}
use collmind_backend.Budget.Service.{key, existing_posting}
use collmind_backend.Budget.Service.Agreement.{release_of, release_for_agreement_free}
use collmind_backend.Budget.Service.Calls.{existing-insert_self}
use collmind_backend.Agreements.Repository.{
  find_agreement, with_agreement, find_agreement-same, find-with_agreement, update_status,
  update_agreement_lem,
}
use collmind_backend.Agreements.Service.{
  get_agreement, approve_agreement, approved_fields, cancel_agreement, cancelled_fields,
  release_reservation,
}
use collmind_backend.Agreements.Service.Outcome.{moved}
use collmind_backend.Agreements.Service.Approve.{approve_agreement_outcome}
use collmind_backend.Agreements.Service.Reservation.{
  NoReservation, available-same, first_one, wanted,
}

-- No release of the agreement stands under its key for an envelope, deleted rows counted.
abbrev pub NoRelease : Uuid → Uuid → Uuid → Db → Type 0
NoRelease agreement_id tenant_id envelope_id db =
    exists
      (same_key tenant_id (key TxType.release SourceType.agreement agreement_id (some envelope_id)))
      db.transactions
    ≡ false

existing-same :
    (tenant_id : Uuid) (s : SourceType) (source_id : Uuid) (t : TxType) (db db' : Db)
    → db'.transactions ≡ db.transactions
    → existing_posting tenant_id s source_id t db' ≡ existing_posting tenant_id s source_id t db
unfolding existing_posting find_transactions_by_source
existing-same tenant_id s source_id t db db' same = rw same refl

module _ (id tenant_id user_id : Uuid) (a : Agreement) (tx : Transaction) (db : Db) where
  -- The release that a cancellation posts.
  abbrev pub freed : Transaction
  freed =
      release_of a.id a.cap_total_amount [] [] a.currency tenant_id user_id tx.envelope_id user_id

  abbrev change : Agreement → Agreement
  change = moved AgreementStatus.cancelled (cancelled_fields user_id)

  -- A running agreement with a posted reservation that was not released can be cancelled, and the
  -- cancellation posts the release.
  pub cancel_releases :
      find_agreement id tenant_id db ≡ some a
      → is_running a.status ≡ true
      → existing_posting tenant_id SourceType.agreement a.id TxType.reserve db ≡ some tx
      → NoRelease a.id tenant_id tx.envelope_id db
      → cancel_agreement id tenant_id user_id db
        ≡ (ok (change a), with_agreement id tenant_id change (insert_transaction freed db))
  unfolding cancel_agreement get_agreement release_reservation try_wrap or_throw throw_if
      update_status
  cancel_releases found running reserved free =
      let here = find_agreement-same id tenant_id db (insert_transaction freed db) refl ∙ found in
      rw found (
        rw running (
          rw reserved (
            rw
              (release_for_agreement_free a.id a.cap_total_amount [] [] a.currency tenant_id user_id
                tx.envelope_id user_id db free)
              (update_agreement_lem id tenant_id change (insert_transaction freed db) a
                (λ b. (refl, refl, refl)) here))))

  -- The release gives the amount back that an earlier posting had taken.
  gives_back :
      (channel : Text) (approver : Uuid) (f e : Envelope) (before : Db)
      → tx.envelope_id ≡ e.id
      → available_amount f db
        ≡ available_amount f
            (insert_transaction (wanted id tenant_id a channel before approver e) before)
      → available_amount f (insert_transaction freed db) ≡ available_amount f before
  gives_back channel approver f e before same_envelope same_amount = grind (
    int_laws,
    available-insert f freed db,
    available-insert f (wanted id tenant_id a channel before approver e) before,
  )

-- An approval that goes through, as the first reservation of the agreement, can be undone: anybody
-- can then cancel the agreement, and after that every envelope has the amount available that it
-- had before the approval. Assumed is that no release stands under a key of the agreement.
pub approve-cancel_restores :
    (id tenant_id user_id canceller : Uuid) (comments : Option Text) (a a1 : Agreement) (db d1 : Db)
    → find_agreement id tenant_id db ≡ some a
    → NoReservation a.id tenant_id db
    → ((envelope_id : Uuid) → NoRelease a.id tenant_id envelope_id db)
    → approve_agreement id tenant_id user_id comments db ≡ (ok a1, d1)
    → (a2 : Agreement) × (d2 : Db) × (cancel_agreement id tenant_id canceller d1 ≡ (ok a2, d2))
      × (a2.status ≡ AgreementStatus.cancelled)
      × ((f : Envelope) → available_amount f d2 ≡ available_amount f db)
approve-cancel_restores id tenant_id user_id canceller comments a a1 db d1 found first free h =
    let done = returned (approve_agreement_outcome id tenant_id user_id db a comments found) h in
    let (e, _, made, stored_one) =
      first_one id tenant_id a (done.channel) db user_id (done.reservation) (done.between) first
        (done.reserved) in
    let posted = insert_transaction (wanted id tenant_id a (done.channel) db user_id e) db in
    let same = done.kept ∙ ap (λ d. d.transactions) stored_one in
    let same_ledger = done.ledger_kept ∙ ap (λ d. d.ledger_entries) stored_one in
    let now = moved AgreementStatus.approved (approved_fields db.now user_id) in
    let b = now a in
    let tx = stored (wanted id tenant_id a (done.channel) db user_id e) db in
    let here =
      find_agreement-same id tenant_id (with_agreement id tenant_id now db) d1 (done.row.1)
      ∙ find-with_agreement id tenant_id now db (λ c. (refl, refl, refl)) found in
    (
      change id tenant_id canceller b tx d1 b,
      with_agreement id tenant_id (change id tenant_id canceller b tx d1)
          (insert_transaction (freed id tenant_id canceller b tx d1) d1),
      cancel_releases id tenant_id canceller b tx d1 here refl
          (existing-same tenant_id SourceType.agreement a.id TxType.reserve posted d1 same
            ∙ existing-insert_self _ _ _ _ _ _ _ _ _ _)
          (rw same (
            free-insert tenant_id (key TxType.release SourceType.agreement a.id (some e.id))
              (wanted id tenant_id a (done.channel) db user_id e) db refl (free e.id))),
      refl,
      λ f.
          available-same f (insert_transaction (freed id tenant_id canceller b tx d1) d1) _ refl
            refl
          ∙ gives_back id tenant_id canceller b tx d1 (done.channel) user_id f e db refl
              (available-same f posted d1 same same_ledger),
    )
