-- ===== src/Agreements/Service/Outcome.antt =====
-- What a call of the agreement service leaves behind, on every way it ends.
use collmind_backend.Base.{
  update_where, ◌≡◌, ◌≢◌, refl, sym, ap, ◌∙◌, true, Option, none, some, Uuid, Text, arith,
}
use collmind_backend.Entities.Budget.{Transaction}
use collmind_backend.Entities.Approval.{ApprovalRequest}
use collmind_backend.Entities.Agreement.{
  Agreement, AgreementStatus, same_agreement_status, is_running,
}
use collmind_backend.Db.{Db, Error, or_throw}
use collmind_backend.Db.Ends.{
  Ends, returns, weaken, bind_rule, or_throw_rule, or_throw_found, throw_if_rule, try_wrap_rule,
}
use collmind_backend.Budget.Service.Frame.{Frame, Frame-refl, release_for_agreement-Frame}
use collmind_backend.Entities.Approval.{is_pending}
use collmind_backend.Approval.{rejected_row, find_request}
use collmind_backend.Approval.Rows.{Decided, with_row, reject_outcome}
use collmind_backend.Approval.Requests.{created, queued, create_request_writes}
use collmind_backend.Plans.Review.Request.{find_request-same}
use collmind_backend.Agreements.Repository.{
  is_agreement, KeepsAgreement, find_agreement, with_agreement, find_agreement-same,
  update_agreement_rule, update_status, soft_delete_agreement,
}
use collmind_backend.Agreements.Service.{
  get_agreement, submit_agreement, submitted_fields, request_for, reject_agreement, rejected_fields,
  cancel_agreement, cancelled_fields, delete_agreement, release_reservation,
}

-- A row with a new status and the fields that go with it.
abbrev pub moved : AgreementStatus → (Agreement → Agreement) → Agreement → Agreement
moved status fields a = fields (record a { status = status })

-- The call has read the row it was given, which the tenant has under the id.
module _ (id tenant_id user_id : Uuid) (db : Db) (a : Agreement) where
  -- The row that is returned, and the table of agreements.
  abbrev pub Moved : AgreementStatus → (Agreement → Agreement) → Agreement → Db → Type 0
  Moved status fields a' db' =
      (a' ≡ moved status fields a)
      × (db'.agreements ≡ (with_agreement id tenant_id (moved status fields) db).agreements)

  abbrev pub Submitted : Agreement → Db → Type 0
  Submitted a' db' =
      (same_agreement_status a.status AgreementStatus.draft ≡ true)
      × Moved AgreementStatus.pending
          (submitted_fields (created (request_for a) tenant_id user_id db).id user_id) a' db'
      × (find_request (created (request_for a) tenant_id user_id db).id tenant_id db'
          ≡ some (created (request_for a) tenant_id user_id db))

  -- The last step of a call that has left the agreements alone so far.
  pub update_status_rule :
      {P : Agreement → Db → Type 0} {E : Error → Db → Type 0} (status : AgreementStatus)
      (fields : Agreement → Agreement) (d : Db)
      → KeepsAgreement (moved status fields)
      → find_agreement id tenant_id db ≡ some a
      → d.agreements ≡ db.agreements
      → (Moved status fields
            (moved status fields a)
            (with_agreement id tenant_id (moved status fields) d)
          → P (moved status fields a) (with_agreement id tenant_id (moved status fields) d))
      → Ends P E (update_status id tenant_id status fields d)
  unfolding update_status
  update_status_rule status fields d keeps found same next =
      update_agreement_rule id tenant_id (moved status fields) d a keeps
        (find_agreement-same id tenant_id db d same ∙ found)
        (next (refl, ap (update_where (is_agreement id tenant_id) (moved status fields)) same))

  pub submit_agreement_outcome :
      find_agreement id tenant_id db ≡ some a
      → Ends Submitted (λ e db'. db' ≡ db) (submit_agreement id tenant_id user_id db)
  unfolding submit_agreement get_agreement or_throw
  submit_agreement_outcome found = rw found (
      throw_if_rule _ _ _ _ (λ other. refl)
        λ draft. bind_rule _ (
          weaken
            (λ r d (made, written, by_id).
              rw (made, written)
                (update_status_rule AgreementStatus.pending
                  (submitted_fields (created (request_for a) tenant_id user_id db).id user_id)
                  (queued (request_for a) tenant_id user_id db) (λ b. (refl, refl, refl)) found refl
                  (λ row. (
                    ground arith,
                    row,
                    find_request-same _ tenant_id (queued (request_for a) tenant_id user_id db) _
                          refl
                        ∙ by_id,
                  ))))
            (λ e d same. same) (create_request_writes (request_for a) tenant_id user_id db)))

  -- A decision on the request of the agreement that went through.
  pub record Closed (change : ApprovalRequest → ApprovalRequest → ApprovalRequest) (db' : Db)
      : Type 0 where
    pub request_id : Uuid
    pub before : ApprovalRequest
    pub named : a.approval_request_id ≡ some request_id
    pub found : find_request request_id tenant_id db ≡ some before
    pub was_pending : is_pending before.status ≡ true
    pub other_user : before.requested_by_id ≢ user_id
    pub closed : find_request request_id tenant_id db' ≡ some (change before before)

  -- The request of the agreement, after a step that has left the requests alone.
  pub Decided-Closed :
      (change : ApprovalRequest → ApprovalRequest → ApprovalRequest) (request_id : Uuid)
      (r : ApprovalRequest) (d1 d2 db' : Db)
      → a.approval_request_id ≡ some request_id
      → d1.requests ≡ db.requests
      → Decided request_id tenant_id d1 (λ q. q.requested_by_id ≢ user_id) change r d2
      → db'.requests ≡ d2.requests
      → Closed change db'
  Decided-Closed change request_id r d1 d2 db' named same d same' = record {
    request_id = request_id;
    before = d.before;
    named = named;
    found = sym (find_request-same request_id tenant_id db d1 same) ∙ d.found;
    was_pending = d.was_pending;
    other_user = d.permitted;
    closed = find_request-same request_id tenant_id d2 db' same' ∙ d.read_back ∙ ap some d.changed;
  }

  abbrev pub Rejected : Text → Agreement → Db → Type 0
  Rejected reason a' db' =
      (same_agreement_status a.status AgreementStatus.pending ≡ true)
      × Moved AgreementStatus.rejected (rejected_fields db.now user_id reason) a' db'
      × Closed (rejected_row user_id db.now reason) db'
      × (db'.transactions ≡ db.transactions)
      × (db'.ledger_entries ≡ db.ledger_entries)

  pub reject_agreement_outcome :
      (reason : Text)
      → find_agreement id tenant_id db ≡ some a
      → Ends (Rejected reason) (λ e db'. db' ≡ db) (reject_agreement id tenant_id user_id reason db)
  unfolding reject_agreement get_agreement
  reject_agreement_outcome reason found = or_throw_found _ _ _ db a found (
      throw_if_rule _ _ _ _ (λ other. refl)
        λ pending.
          or_throw_rule _ _ _ _ (λ missing. refl)
            λ request_id named. bind_rule _ (
              weaken
                (λ r d1 d. rw (d.written) (
                  update_status_rule AgreementStatus.rejected
                    (rejected_fields db.now user_id reason)
                    (with_row request_id tenant_id (rejected_row user_id db.now reason d.before) db)
                    (λ b. (refl, refl, refl)) found refl
                    (λ row. (
                      ground arith,
                      row,
                      Decided-Closed _ request_id r db d1 _ named refl d
                          (sym (ap (λ e. e.requests) (d.written))),
                      refl,
                      refl,
                    ))))
                (λ e d1 same. same) (reject_outcome request_id tenant_id db user_id reason)))

  abbrev pub Cancelled : Agreement → Db → Type 0
  Cancelled a' db' =
      (is_running a.status ≡ true)
      × Moved AgreementStatus.cancelled (cancelled_fields user_id) a' db'

  release_reservation-Frame :
      (reserve_tx : Option Transaction)
      → Ends
          (λ _ db'. Frame db db')
          (λ e db'. Frame db db')
          (release_reservation reserve_tx a tenant_id user_id db)
  unfolding release_reservation
  release_reservation-Frame none = returns (Frame-refl db)
  release_reservation-Frame (some tx) = try_wrap_rule _ _ _ _ (
      weaken (λ t d f. returns f) (λ e d f. f)
        (release_for_agreement-Frame a.id tx.envelope_id a.cap_total_amount a.currency tenant_id
          user_id db))

  pub cancel_agreement_outcome :
      find_agreement id tenant_id db ≡ some a
      → Ends Cancelled (λ e db'. Frame db db') (cancel_agreement id tenant_id user_id db)
  unfolding cancel_agreement get_agreement or_throw
  cancel_agreement_outcome found = rw found (
      throw_if_rule _ _ _ _ (λ other. Frame-refl db)
        λ running. bind_rule _ (
          weaken
            (λ _ d1 f.
              update_status_rule AgreementStatus.cancelled (cancelled_fields user_id) d1
                (λ b. (refl, refl, refl)) found f.agreements (λ row. (ground arith, row)))
            (λ e d1 f. f) (release_reservation-Frame _)))

  abbrev pub Deleted : Db → Type 0
  Deleted db' =
      (same_agreement_status a.status AgreementStatus.draft ≡ true)
      × (db' ≡ with_agreement id tenant_id (λ b. record b { deleted = true }) db)

  pub delete_agreement_outcome :
      find_agreement id tenant_id db ≡ some a
      → Ends (λ _ db'. Deleted db') (λ e db'. db' ≡ db) (delete_agreement id tenant_id user_id db)
  unfolding delete_agreement get_agreement soft_delete_agreement or_throw
  delete_agreement_outcome found =
      rw found (throw_if_rule _ _ _ _ (λ other. refl) λ draft. returns (ground arith, refl))
