-- ===== src/Approval/Rows.antt =====
-- How a decision on a request changes the table, and when it is refused.
use collmind_backend.Base.{
  ◌≡◌, refl, ◌≢◌, Uuid, Text, true, false, Option, some, arith, ==_refl, find-update_where,
  find-update_where_ne, update_where,
}
use collmind_backend.Entities.Approval.{ApprovalRequest, is_pending}
use collmind_backend.Db.{
  Db, Error, ok, err, request_not_pending, own_request, not_requester, or_throw, throw_if,
}
use collmind_backend.Db.Ends.{Ends, returns, or_throw_rule, throw_if_rule}
use collmind_backend.Approval.{
  is_request, is_live_request, find_request, find_by_id, update_request, approve, reject, cancel,
  approved_row, rejected_row, cancelled_row,
}

-- The table after an update of one row.
abbrev pub with_row : Uuid → Uuid → (ApprovalRequest → ApprovalRequest) → Db → Db
with_row id tenant_id change db = record db {
  requests = update_where (is_request id tenant_id) change db.requests;
}

-- An update keeps the columns by which a request is found.
abbrev pub KeepsIdentity : (ApprovalRequest → ApprovalRequest) → Type 0
KeepsIdentity change =
    (r : ApprovalRequest)
    → ((change r).id ≡ r.id)
      × ((change r).tenant_id ≡ r.tenant_id)
      × ((change r).deleted ≡ r.deleted)

module _ (id tenant_id : Uuid) (change : ApprovalRequest → ApprovalRequest)
    (keeps : KeepsIdentity change) where
  pub find-with_row :
      (db : Db) {r : ApprovalRequest}
      → find_request id tenant_id db ≡ some r
      → find_request id tenant_id (with_row id tenant_id change db) ≡ some (change r)
  unfolding find_request
  find-with_row db h =
      find-update_where (is_request id tenant_id) (is_live_request id tenant_id) change db.requests
        (λ r live. ground arith) (λ r. ground (arith, keeps r)) h

  -- A request with another id is found as before.
  pub find-with_row_ne :
      (db : Db) (other tenant : Uuid)
      → other ≢ id
      → find_request other tenant (with_row id tenant_id change db) ≡ find_request other tenant db
  unfolding find_request
  find-with_row_ne db other tenant ne =
      find-update_where_ne (is_request id tenant_id) (is_live_request other tenant) change
        db.requests (λ r hit. ground (arith, keeps r))

  pub update_request_lem :
      (db : Db) {r : ApprovalRequest}
      → find_request id tenant_id db ≡ some r
      → update_request id tenant_id change db ≡ (ok (change r), with_row id tenant_id change db)
  unfolding update_request or_throw
  update_request_lem db h = rw (find-with_row db h)

module _ (id tenant_id : Uuid) (db : Db) where
  -- What holds when a decision on the request goes through: the request was pending and the actor
  -- was allowed to decide, the row that is read back is the new one, and every other request is
  -- found as before.
  pub record Decided (allowed : ApprovalRequest → Type 0)
      (change : ApprovalRequest → ApprovalRequest → ApprovalRequest) (r' : ApprovalRequest)
      (db' : Db) : Type 0 where
    pub before : ApprovalRequest
    pub found : find_request id tenant_id db ≡ some before
    pub was_pending : is_pending before.status ≡ true
    pub permitted : allowed before
    pub changed : r' ≡ change before before
    pub written : db' ≡ with_row id tenant_id (change before) db
    pub read_back : find_request id tenant_id db' ≡ some r'
    pub others :
        (other tenant : Uuid)
        → other ≢ id
        → find_request other tenant db' ≡ find_request other tenant db

  decided :
      (allowed : ApprovalRequest → Type 0)
      (change : ApprovalRequest → ApprovalRequest → ApprovalRequest) (r : ApprovalRequest)
      → KeepsIdentity (change r)
      → find_request id tenant_id db ≡ some r
      → is_pending r.status ≡ true
      → allowed r
      → Ends
          (Decided allowed change)
          (λ e db'. db' ≡ db)
          (update_request id tenant_id (change r) db)
  decided allowed change r keeps found pending permitted =
      rw (update_request_lem id tenant_id (change r) keeps db found) (
        returns (record {
          before = r;
          found = found;
          was_pending = pending;
          permitted = permitted;
          changed = refl;
          written = refl;
          read_back = find-with_row id tenant_id (change r) keeps db found;
          others = find-with_row_ne id tenant_id (change r) keeps db;
        }))

  -- `approve` writes the approved row of a pending request that someone else has made, or it
  -- throws and changes nothing.
  pub approve_outcome :
      (approver_id : Uuid) (comments : Option Text)
      → Ends
          (Decided
            (λ r. r.requested_by_id ≢ approver_id)
            (approved_row approver_id db.now comments))
          (λ e db'. db' ≡ db)
          (approve id tenant_id approver_id comments db)
  unfolding approve find_by_id
  approve_outcome approver_id comments =
      or_throw_rule _ _ _ _ (λ missing. refl)
        λ r found.
          throw_if_rule _ _ _ _ (λ closed. refl)
            λ pending.
              throw_if_rule _ _ _ _ (λ own. refl)
                λ other.
                  decided (λ r. r.requested_by_id ≢ approver_id)
                    (approved_row approver_id db.now comments) r
                    (λ row. unfold approved_row in (refl, refl, refl)) found (ground arith)
                    (ground arith)

  -- `reject` writes the rejected row of a pending request that someone else has made, or it throws
  -- and changes nothing.
  pub reject_outcome :
      (rejector_id : Uuid) (reason : Text)
      → Ends
          (Decided (λ r. r.requested_by_id ≢ rejector_id) (rejected_row rejector_id db.now reason))
          (λ e db'. db' ≡ db)
          (reject id tenant_id rejector_id reason db)
  unfolding reject find_by_id
  reject_outcome rejector_id reason =
      or_throw_rule _ _ _ _ (λ missing. refl)
        λ r found.
          throw_if_rule _ _ _ _ (λ closed. refl)
            λ pending.
              throw_if_rule _ _ _ _ (λ own. refl)
                λ other.
                  decided (λ r. r.requested_by_id ≢ rejector_id)
                    (rejected_row rejector_id db.now reason) r
                    (λ row. unfold rejected_row in (refl, refl, refl)) found (ground arith)
                    (ground arith)

  -- `cancel` writes the cancelled row of a pending request that the user has made, or it throws
  -- and changes nothing.
  pub cancel_outcome :
      (user_id : Uuid)
      → Ends
          (Decided (λ r. r.requested_by_id ≡ user_id) (λ r. cancelled_row user_id db.now))
          (λ e db'. db' ≡ db)
          (cancel id tenant_id user_id db)
  unfolding cancel find_by_id
  cancel_outcome user_id =
      or_throw_rule _ _ _ _ (λ missing. refl)
        λ r found.
          throw_if_rule _ _ _ _ (λ closed. refl)
            λ pending.
              throw_if_rule _ _ _ _ (λ other. refl)
                λ own.
                  decided (λ r. r.requested_by_id ≡ user_id) (λ r. cancelled_row user_id db.now) r
                    (λ row. unfold cancelled_row in (refl, refl, refl)) found (ground arith)
                    (ground arith)

  -- A request that is no longer pending cannot be approved, rejected or cancelled by anyone: each
  -- call throws the same error and changes nothing.
  pub decided_absorbs :
      (r : ApprovalRequest) (user_id : Uuid) (comments : Option Text) (reason : Text)
      → find_request id tenant_id db ≡ some r
      → is_pending r.status ≡ false
      → (approve id tenant_id user_id comments db
          ≡ (err (Error.bad_request request_not_pending), db))
        × (reject id tenant_id user_id reason db
            ≡ (err (Error.bad_request request_not_pending), db))
        × (cancel id tenant_id user_id db ≡ (err (Error.bad_request request_not_pending), db))
  unfolding approve reject cancel find_by_id or_throw throw_if
  decided_absorbs r user_id comments reason found closed =
      (rw found (rw closed), rw found (rw closed), rw found (rw closed))

  -- Separation of duties: the requester can neither approve nor reject a pending request, and a
  -- user who is not the requester cannot cancel it; the refused call changes nothing.
  pub duties_are_separate :
      (r : ApprovalRequest) (user_id : Uuid) (comments : Option Text) (reason : Text)
      → find_request id tenant_id db ≡ some r
      → is_pending r.status ≡ true
      → r.requested_by_id ≢ user_id
      → (approve id tenant_id r.requested_by_id comments db
          ≡ (err (Error.forbidden own_request), db))
        × (reject id tenant_id r.requested_by_id reason db
            ≡ (err (Error.forbidden own_request), db))
        × (cancel id tenant_id user_id db ≡ (err (Error.forbidden not_requester), db))
  unfolding approve reject cancel find_by_id or_throw throw_if
  duties_are_separate r user_id comments reason found pending other = (
    rw found (rw pending (rw (==_refl r.requested_by_id))),
    rw found (rw pending (rw (==_refl r.requested_by_id))),
    rw found (rw pending (ground arith)),
  )
