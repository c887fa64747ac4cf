-- ===== src/Plans/Review/Request.antt =====
-- The request of a reviewed plan is closed together with it.
use collmind_backend.Base.{◌≡◌, refl, sym, ap, ◌∙◌, true, Option, none, some, Uuid}
use collmind_backend.Entities.Approval.{ApprovalRequest, is_pending}
use collmind_backend.Db.{Db, Action}
use collmind_backend.Db.Ends.{Ends, returns, weaken, bind_rule}
use collmind_backend.Approval.{find_request}
use collmind_backend.Approval.Rows.{Decided}
use collmind_backend.Plans.Review.{when_request}

-- A request is read from its table alone.
pub find_request-same :
    (id tenant_id : Uuid) (db db' : Db)
    → db'.requests ≡ db.requests
    → find_request id tenant_id db' ≡ find_request id tenant_id db
unfolding find_request
find_request-same id tenant_id db db' same = rw same refl

module _ (tenant_id : Uuid) (allowed : ApprovalRequest → Type 0)
    (change : ApprovalRequest → ApprovalRequest → ApprovalRequest) where
  -- The request was pending, the reviewer was allowed to decide, and the row has changed.
  pub record ClosedRequest (id : Uuid) (db db' : Db) : Type 0 where
    pub before : ApprovalRequest
    pub was_pending : is_pending before.status ≡ true
    pub permitted : allowed before
    pub found : find_request id tenant_id db ≡ some before
    pub closed : find_request id tenant_id db' ≡ some (change before before)

  -- The request that the plan names, if it names one.
  abbrev pub Closes : Option Uuid → Db → Db → Type 0
  Closes none db db' = Unit
  Closes (some id) db db' = ClosedRequest id db db'

  pub Closes-same :
      (request_id : Option Uuid) (db d1 d2 db' : Db)
      → d1.requests ≡ db.requests
      → db'.requests ≡ d2.requests
      → Closes request_id d1 d2
      → Closes request_id db db'
  Closes-same none db d1 d2 db' same same' c = tt
  Closes-same (some id) db d1 d2 db' same same' c = record {
    before = c.before;
    was_pending = c.was_pending;
    permitted = c.permitted;
    found = sym (find_request-same id tenant_id db d1 same) ∙ c.found;
    closed = find_request-same id tenant_id d2 db' same' ∙ c.closed;
  }

  pub when_request_outcome :
      (request_id : Option Uuid) (m : Uuid → Action ApprovalRequest) (db : Db)
      → ((id : Uuid) → Ends (Decided id tenant_id db allowed change) (λ e db'. db' ≡ db) (m id db))
      → Ends
          (λ _ db'. (db'.plans ≡ db.plans) × (db'.now ≡ db.now) × Closes request_id db db')
          (λ e db'. db' ≡ db)
          (when_request request_id m db)
  unfolding when_request
  when_request_outcome none m db decides = returns (refl, refl, tt)
  when_request_outcome (some request_id) m db decides = bind_rule _ (
      weaken
        (λ r db' d. returns (
          rw (d.written) refl,
          rw (d.written) refl,
          record {
            before = d.before;
            was_pending = d.was_pending;
            permitted = d.permitted;
            found = d.found;
            closed = d.read_back ∙ ap some d.changed;
          },
        ))
        (λ e db' same. same) (decides request_id))
