-- ===== src/Approval/Requests.antt =====
-- `createRequest`: one pending request for an entity at a time.
use collmind_backend.Base.{ℕ, ◌+◌, ◌≡◌, refl, Uuid, false, some, ◌∷◌, arith, text_eq_refl}
use collmind_backend.Entities.Approval.{ApprovalRequest}
use collmind_backend.Db.{Db, Error, ok, err, request_exists, throw_if}
use collmind_backend.Db.Ends.{Ends, returns, returned, throw_if_rule}
use collmind_backend.Approval.{
  CreateRequestDto, create_request, request_of, has_pending, find_by_entity_id, find_request,
}

module _ (dto : CreateRequestDto) (tenant_id requester_id : Uuid) where
  abbrev pub created : Db → ApprovalRequest
  created db = request_of dto tenant_id requester_id db.now (db.uuids db.drawn)

  newest :
      (db : Db) (k : ℕ)
      → find_by_entity_id dto.entity_type dto.entity_id tenant_id
          (record db { requests = created db ∷ db.requests; drawn = k })
        ≡ some (created db)
  unfolding find_by_entity_id
  newest db k = ground (arith, text_eq_refl dto.entity_type)

  -- The request is the entity's newest one in every database that lists it first.
  pub newest_of :
      (db db' : Db)
      → db'.requests ≡ created db ∷ db.requests
      → find_by_entity_id dto.entity_type dto.entity_id tenant_id db' ≡ some (created db)
  unfolding find_by_entity_id
  newest_of db db' listed = rw listed (ground (arith, text_eq_refl dto.entity_type))

  by_id :
      (db : Db) (k : ℕ)
      → find_request
          (db.uuids db.drawn)
          tenant_id
          (record db { requests = created db ∷ db.requests; drawn = k })
        ≡ some (created db)
  unfolding find_request
  by_id db k = ground arith

  abbrev pub queued : Db → Db
  queued db = record db { requests = created db ∷ db.requests; drawn = db.drawn + 1 }

  -- The tables after the call: the request is the one row that is new.
  pub create_request_writes :
      (db : Db)
      → Ends
          (λ r db'.
            (r ≡ created db)
            × (db' ≡ queued db)
            × (find_request (created db).id tenant_id (queued db) ≡ some (created db)))
          (λ e db'. db' ≡ db)
          (create_request dto tenant_id requester_id db)
  unfolding create_request
  create_request_writes db =
      throw_if_rule _ _ _ _ (λ pending. refl) λ free. returns (refl, refl, by_id db _)

  -- A request goes in when the newest one of the entity, if there is one, is decided.
  pub create_request_outcome :
      (db : Db)
      → Ends
          (λ r db'.
            (has_pending (find_by_entity_id dto.entity_type dto.entity_id tenant_id db) ≡ false)
            × (r ≡ created db)
            × (db'.requests ≡ created db ∷ db.requests)
            × (find_by_entity_id dto.entity_type dto.entity_id tenant_id db' ≡ some r)
            × (find_request r.id tenant_id db' ≡ some r))
          (λ e db'. (e ≡ Error.bad_request request_exists) × (db' ≡ db))
          (create_request dto tenant_id requester_id db)
  unfolding create_request
  create_request_outcome db =
      throw_if_rule _ _ _ _ (λ pending. (refl, refl))
        λ free. returns (free, refl, refl, newest db _, by_id db _)

  -- A second request for the entity, by anybody and with any levels, is refused while the first
  -- is pending.
  pub create_request_once :
      (dto' : CreateRequestDto) (requester' : Uuid) (db db' : Db) (r : ApprovalRequest)
      → dto'.entity_type ≡ dto.entity_type
      → dto'.entity_id ≡ dto.entity_id
      → create_request dto tenant_id requester_id db ≡ (ok r, db')
      → create_request dto' tenant_id requester' db' ≡ (err (Error.bad_request request_exists), db')
  unfolding create_request throw_if
  create_request_once dto' requester' db db' r same_type same_id h =
      let (_, made, _, found, _) = returned (create_request_outcome db) h in
      rw (same_type, same_id) (rw found (rw made refl))
