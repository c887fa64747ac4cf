-- ===== src/Examples/Requests.antt =====
-- Approval requests.
use collmind_backend.Base.{text_eq, ◌≡◌, refl, some, [], ◌∷◌, arith, inl}
use collmind_backend.Entities.Approval.{ApprovalRequest, RequestStatus}
use collmind_backend.Db.{Db, ok, throw_if}
use collmind_backend.Approval.{find_request, find_by_entity_id, create_request}
use collmind_backend.Approval.Levels.{approve_each, approve_each-Reached, Reached}
use collmind_backend.Approval.Requests.{created}
use collmind_backend.Examples.Data.{
  tenant, planner, manager, director, two_levels, shop, new_agreement,
}

waiting : find_request 40 tenant shop ≡ some two_levels
unfolding find_request
waiting = refl

abbrev rejected_request : ApprovalRequest
rejected_request = record two_levels { status = RequestStatus.rejected }

abbrev after_rejection : Db
after_rejection = record shop { requests = rejected_request ∷ [] }

closed : find_request 40 tenant after_rejection ≡ some rejected_request
unfolding find_request
closed = refl

first_level : Reached 0 2 two_levels
first_level = (
  refl,
  inl (
    omega arith,
    record { pending = refl; current = refl; more = omega arith; staged = (refl, (refl, tt)) },
  ),
)

approve_each-Reached_example :
    (r : ApprovalRequest) × (db' : Db) × (approve_each 40 tenant (manager ∷ director ∷ []) shop
      ≡ (ok tt, db'))
    × (find_request 40 tenant db' ≡ some r)
    × Reached 2 2 r
approve_each-Reached_example =
    approve_each-Reached 40 tenant (manager ∷ director ∷ []) 0 2 shop two_levels waiting first_level
      (ground arith, (ground arith, tt)) (omega arith)

abbrev after_request : Db
after_request = record shop {
  requests = created new_agreement tenant planner shop ∷ shop.requests;
  drawn = 1;
}

requested :
    create_request new_agreement tenant planner shop
    ≡ (ok (created new_agreement tenant planner shop), after_request)
unfolding create_request find_by_entity_id throw_if text_eq
requested = refl
