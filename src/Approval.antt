-- ===== src/Approval.antt =====
-- approval.service.ts and approval.repository.ts: requests that pass through levels of approval.
pub mod Rows
pub mod Levels
pub mod Requests
use collmind_backend.Base.{
  ℕ, zero, suc, ◌+◌, Uuid, Text, codes, text_eq, Bool, false, ◌&&◌, not, Option, none, some, List,
  [], ◌∷◌, ◌==◌, leb, if◌then◌else◌, length, get_elem?, set, find, every, update_where,
}
use collmind_backend.Entities.Approval.{
  ApprovalRequest, RequestType, RequestStatus, is_pending, Level, LevelStatus, is_approved,
}
use collmind_backend.Db.{
  Db, Action, Error, request_exists, request_not_found, request_not_pending, own_request,
  not_requester, request_lost, ◌>>=◌, ◌>>◌, query, or_throw, throw_if, return, write, new_id,
}

-- `{ id, tenantId }`, and with it a NULL `deletedAt`.
abbrev pub is_request : Uuid → Uuid → ApprovalRequest → Bool
is_request id tenant_id r = (r.id == id) && (r.tenant_id == tenant_id)

abbrev pub is_live_request : Uuid → Uuid → ApprovalRequest → Bool
is_live_request id tenant_id r = is_request id tenant_id r && not r.deleted

unfoldable pub find_request : Uuid → Uuid → Db → Option ApprovalRequest
find_request id tenant_id db = find (is_live_request id tenant_id) db.requests

abbrev pub is_for : Text → Uuid → Uuid → ApprovalRequest → Bool
is_for entity_type entity_id tenant_id r =
    text_eq r.entity_type entity_type
    && (r.entity_id == entity_id)
    && (r.tenant_id == tenant_id)
    && not r.deleted

-- The newest request of the entity.
unfoldable pub find_by_entity_id : Text → Uuid → Uuid → Db → Option ApprovalRequest
find_by_entity_id entity_type entity_id tenant_id db =
    find (is_for entity_type entity_id tenant_id) db.requests

-- `approvalRepo.findById`, and the exception of the service's `findById`.
unfoldable pub find_by_id : Uuid → Uuid → Action ApprovalRequest
find_by_id id tenant_id = do
  found ← query (find_request id tenant_id)
  or_throw (Error.not_found request_not_found) found

-- `ApprovalRepository.update`: the rows are changed, and the changed row is read back.
unfoldable pub update_request :
    Uuid → Uuid → (ApprovalRequest → ApprovalRequest) → Action ApprovalRequest
update_request id tenant_id change = do
  write (λ db. record db { requests = update_where (is_request id tenant_id) change db.requests })
  updated ← query (find_request id tenant_id)
  or_throw (Error.plain request_lost) updated

-- A level as a caller gives it.
pub record LevelDto : Type 0 where
  pub order : ℕ
  pub role : Text
  pub user_id : Option Uuid
  pub status : Option LevelStatus

abbrev or_pending : Option LevelStatus → LevelStatus
or_pending none = LevelStatus.pending
or_pending (some s) = s

abbrev pub new_level : ℕ → Text → Option Uuid → LevelStatus → Level
new_level order role user_id status = record {
  order = order;
  role = role;
  user_id = user_id;
  status = status;
  approved_at = none;
  approved_by_id = none;
  rejection_reason = none;
  comments = none;
}

abbrev pub given_levels : List LevelDto → List Level
given_levels [] = []
given_levels (l ∷ ls) = new_level l.order l.role l.user_id (or_pending l.status) ∷ given_levels ls

-- One level by default.
abbrev pub levels_of : Option (List LevelDto) → List Level
levels_of none = new_level 1 (codes "APPROVER") none LevelStatus.pending ∷ []
levels_of (some ls) = given_levels ls

pub record CreateRequestDto : Type 0 where
  pub request_type : RequestType
  pub entity_type : Text
  pub entity_id : Uuid
  pub approval_levels : Option (List LevelDto)

abbrev pub request_of : CreateRequestDto → Uuid → Uuid → ℕ → Uuid → ApprovalRequest
request_of dto tenant_id requester_id now id = record {
  id = id;
  tenant_id = tenant_id;
  request_type = dto.request_type;
  entity_type = dto.entity_type;
  entity_id = dto.entity_id;
  requested_by_id = requester_id;
  requested_at = now;
  approval_levels = levels_of dto.approval_levels;
  current_level = 1;
  status = RequestStatus.pending;
  approved_at = none;
  approved_by_id = none;
  rejected_at = none;
  rejected_by_id = none;
  rejection_reason = none;
  cancelled_at = none;
  cancelled_by_id = none;
  updated_by = none;
  deleted = false;
}

abbrev pub has_pending : Option ApprovalRequest → Bool
has_pending none = false
has_pending (some r) = is_pending r.status

-- `createRequest`.
unfoldable pub create_request : CreateRequestDto → Uuid → Uuid → Action ApprovalRequest
create_request dto tenant_id requester_id = do
  existing ← query (find_by_entity_id dto.entity_type dto.entity_id tenant_id)
  throw_if (has_pending existing) (Error.bad_request request_exists)
  id ← new_id
  now ← query (λ db. db.now)
  let request = request_of dto tenant_id requester_id now id
  write (λ db. record db { requests = request ∷ db.requests })
  return request

-- `levels[currentLevel - 1]`: there is no level 0.
abbrev pub level_at : ℕ → List Level → Option Level
level_at zero ls = none
level_at (suc i) ls = get_elem? ls i

abbrev pub set_level : ℕ → Level → List Level → List Level
set_level zero l ls = ls
set_level (suc i) l ls = set ls i l

-- A column is kept where the update leaves it undefined.
abbrev pub or_keep {ℓ} : {A : Type ℓ} → Option A → Option A → Option A
or_keep none old = old
or_keep (some a) old = some a

-- `if (dto?.comments)`: an empty comment is not stored.
abbrev pub nonempty : Option Text → Option Text
nonempty none = none
nonempty (some []) = none
nonempty (some (a ∷ s)) = some (a ∷ s)

abbrev pub approve_level : Uuid → ℕ → Option Text → ℕ → List Level → List Level
approve_level approver_id now comments current ls = elim (level_at current ls) [
  | none ↦ ls
  | some l ↦
      set_level current
        (record l {
          status = LevelStatus.approved;
          approved_at = some now;
          approved_by_id = some approver_id;
          comments = or_keep (nonempty comments) l.comments;
        })
        ls
]

abbrev pub all_approved : List Level → Bool
all_approved = every (λ l. is_approved l.status)

-- The columns that `approve` writes to the row, computed from the request that it has read.
unfoldable pub approved_row :
    Uuid → ℕ → Option Text → ApprovalRequest → ApprovalRequest → ApprovalRequest
approved_row approver_id now comments r row =
    let levels = approve_level approver_id now comments r.current_level r.approval_levels in
    let done = all_approved levels in
    let has_more = leb (r.current_level + 1) (length levels) && not done in
    record row {
      status = if done then RequestStatus.approved else RequestStatus.pending;
      approval_levels = levels;
      current_level = if has_more then r.current_level + 1 else r.current_level;
      approved_at = if done then some now else row.approved_at;
      approved_by_id = if done then some approver_id else row.approved_by_id;
      updated_by = some approver_id;
    }

unfoldable pub approve : Uuid → Uuid → Uuid → Option Text → Action ApprovalRequest
approve id tenant_id approver_id comments = do
  request ← find_by_id id tenant_id
  throw_if (not (is_pending request.status)) (Error.bad_request request_not_pending)
  throw_if (request.requested_by_id == approver_id) (Error.forbidden own_request)
  now ← query (λ db. db.now)
  update_request id tenant_id (approved_row approver_id now comments request)

abbrev pub reject_level : Uuid → ℕ → Text → ℕ → List Level → List Level
reject_level rejector_id now reason current ls = elim (level_at current ls) [
  | none ↦ ls
  | some l ↦
      set_level current
        (record l {
          status = LevelStatus.rejected;
          approved_at = some now;
          approved_by_id = some rejector_id;
          rejection_reason = some reason;
        })
        ls
]

unfoldable pub rejected_row : Uuid → ℕ → Text → ApprovalRequest → ApprovalRequest → ApprovalRequest
rejected_row rejector_id now reason r row = record row {
  status = RequestStatus.rejected;
  approval_levels = reject_level rejector_id now reason r.current_level r.approval_levels;
  rejected_at = some now;
  rejected_by_id = some rejector_id;
  rejection_reason = some reason;
  updated_by = some rejector_id;
}

unfoldable pub reject : Uuid → Uuid → Uuid → Text → Action ApprovalRequest
reject id tenant_id rejector_id reason = do
  request ← find_by_id id tenant_id
  throw_if (not (is_pending request.status)) (Error.bad_request request_not_pending)
  throw_if (request.requested_by_id == rejector_id) (Error.forbidden own_request)
  now ← query (λ db. db.now)
  update_request id tenant_id (rejected_row rejector_id now reason request)

unfoldable pub cancelled_row : Uuid → ℕ → ApprovalRequest → ApprovalRequest
cancelled_row user_id now row = record row {
  status = RequestStatus.cancelled;
  cancelled_at = some now;
  cancelled_by_id = some user_id;
  updated_by = some user_id;
}

pub cancel : Uuid → Uuid → Uuid → Action ApprovalRequest
cancel id tenant_id user_id = do
  request ← find_by_id id tenant_id
  throw_if (not (is_pending request.status)) (Error.bad_request request_not_pending)
  throw_if (not (request.requested_by_id == user_id)) (Error.forbidden not_requester)
  now ← query (λ db. db.now)
  update_request id tenant_id (cancelled_row user_id now)
