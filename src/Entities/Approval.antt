-- ===== src/Entities/Approval.antt =====
-- approval-request.entity.ts.
use collmind_backend.Base.{ℕ, Uuid, Text, Bool, Option, List}

pub data RequestType : Type 0 where
  agreement plan budget_transfer import_batch other : RequestType

pub data RequestStatus : Type 0 where
  pending approved rejected cancelled : RequestStatus

abbrev pub is_pending : RequestStatus → Bool
is_pending RequestStatus.pending = Bool.true
is_pending _ = Bool.false

pub data LevelStatus : Type 0 where
  pending approved rejected : LevelStatus

abbrev pub is_approved : LevelStatus → Bool
is_approved LevelStatus.approved = Bool.true
is_approved _ = Bool.false

-- One element of the `approvalLevels` column; `comments` is the field that `approve` adds to it.
pub record Level : Type 0 where
  pub order : ℕ
  pub role : Text
  pub user_id : Option Uuid
  pub status : LevelStatus
  pub approved_at : Option ℕ
  pub approved_by_id : Option Uuid
  pub rejection_reason : Option Text
  pub comments : Option Text

pub record ApprovalRequest : Type 0 where
  pub id : Uuid
  pub tenant_id : Uuid
  pub request_type : RequestType
  pub entity_type : Text
  pub entity_id : Uuid
  pub requested_by_id : Uuid
  pub requested_at : ℕ
  pub approval_levels : List Level
  pub current_level : ℕ
  pub status : RequestStatus
  pub approved_at : Option ℕ
  pub approved_by_id : Option Uuid
  pub rejected_at : Option ℕ
  pub rejected_by_id : Option Uuid
  pub rejection_reason : Option Text
  pub cancelled_at : Option ℕ
  pub cancelled_by_id : Option Uuid
  pub updated_by : Option Uuid
  pub deleted : Bool
