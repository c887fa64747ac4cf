-- ===== src/Lta/Calls.antt =====
-- The calls on the long-term agreements, in any order.
use collmind_backend.Base.{ℕ, Uuid, Bool, List, [], ◌∷◌}
use collmind_backend.Db.{Db}
use collmind_backend.Lta.Service.{
  CreateLtaAgreementDto, UpdateLtaAgreementDto, create_lta, update_lta, activate_lta, terminate_lta,
}

-- The calls that write.
pub data LtaOperation : Type 0 where
  create : CreateLtaAgreementDto → LtaOperation
  update : Uuid → UpdateLtaAgreementDto → LtaOperation
  activate : Uuid → LtaOperation
  terminate : Uuid → LtaOperation

module _ (has_cpl : Uuid → Uuid → Bool) (today : ℕ → ℕ) where
  -- The database behind an operation of a tenant, whether it returned or threw.
  abbrev pub after : Uuid → LtaOperation → Db → Db
  after tenant_id (LtaOperation.create dto) db = (create_lta has_cpl today tenant_id dto db).1
  after tenant_id (LtaOperation.update id dto) db = (update_lta tenant_id id dto db).1
  after tenant_id (LtaOperation.activate id) db = (activate_lta tenant_id id db).1
  after tenant_id (LtaOperation.terminate id) db = (terminate_lta tenant_id id db).1

  abbrev pub after_all : List (Uuid × LtaOperation) → Db → Db
  after_all [] db = db
  after_all ((tenant_id, operation) ∷ calls) db = after_all calls (after tenant_id operation db)
