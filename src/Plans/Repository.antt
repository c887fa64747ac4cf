-- ===== src/Plans/Repository.antt =====
-- plan.repository.ts: the queries and updates that the workflow uses.
pub mod Rows
use collmind_backend.Base.{
  Uuid, Bool, ◌&&◌, not, true, Option, none, some, List, ◌==◌, find, select, update_where,
  find-update_where, find-update_where_ne, ◌≡◌, ◌≢◌, arith,
}
use collmind_backend.Entities.Plan.{Plan, PlanStatus, same_status}
use collmind_backend.Db.{Db, Action, ok, Error, plan_lost, ◌>>=◌, ◌>>◌, query, or_throw, write}

-- `{ id, tenantId }`, and with it a NULL `deletedAt`.
abbrev pub is_plan : Uuid → Uuid → Plan → Bool
is_plan id tenant_id p = (p.id == id) && (p.tenant_id == tenant_id)

abbrev pub is_live_plan : Uuid → Uuid → Plan → Bool
is_live_plan id tenant_id p = is_plan id tenant_id p && not p.deleted

-- `findById`.
unfoldable pub find_plan : Uuid → Uuid → Db → Option Plan
find_plan id tenant_id db = find (is_live_plan id tenant_id) db.plans

pub record PlanFilters : Type 0 where
  pub status : Option PlanStatus
  pub cpl_id : Option Uuid
  pub channel_id : Option Uuid
  pub category_id : Option Uuid

abbrev id_passes : Option Uuid → Uuid → Bool
id_passes none id = true
id_passes (some a) id = id == a

abbrev status_passes : Option PlanStatus → PlanStatus → Bool
status_passes none s = true
status_passes (some t) s = same_status s t

abbrev pub passes : Uuid → PlanFilters → Plan → Bool
passes tenant_id filters p =
    (p.tenant_id == tenant_id)
    && not p.deleted
    && status_passes filters.status p.status
    && id_passes filters.cpl_id p.cpl_id
    && id_passes filters.channel_id p.channel_id
    && id_passes filters.category_id p.category_id

-- `findAll`, newest first.
unfoldable pub find_all : Uuid → PlanFilters → Db → List Plan
find_all tenant_id filters db = select (passes tenant_id filters) db.plans

-- The table after an update of one row.
abbrev pub with_plan : Uuid → Uuid → (Plan → Plan) → Db → Db
with_plan id tenant_id change db = record db {
  plans = update_where (is_plan id tenant_id) change db.plans;
}

-- `update` and `updateStatus`: the row is changed and read back.
unfoldable pub update_plan : Uuid → Uuid → (Plan → Plan) → Action Plan
update_plan id tenant_id change = do
  write (with_plan id tenant_id change)
  updated ← query (find_plan id tenant_id)
  or_throw (Error.plain plan_lost) updated

-- `softDelete`.
pub soft_delete : Uuid → Uuid → Action (Unit {0})
soft_delete id tenant_id =
    write (λ db. with_plan id tenant_id (λ p. record p { deleted = true }) db)

-- An update keeps the columns by which a plan is found.
abbrev pub KeepsPlan : (Plan → Plan) → Type 0
KeepsPlan change =
    (p : Plan)
    → ((change p).id ≡ p.id)
      × ((change p).tenant_id ≡ p.tenant_id)
      × ((change p).deleted ≡ p.deleted)

module _ (id tenant_id : Uuid) (change : Plan → Plan) (keeps : KeepsPlan change) where
  pub find-with_plan :
      (db : Db) {p : Plan}
      → find_plan id tenant_id db ≡ some p
      → find_plan id tenant_id (with_plan id tenant_id change db) ≡ some (change p)
  unfolding find_plan
  find-with_plan db h =
      find-update_where (is_plan id tenant_id) (is_live_plan id tenant_id) change db.plans
        (λ p live. ground arith) (λ p. ground (arith, keeps p)) h

  pub find-with_plan_ne :
      (db : Db) (other tenant : Uuid)
      → other ≢ id
      → find_plan other tenant (with_plan id tenant_id change db) ≡ find_plan other tenant db
  unfolding find_plan
  find-with_plan_ne db other tenant ne =
      find-update_where_ne (is_plan id tenant_id) (is_live_plan other tenant) change db.plans
        (λ p hit. ground (arith, keeps p))

  pub update_plan_lem :
      (db : Db) {p : Plan}
      → find_plan id tenant_id db ≡ some p
      → update_plan id tenant_id change db ≡ (ok (change p), with_plan id tenant_id change db)
  unfolding update_plan or_throw
  update_plan_lem db h = rw (find-with_plan db h)
