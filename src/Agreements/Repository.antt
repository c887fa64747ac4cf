-- ===== src/Agreements/Repository.antt =====
-- agreement.repository.ts: the queries and updates of the life cycle.
use collmind_backend.Base.{
  Uuid, Text, Bool, ◌&&◌, ◌||◌, not, true, Option, none, some, List, [], ◌∷◌, ◌==◌, text_eq, find,
  select, update_where, find-update_where, find-update_where_ne, ◌≡◌, arith, refl, find_sound,
}
use collmind_backend.Entities.Agreement.{Agreement, AgreementStatus, same_agreement_status}
use collmind_backend.Db.{Db, Action, ok, Error, agreement_lost, ◌>>=◌, ◌>>◌, query, or_throw, write}
use collmind_backend.Db.Ends.{Ends}

-- `{ id, tenantId }`, and with it a NULL `deletedAt`.
abbrev pub is_agreement : Uuid → Uuid → Agreement → Bool
is_agreement id tenant_id a = (a.id == id) && (a.tenant_id == tenant_id)

abbrev pub is_live_agreement : Uuid → Uuid → Agreement → Bool
is_live_agreement id tenant_id a = is_agreement id tenant_id a && not a.deleted

-- `findById`; `findOne` leaves out rows with a `deletedAt`.
unfoldable pub find_agreement : Uuid → Uuid → Db → Option Agreement
find_agreement id tenant_id db = find (is_live_agreement id tenant_id) db.agreements

-- `findByCode`; the flag is `includeDeleted`.
unfoldable pub find_agreement_by_code : Text → Uuid → Bool → Db → Option Agreement
find_agreement_by_code code tenant_id include_deleted db =
    find
      (λ a.
        text_eq a.agreement_code code
        && (a.tenant_id == tenant_id)
        && (include_deleted || not a.deleted))
      db.agreements

pub record AgreementFilters : Type 0 where
  pub status : Option AgreementStatus
  pub cpl_id : Option Uuid
  pub channel_id : Option Uuid

abbrev id_passes : Option Uuid → Uuid → Bool
id_passes none id = true
id_passes (some a) id = id == a

abbrev status_passes : Option AgreementStatus → AgreementStatus → Bool
status_passes none s = true
status_passes (some t) s = same_agreement_status s t

abbrev pub agreement_passes : Uuid → AgreementFilters → Agreement → Bool
agreement_passes tenant_id filters a =
    (a.tenant_id == tenant_id)
    && not a.deleted
    && status_passes filters.status a.status
    && id_passes filters.cpl_id a.cpl_id
    && id_passes filters.channel_id a.channel_id

-- `findAll`, newest first.
unfoldable pub find_all_agreements : Uuid → AgreementFilters → Db → List Agreement
find_all_agreements tenant_id filters db = select (agreement_passes tenant_id filters) db.agreements

-- The table after an update of one row.
abbrev pub with_agreement : Uuid → Uuid → (Agreement → Agreement) → Db → Db
with_agreement id tenant_id change db = record db {
  agreements = update_where (is_agreement id tenant_id) change db.agreements;
}

-- `update`: the row is changed and read back.
unfoldable pub update_agreement : Uuid → Uuid → (Agreement → Agreement) → Action Agreement
update_agreement id tenant_id change = do
  write (with_agreement id tenant_id change)
  updated ← query (find_agreement id tenant_id)
  or_throw (Error.plain agreement_lost) updated

-- `updateStatus`, with the additional fields as a change of the row.
unfoldable pub update_status :
    Uuid → Uuid → AgreementStatus → (Agreement → Agreement) → Action Agreement
update_status id tenant_id status additional_fields =
    update_agreement id tenant_id (λ a. additional_fields (record a { status = status }))

-- `softDelete`.
unfoldable pub soft_delete_agreement : Uuid → Uuid → Action (Unit {0})
soft_delete_agreement id tenant_id =
    write (with_agreement id tenant_id (λ a. record a { deleted = true }))

-- An update keeps the columns by which an agreement is found.
abbrev pub KeepsAgreement : (Agreement → Agreement) → Type 0
KeepsAgreement change =
    (a : Agreement)
    → ((change a).id ≡ a.id)
      × ((change a).tenant_id ≡ a.tenant_id)
      × ((change a).deleted ≡ a.deleted)

module _ (id tenant_id : Uuid) (change : Agreement → Agreement) where
  pub find-with_agreement :
      (db : Db) {a : Agreement}
      → KeepsAgreement change
      → find_agreement id tenant_id db ≡ some a
      → find_agreement id tenant_id (with_agreement id tenant_id change db) ≡ some (change a)
  unfolding find_agreement
  find-with_agreement db keeps h =
      find-update_where (is_agreement id tenant_id) (is_live_agreement id tenant_id) change
        db.agreements (λ a live. ground arith) (λ a. ground (arith, keeps a)) h

  -- An update is seen under the id and the tenant of the row alone.
  pub find-with_agreement_ne :
      (db : Db) (other tenant : Uuid)
      → ((other == id) && (tenant == tenant_id)) ≡ Bool.false
      → ((a : Agreement) → ((change a).id ≡ a.id) × ((change a).tenant_id ≡ a.tenant_id))
      → find_agreement other tenant (with_agreement id tenant_id change db)
        ≡ find_agreement other tenant db
  unfolding find_agreement
  find-with_agreement_ne db other tenant ne keeps =
      find-update_where_ne (is_agreement id tenant_id) (is_live_agreement other tenant) change
        db.agreements (λ a hit. ground (arith, keeps a))

  pub update_agreement_lem :
      (db : Db) (a : Agreement)
      → KeepsAgreement change
      → find_agreement id tenant_id db ≡ some a
      → update_agreement id tenant_id change db
        ≡ (ok (change a), with_agreement id tenant_id change db)
  unfolding update_agreement or_throw
  update_agreement_lem db a keeps found = rw (find-with_agreement db keeps found)

  -- A step that updates an agreement which is there.
  pub update_agreement_rule :
      {P : Agreement → Db → Type 0} {E : Error → Db → Type 0} (db : Db) (a : Agreement)
      → KeepsAgreement change
      → find_agreement id tenant_id db ≡ some a
      → P (change a) (with_agreement id tenant_id change db)
      → Ends P E (update_agreement id tenant_id change db)
  update_agreement_rule db a keeps found next =
      rw (update_agreement_lem db a keeps found) (Ends.returns next)

-- A row that is deleted is not found again.
gone :
    (id tenant_id : Uuid) (rows : List Agreement)
    → find
        (is_live_agreement id tenant_id)
        (update_where (is_agreement id tenant_id) (λ a. record a { deleted = true }) rows)
      ≡ none
gone id tenant_id [] = refl
gone id tenant_id (a ∷ rows) = ground (arith, gone id tenant_id rows)

pub find-soft_delete :
    (id tenant_id : Uuid) (db : Db)
    → find_agreement id tenant_id
        (with_agreement id tenant_id (λ a. record a { deleted = true }) db)
      ≡ none
unfolding find_agreement
find-soft_delete id tenant_id db = gone id tenant_id db.agreements

-- An agreement is read from its table alone.
pub find_agreement-same :
    (id tenant_id : Uuid) (db db' : Db)
    → db'.agreements ≡ db.agreements
    → find_agreement id tenant_id db' ≡ find_agreement id tenant_id db
unfolding find_agreement
find_agreement-same id tenant_id db db' same = rw same refl

pub found_agreement_id :
    (id tenant_id : Uuid) (db : Db) {a : Agreement}
    → find_agreement id tenant_id db ≡ some a
    → a.id ≡ id
unfolding find_agreement
found_agreement_id id tenant_id db h = ground (arith, find_sound _ db.agreements h)
