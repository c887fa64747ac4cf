-- ===== src/Lta/Repository.antt =====
-- lta-agreement.repository.ts.
use collmind_backend.Base.{
  ℕ, Uuid, Text, text_eq, Bool, true, false, ◌&&◌, ◌||◌, not, Option, none, some, List, [], ◌∷◌,
  ◌==◌, ltb, leb, if◌then◌else◌, find, select, update_where,
}
use collmind_backend.Entities.Lta.{LtaAgreementStatus, same_lta_status, LtaAgreement}
use collmind_backend.Db.{Db, Action, write}

-- `findById`.
unfoldable pub find_lta : Uuid → Uuid → Db → Option LtaAgreement
find_lta tenant_id id db =
    find (λ a. (a.tenant_id == tenant_id) && (a.id == id) && not a.deleted) db.lta_agreements

-- `findByCode`.
unfoldable pub find_lta_by_code : Uuid → Text → Db → Option LtaAgreement
find_lta_by_code tenant_id code db =
    find (λ a. (a.tenant_id == tenant_id) && text_eq a.agreement_code code && not a.deleted)
      db.lta_agreements

-- `(expiryDate IS NULL OR expiryDate >= :day)`.
abbrev pub lasts_to : Option ℕ → ℕ → Bool
lasts_to none day = true
lasts_to (some e) day = leb day e

abbrev pub runs_on : Uuid → Uuid → ℕ → LtaAgreement → Bool
runs_on tenant_id cpl_id day a =
    (a.tenant_id == tenant_id)
    && (a.cpl_id == cpl_id)
    && same_lta_status a.status LtaAgreementStatus.active
    && leb a.effective_date day
    && lasts_to a.expiry_date day
    && not a.deleted

-- `orderBy('lta.effectiveDate', 'DESC')`, and the first row.
abbrev pub later_lta : LtaAgreement → Option LtaAgreement → Option LtaAgreement
later_lta a none = some a
later_lta a (some b) = if ltb a.effective_date b.effective_date then some b else some a

abbrev pub latest_lta : List LtaAgreement → Option LtaAgreement
latest_lta [] = none
latest_lta (a ∷ rows) = later_lta a (latest_lta rows)

-- `findActiveForCPL`, on a day.
unfoldable pub find_active_for_cpl : Uuid → Uuid → ℕ → Db → Option LtaAgreement
find_active_for_cpl tenant_id cpl_id day db =
    latest_lta (select (runs_on tenant_id cpl_id day) db.lta_agreements)

-- The second and the third test of the query, for the expiry date of the request.
abbrev pub meets_end : Option ℕ → ℕ → Option ℕ → Bool
meets_end none s e = false
meets_end (some day) s e = leb s day && lasts_to e day

abbrev pub ends_inside : Option ℕ → Option ℕ → Bool
ends_inside expiry none = true
ends_inside none (some e) = false
ends_inside (some day) (some e) = leb e day

-- The three tests of `findOverlappingAgreements`, for the dates of the request and those of a row.
unfoldable pub meets : ℕ → Option ℕ → ℕ → Option ℕ → Bool
meets effective expiry s e =
    (leb s effective && lasts_to e effective)
    || meets_end expiry s e
    || (leb effective s && ends_inside expiry e)

abbrev pub is_other : Option Uuid → Uuid → Bool
is_other none id = true
is_other (some excluded) id = not (id == excluded)

abbrev pub is_overlapping : Uuid → Uuid → ℕ → Option ℕ → Option Uuid → LtaAgreement → Bool
is_overlapping tenant_id cpl_id effective expiry excluded a =
    (a.tenant_id == tenant_id)
    && (a.cpl_id == cpl_id)
    && not (same_lta_status a.status LtaAgreementStatus.terminated)
    && meets effective expiry a.effective_date a.expiry_date
    && is_other excluded a.id
    && not a.deleted

-- `findOverlappingAgreements`.
unfoldable pub find_overlapping : Uuid → Uuid → ℕ → Option ℕ → Option Uuid → Db → List LtaAgreement
find_overlapping tenant_id cpl_id effective expiry excluded db =
    select (is_overlapping tenant_id cpl_id effective expiry excluded) db.lta_agreements

-- `save` of a row that was loaded.
unfoldable pub save_lta : LtaAgreement → Action (Unit {0})
save_lta a = write (λ db. record db {
  lta_agreements = update_where (λ b. b.id == a.id) (λ b. a) db.lta_agreements;
})
