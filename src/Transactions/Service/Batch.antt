-- ===== src/Transactions/Service/Batch.antt =====
-- The result of a batch accounts for every row.
use collmind_backend.Base.{
  ℕ, ◌+◌, ◌≡◌, refl, ap, ◌∙◌, Option, none, some, List, [], ◌∷◌, ◌++◌, Uuid, Text, arith, length,
}
use collmind_backend.Entities.Agreement.{AgreementTransaction}
use collmind_backend.Db.{Db, Result, ok, err}
use collmind_backend.Transactions.Service.{
  CreateTransactionDto, BatchResult, empty_result, note_row, import_rows, batch_import, batch_id_of,
  attempt, create_agreement_transaction,
}

-- The counts are those of the lists.
abbrev pub Balanced : BatchResult → Type 0
Balanced r = (length r.created_transactions ≡ r.success_count) × (length r.errors ≡ r.error_count)

length-push {ℓ} : {A : Type ℓ} (xs : List A) (x : A) → length (xs ++ (x ∷ [])) ≡ length xs + 1
length-push [] x = refl
length-push (y ∷ xs) x = grind (arith, length-push xs x)

-- One more row is counted, as a success or as an error.
note_row-counts :
    (n : ℕ) (dto : CreateTransactionDto) (ended : Result AgreementTransaction) (r : BatchResult)
    → Balanced r
    → Balanced (note_row n dto ended r)
      × ((note_row n dto ended r).success_count + (note_row n dto ended r).error_count
          ≡ r.success_count + r.error_count + 1)
      × ((note_row n dto ended r).total_rows ≡ r.total_rows)
unfolding note_row
note_row-counts n dto (ok tx) r (created, failed) = (
  (length-push r.created_transactions tx.id ∙ ap (λ k. k + 1) created, failed),
  omega arith,
  refl,
)
note_row-counts n dto (err e) r (created, failed) =
    ((created, length-push r.errors _ ∙ ap (λ k. k + 1) failed), omega arith, refl)

-- What the rows `dtos` add to a result.
abbrev Counts : BatchResult → List CreateTransactionDto → BatchResult → Type 0
Counts r dtos r' =
    Balanced r'
    × (r'.success_count + r'.error_count ≡ r.success_count + r.error_count + length dtos)
    × (r'.total_rows ≡ r.total_rows)

import_rows-Counts :
    (month_of : ℕ → Text) (dtos : List CreateTransactionDto) (i tenant_id user_id : Uuid)
    (r : BatchResult) (db : Db)
    → Balanced r
    → (r' : BatchResult) × (db' : Db) × (import_rows month_of dtos i tenant_id user_id r db
        ≡ (ok r', db'))
      × Counts r dtos r'
unfolding import_rows attempt
import_rows-Counts month_of [] i tenant_id user_id r db balanced =
    (r, db, refl, (balanced, omega arith, refl))
import_rows-Counts month_of (dto ∷ dtos) i tenant_id user_id r db balanced =
    let one =
      create_agreement_transaction month_of dto tenant_id user_id (some r.batch_id) (some (i + 1))
        db in
    let (next, added, same_total) = note_row-counts (i + 1) dto (one.0) r balanced in
    let (r', db', ended, (balance, total, totals)) =
      import_rows-Counts month_of dtos (i + 1) tenant_id user_id (note_row (i + 1) dto (one.0) r)
        (one.1) next in
    (r', db', ended, (balance, omega arith, totals ∙ same_total))

-- The import of a batch never throws, whatever its rows do. Its result has as many rows as the
-- batch, each one counted as a success or as an error, and lists as many ids of transactions as it
-- counts successes, and as many errors as it counts.
pub batch_import_counts :
    (month_of : ℕ → Text) (dtos : List CreateTransactionDto) (batch_id : Option Uuid)
    (tenant_id user_id : Uuid) (db : Db)
    → (r : BatchResult) × (db' : Db) × (batch_import month_of dtos batch_id tenant_id user_id db
        ≡ (ok r, db'))
      × (r.total_rows ≡ length dtos)
      × (r.success_count + r.error_count ≡ length dtos)
      × (length r.created_transactions ≡ r.success_count)
      × (length r.errors ≡ r.error_count)
unfolding batch_import batch_id_of
batch_import_counts month_of dtos none tenant_id user_id db =
    let (r, db', ended, ((created, failed), total, totals)) =
      import_rows-Counts month_of dtos 0 tenant_id user_id (empty_result (db.uuids db.drawn) dtos)
        (record db { drawn = db.drawn + 1 }) (refl, refl) in
    (r, db', ended, totals, omega arith, created, failed)
batch_import_counts month_of dtos (some id) tenant_id user_id db =
    let (r, db', ended, ((created, failed), total, totals)) =
      import_rows-Counts month_of dtos 0 tenant_id user_id (empty_result id dtos) db (refl, refl) in
    (r, db', ended, totals, omega arith, created, failed)
