-- ===== src/Transactions/Repository.antt =====
-- agreement-transaction.repository.ts.
use collmind_backend.Base.{
  ℕ, Uuid, Bool, ◌&&◌, not, Option, List, [], ◌∷◌, ◌==◌, length, if◌then◌else◌, find, select,
  exists, ℤ, pos, ◌+ℤ◌,
}
use collmind_backend.Entities.Agreement.{AgreementTransaction, InvoiceKey, invoice_key_eq}
use collmind_backend.Db.{
  Db, Action, Error, duplicate_key, ◌>>=◌, ◌>>◌, query, throw_if, return, write, new_id,
}

-- The unique index on (tenant_id, idempotency_key), which sees deleted rows too.
abbrev pub same_invoice : Uuid → InvoiceKey → AgreementTransaction → Bool
same_invoice tenant_id key tx = (tx.tenant_id == tenant_id) && invoice_key_eq tx.idempotency_key key

-- `create`: the database generates the id, and refuses a duplicate key.
unfoldable pub save_transaction : AgreementTransaction → Action AgreementTransaction
save_transaction tx = do
  taken ←
      query (λ db. exists (same_invoice tx.tenant_id tx.idempotency_key) db.agreement_transactions)
  throw_if taken (Error.plain duplicate_key)
  id ← new_id
  let row = record tx { id = id }
  write (λ db. record db { agreement_transactions = row ∷ db.agreement_transactions })
  return row

unfoldable pub find_transaction : Uuid → Uuid → Db → Option AgreementTransaction
find_transaction id tenant_id db =
    find (λ tx. (tx.id == id) && (tx.tenant_id == tenant_id) && not tx.deleted)
      db.agreement_transactions

-- `findByIdempotencyKey`.
unfoldable pub find_by_invoice : InvoiceKey → Uuid → Db → Option AgreementTransaction
find_by_invoice key tenant_id db =
    find (λ tx. same_invoice tenant_id key tx && not tx.deleted) db.agreement_transactions

abbrev pub is_of_agreement : Uuid → Uuid → AgreementTransaction → Bool
is_of_agreement agreement_id tenant_id tx =
    (tx.agreement_id == agreement_id) && (tx.tenant_id == tenant_id) && not tx.deleted

-- `COALESCE(SUM(tx.amount), 0)` over the rows that a test selects.
unfoldable pub sum_transactions : (AgreementTransaction → Bool) → List AgreementTransaction → ℤ
sum_transactions p [] = pos 0
sum_transactions p (tx ∷ txs) = (if p tx then tx.amount else pos 0) +ℤ sum_transactions p txs

-- `sumByAgreementId`.
unfoldable pub sum_by_agreement_id : Uuid → Uuid → Db → ℤ
sum_by_agreement_id agreement_id tenant_id db =
    sum_transactions (is_of_agreement agreement_id tenant_id) db.agreement_transactions

-- `count`.
pub count_transactions : Uuid → Db → ℕ
count_transactions tenant_id db =
    length (select (λ tx. (tx.tenant_id == tenant_id) && not tx.deleted) db.agreement_transactions)
