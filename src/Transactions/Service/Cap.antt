-- ===== src/Transactions/Service/Cap.antt =====
-- The cap of an agreement bounds its transactions.
use collmind_backend.Base.{
  ℕ, ◌+◌, ◌≡◌, refl, sym, ap, ◌∙◌, true, Option, none, some, List, [], ◌∷◌, Uuid, Text, arith, ℤ,
  pos, ◌+ℤ◌, ◌≤ℤ◌, int_laws, inl, inr, if◌then◌else◌, Option-cases, Bool-cases,
}
use collmind_backend.Entities.Agreement.{Agreement, AgreementTransaction}
use collmind_backend.Db.{Db, Result, or_throw}
use collmind_backend.Db.Ends.{Ends, returns, throws, weaken}
use collmind_backend.Agreements.Repository.{find_agreement, find_agreement-same}
use collmind_backend.Agreements.Service.{get_agreement}
use collmind_backend.Transactions.Repository.{
  is_of_agreement, sum_transactions, sum_by_agreement_id,
}
use collmind_backend.Transactions.Service.{
  CreateTransactionDto, create_agreement_transaction, BatchResult, import_rows, batch_import,
  batch_id_of, attempt, note_row, transaction_of,
}
use collmind_backend.Transactions.Service.Outcome.{stored_row, Spent, create_outcome}

-- The agreement, if the tenant has it, has transactions up to its cap and not more.
abbrev pub WithinCap : Uuid → Uuid → Db → Type 0
WithinCap id tenant_id db =
    (a : Agreement)
    → find_agreement id tenant_id db ≡ some a
    → sum_by_agreement_id id tenant_id db ≤ℤ a.cap_total_amount

-- The agreements are as they were, and so are the transactions, or one row is new, which the cap
-- of its agreement allows.
pub data Grows (tenant_id : Uuid) (db db' : Db) : Type 0 where
  same :
      db'.agreements ≡ db.agreements
      → db'.agreement_transactions ≡ db.agreement_transactions
      → Grows tenant_id db db'
  row :
      (tx : AgreementTransaction) (a : Agreement)
      → db'.agreements ≡ db.agreements
      → db'.agreement_transactions ≡ tx ∷ db.agreement_transactions
      → tx.tenant_id ≡ tenant_id
      → find_agreement tx.agreement_id tenant_id db ≡ some a
      → sum_by_agreement_id tx.agreement_id tenant_id db +ℤ tx.amount ≤ℤ a.cap_total_amount
      → Grows tenant_id db db'

pub Spent-rows :
    {month_of : ℕ → Text} {dto : CreateTransactionDto} {tenant_id user_id : Uuid}
    {batch_id : Option Uuid} {row_number : Option ℕ} {db : Db} {a : Agreement} (db' : Db)
    → Spent month_of dto tenant_id user_id batch_id row_number db a db'
    → (db'.agreements ≡ db.agreements)
      × (db'.agreement_transactions
          ≡ stored_row (transaction_of month_of dto a tenant_id user_id batch_id row_number) db
            ∷ db.agreement_transactions)
Spent-rows db' (Spent.unposted code _ _ written) = rw written (refl, refl)
Spent-rows db' (Spent.posted code e _ _ written) = rw written (refl, refl)
Spent-rows db' (Spent.known le _ written) = rw written (refl, refl)

abbrev Grown : {A : Type 0} → Uuid → Db → Result A × Db → Type 0
Grown tenant_id db r = Ends (λ _ db'. Grows tenant_id db db') (λ _ db'. Grows tenant_id db db') r

grown :
    {A : Type 0} {tenant_id : Uuid} {db : Db} {r : Result A × Db}
    → Grown tenant_id db r
    → Grows tenant_id db (r.1)
grown (returns g) = g
grown (throws g) = g

module _ (month_of : ℕ → Text) (dto : CreateTransactionDto) (tenant_id user_id : Uuid)
    (batch_id : Option Uuid) (row_number : Option ℕ) (db : Db) where
  absent :
      find_agreement dto.agreement_id tenant_id db ≡ none
      → Grown tenant_id db
          (create_agreement_transaction month_of dto tenant_id user_id batch_id row_number db)
  unfolding create_agreement_transaction get_agreement or_throw
  absent missing = rw missing (throws (same refl refl))

  create_grows :
      Grown tenant_id db
        (create_agreement_transaction month_of dto tenant_id user_id batch_id row_number db)
  create_grows = elim (Option-cases (find_agreement dto.agreement_id tenant_id db)) [
    | inl missing ↦ absent missing
    | inr (a, found) ↦
        weaken
          (λ tx db' (_, done). elim done [
            | inl (unchanged, _) ↦ rw unchanged (same refl refl)
            | inr ((_, within), _, spent) ↦
                let (agreements, rows) = Spent-rows db' spent in
                row _ a agreements rows refl found within
          ])
          (λ e db' failed. elim failed [
            | inl unchanged ↦ rw unchanged (same refl refl)
            | inr (_, (_, within), written) ↦ rw written (row _ a refl refl refl found within)
          ])
          (create_outcome month_of dto tenant_id user_id batch_id row_number db a found)
  ]

sum-cons :
    (id tenant_id : Uuid) (tx : AgreementTransaction) (db db' : Db)
    → db'.agreement_transactions ≡ tx ∷ db.agreement_transactions
    → sum_by_agreement_id id tenant_id db'
      ≡ (if is_of_agreement id tenant_id tx then tx.amount else pos 0)
        +ℤ sum_by_agreement_id id tenant_id db
unfolding sum_by_agreement_id sum_transactions
sum-cons id tenant_id tx db db' rows = rw rows refl

sum-same :
    (id tenant_id : Uuid) (db db' : Db)
    → db'.agreement_transactions ≡ db.agreement_transactions
    → sum_by_agreement_id id tenant_id db' ≡ sum_by_agreement_id id tenant_id db
unfolding sum_by_agreement_id
sum-same id tenant_id db db' rows = rw rows refl

counted_ids :
    (id tenant_id : Uuid) (tx : AgreementTransaction)
    → is_of_agreement id tenant_id tx ≡ true
    → (tx.agreement_id ≡ id) × (tx.tenant_id ≡ tenant_id)
counted_ids id tenant_id tx h = ground arith

added :
    (i id t tenant_id : Uuid) (amount : ℤ) (db : Db) (a b : Agreement)
    → i ≡ id
    → t ≡ tenant_id
    → find_agreement i t db ≡ some b
    → find_agreement id tenant_id db ≡ some a
    → sum_by_agreement_id i t db +ℤ amount ≤ℤ b.cap_total_amount
    → amount +ℤ sum_by_agreement_id id tenant_id db ≤ℤ a.cap_total_amount
added i id t tenant_id amount db a b same_id same_tenant there here within =
    let one = ap (λ j. find_agreement j t db) (sym same_id) in
    let cap : b.cap_total_amount ≡ a.cap_total_amount = cc in
    let sums : sum_by_agreement_id i t db ≡ sum_by_agreement_id id tenant_id db = cc in
    grind int_laws

untouched :
    (id tenant_id : Uuid) (db : Db) (a : Agreement)
    → sum_by_agreement_id id tenant_id db ≤ℤ a.cap_total_amount
    → pos 0 +ℤ sum_by_agreement_id id tenant_id db ≤ℤ a.cap_total_amount
untouched id tenant_id db a h = grind int_laws

-- A row that the cap allows leaves every agreement within its cap.
Grows-WithinCap :
    (id tenant_id tenant : Uuid) (db db' : Db)
    → Grows tenant db db'
    → WithinCap id tenant_id db
    → WithinCap id tenant_id db'
Grows-WithinCap id tenant_id tenant db db' (same agreements rows) kept a found =
    rw (sum-same id tenant_id db db' rows)
      (kept a (sym (find_agreement-same id tenant_id db db' agreements) ∙ found))
Grows-WithinCap id tenant_id tenant db db' (row tx b agreements rows own there within) kept a
      found =
    let before = sym (find_agreement-same id tenant_id db db' agreements) ∙ found in
    rw (sum-cons id tenant_id tx db db' rows) (elim (Bool-cases (is_of_agreement id tenant_id tx)) [
      | inl counted ↦
          let (same_id, same_tenant) = counted_ids id tenant_id tx counted in
          rw counted (
            added tx.agreement_id id tenant tenant_id tx.amount db a b same_id
              (sym own ∙ same_tenant) there before within)
      | inr other ↦ rw other (untouched id tenant_id db a (kept a before))
    ])

-- A batch leaves the tables as a sequence of single transactions.
rows_keep :
    (month_of : ℕ → Text) (dtos : List CreateTransactionDto) (i id tenant_id tenant user_id : Uuid)
    (result : BatchResult) (db : Db)
    → WithinCap id tenant_id db
    → WithinCap id tenant_id ((import_rows month_of dtos i tenant user_id result db).1)
unfolding import_rows attempt
rows_keep month_of [] i id tenant_id tenant user_id result db kept = kept
rows_keep month_of (dto ∷ dtos) i id tenant_id tenant user_id result db kept =
    let one =
      create_agreement_transaction month_of dto tenant user_id (some result.batch_id) (some (i + 1))
        db in
    rows_keep month_of dtos (i + 1) id tenant_id tenant user_id
      (note_row (i + 1) dto (one.0) result) (one.1)
      (Grows-WithinCap id tenant_id tenant db (one.1)
        (grown (create_grows month_of dto tenant user_id (some result.batch_id) (some (i + 1)) db))
        kept)

-- Whatever batch is imported, by any user and for any agreements, and however its rows end, each
-- agreement that had no more transactions than its cap allows has no more afterwards.
pub batch_import_keeps_cap :
    (month_of : ℕ → Text) (dtos : List CreateTransactionDto) (batch_id : Option Uuid)
    (tenant user_id id tenant_id : Uuid) (db : Db)
    → WithinCap id tenant_id db
    → WithinCap id tenant_id ((batch_import month_of dtos batch_id tenant user_id db).1)
unfolding batch_import batch_id_of
batch_import_keeps_cap month_of dtos none tenant user_id id tenant_id db kept =
    rows_keep month_of dtos 0 id tenant_id tenant user_id _ (record db { drawn = db.drawn + 1 })
      (Grows-WithinCap id tenant_id tenant db _ (same refl refl) kept)
batch_import_keeps_cap month_of dtos (some b) tenant user_id id tenant_id db kept =
    rows_keep month_of dtos 0 id tenant_id tenant user_id _ db kept
