-- ===== src/Examples/Transactions.antt =====
-- Transactions of an approved agreement, and the ledger.
use collmind_backend.Base.{
  ℕ, ◌≡◌, refl, sym, ap, codes, none, some, Option, List, [], ◌∷◌, Text, pos, ◌-ℤ◌, ◌+ℤ◌, ◌+◌,
  length, arith, text_eq, is_prefix, ℤ,
}
use collmind_backend.Entities.Agreement.{Agreement, AgreementTransaction}
use collmind_backend.Db.{Db, ok, or_throw, throw_if}
use collmind_backend.Db.Ends.{Ends}
use collmind_backend.Budget.Repository.{
  available_amount, find_envelope_by_dimensions, dimensions_match, rank,
}
use collmind_backend.Agreements.Repository.{find_agreement}
use collmind_backend.Agreements.Service.{get_agreement}
use collmind_backend.Ledger.{
  entry_of, off_invoice_entry, find_entry_by_key, create_entry, save_entry, unless_posted,
  create_from_agreement_transaction, day_of, start_of,
}
use collmind_backend.Ledger.Entries.{insert_entry}
use collmind_backend.Transactions.Repository.{
  find_by_invoice, save_transaction, sum_by_agreement_id, sum_transactions,
}
use collmind_backend.Transactions.Service.{
  CreateTransactionDto, BatchResult, invoice_key, transaction_of, unless_imported, post_spend,
  import_invoice, create_agreement_transaction, batch_import, dimensions_of,
}
use collmind_backend.Transactions.Service.Outcome.{
  stored_row, with_row, ledger_key, Imported, Failed, create_outcome,
}
use collmind_backend.Transactions.Service.Cap.{WithinCap, batch_import_keeps_cap}
use collmind_backend.Transactions.Service.Batch.{batch_import_counts}
use collmind_backend.Transactions.Service.Twice.{spend_counts_twice}
use collmind_backend.Examples.Data.{tenant, planner, manager, channel, march, budget}
use collmind_backend.Examples.Agreements.{
  pact, pact_shop, pact_found, approved_pact, approved_shop, approves, no_reservation,
}

-- A calendar in which every time is in March.
abbrev month_of : ℕ → Text
month_of time = march

abbrev invoice : CreateTransactionDto
invoice = record {
  agreement_id = 50;
  invoice_no = codes "A1";
  invoice_date = 5000;
  fiscal_period = none;
  amount = pos 150;
  currency = none;
  notes = none;
}

abbrev rows : List CreateTransactionDto
rows = invoice ∷ record invoice { invoice_no = codes "A2"; amount = pos 300 } ∷ []

approved_found : find_agreement 50 tenant approved_shop ≡ some approved_pact
unfolding find_agreement
approved_found = refl

create_outcome_example :
    Ends
      (Imported month_of invoice tenant planner none none approved_shop approved_pact)
      (λ e db'. Failed month_of invoice tenant planner none none approved_shop approved_pact db')
      (create_agreement_transaction month_of invoice tenant planner none none approved_shop)
create_outcome_example =
    create_outcome month_of invoice tenant planner none none approved_shop approved_pact
      approved_found

abbrev cap_or : Option Agreement → ℤ
cap_or none = pos 0
cap_or (some a) = a.cap_total_amount

nothing_yet : WithinCap 50 tenant approved_shop
unfolding find_agreement sum_by_agreement_id sum_transactions
nothing_yet a found = let cap = ap cap_or (sym found) in rw cap (omega arith)

abbrev spent_shop : Db
spent_shop =
    insert_entry
      (entry_of (off_invoice_entry 50 (pos 150) 5000 march 1 (dimensions_of channel approved_pact))
        tenant planner
        (ledger_key month_of invoice tenant planner none none approved_shop approved_pact))
      (with_row month_of invoice tenant planner none none approved_shop approved_pact)

abbrev spent_row : AgreementTransaction
spent_row =
    stored_row (transaction_of month_of invoice approved_pact tenant planner none none)
      approved_shop

spends :
    create_agreement_transaction month_of invoice tenant planner none none approved_shop
    ≡ (ok spent_row, spent_shop)
unfolding create_agreement_transaction get_agreement find_agreement unless_imported import_invoice
    find_by_invoice save_transaction sum_by_agreement_id sum_transactions post_spend
    create_from_agreement_transaction create_entry find_entry_by_key unless_posted save_entry
    find_envelope_by_dimensions dimensions_match rank text_eq is_prefix or_throw throw_if ◌+ℤ◌
    day_of start_of
spends = refl

batch_import_keeps_cap_example :
    WithinCap 50 tenant ((batch_import month_of rows none tenant planner approved_shop).1)
batch_import_keeps_cap_example =
    batch_import_keeps_cap month_of rows none tenant planner 50 tenant approved_shop nothing_yet

batch_import_counts_example :
    (r : BatchResult) × (db' : Db) × (batch_import month_of rows none tenant planner approved_shop
      ≡ (ok r, db'))
    × (r.total_rows ≡ 2)
    × (r.success_count + r.error_count ≡ 2)
    × (length r.created_transactions ≡ r.success_count)
    × (length r.errors ≡ r.error_count)
batch_import_counts_example = batch_import_counts month_of rows none tenant planner approved_shop

chosen : find_envelope_by_dimensions tenant channel march none pact_shop ≡ some budget
unfolding find_envelope_by_dimensions dimensions_match rank text_eq is_prefix
chosen = refl

unknown : find_by_invoice (invoice_key invoice) tenant approved_shop ≡ none
unfolding find_by_invoice
unknown = refl

unposted :
    find_entry_by_key (record { agreement_id = 50; transaction_id = 101 }) tenant approved_shop
    ≡ none
unfolding find_entry_by_key
unposted = refl

spend_counts_twice_example :
    available_amount budget spent_shop ≡ available_amount budget pact_shop -ℤ pos 400 -ℤ pos 150
spend_counts_twice_example =
    spend_counts_twice month_of invoice tenant manager planner none none none pact approved_pact
      pact_shop approved_shop spent_shop channel budget budget spent_row pact_found refl chosen
      no_reservation approves refl unknown unposted spends refl
