-- ===== src/Budget/Repository/Calls.antt =====
-- Rules for the calls of the repository inside a service method.
use collmind_backend.Base.{
  ◌≡◌, Bool, true, false, none, some, Uuid, ℤ, find, exists, Option-cases, Bool-cases, inl, inr,
}
use collmind_backend.Entities.Budget.{Envelope, Transaction}
use collmind_backend.Db.{Db, Error, Action, proceed, or_throw, duplicate_key, summary_not_found}
use collmind_backend.Db.Ends.{Ends, returns, throws}
use collmind_backend.Budget.Repository.{
  is_envelope, same_key, create_transaction, get_budget_summary, check_budget_availability,
  available_amount, Comparison,
}
use collmind_backend.Budget.Repository.Summary.{insert_transaction, stored, create_transaction_lem}

module _ {P : Transaction → Db → Type 0} {E : Error → Db → Type 0} where
  pub create_transaction_rule :
      (tx : Transaction) (db : Db)
      → (exists (same_key tx.tenant_id tx.idempotency_key) db.transactions ≡ true
          → E (Error.plain duplicate_key) db)
      → (exists (same_key tx.tenant_id tx.idempotency_key) db.transactions ≡ false
          → P (stored tx db) (insert_transaction tx db))
      → Ends P E (create_transaction tx db)
  create_transaction_rule tx db refused saved =
      elim (Bool-cases (exists (same_key tx.tenant_id tx.idempotency_key) db.transactions)) [
        | inl taken ↦ rw (create_transaction_lem tx db) (rw taken (throws (refused taken)))
        | inr free ↦ rw (create_transaction_lem tx db) (rw free (returns (saved free)))
      ]

module _ {B : Type 0} {P : B → Db → Type 0} {E : Error → Db → Type 0} where
  -- The availability that is checked is that of the row which the view shows under the id.
  pub check_rule :
      (f : ℤ × Bool → Action B) (at_most : Comparison) (envelope_id tenant_id : Uuid) (amount : ℤ)
      (db : Db)
      → (find (is_envelope tenant_id envelope_id) db.envelopes ≡ none
          → E (Error.plain summary_not_found) db)
      → ((e : Envelope)
          → find (is_envelope tenant_id envelope_id) db.envelopes ≡ some e
          → Ends P E (f (available_amount e db, at_most amount (available_amount e db)) db))
      → Ends P E (proceed f (check_budget_availability at_most envelope_id tenant_id amount db))
  unfolding check_budget_availability get_budget_summary or_throw
  check_rule f at_most envelope_id tenant_id amount db missing found =
      elim (Option-cases (find (is_envelope tenant_id envelope_id) db.envelopes)) [
        | inl none_found ↦ rw none_found (throws (missing none_found))
        | inr (e, one_found) ↦ rw one_found (found e one_found)
      ]
