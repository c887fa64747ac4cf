-- ===== src/Budget/Service/Calls.antt =====
-- Rules for the steps that the methods of the service share.
use collmind_backend.Base.{◌≡◌, refl, true, Option, none, some, Uuid, Text, arith, ℤ, find}
use collmind_backend.Entities.Budget.{Envelope, Transaction, TxType, SourceType, IdempotencyKey}
use collmind_backend.Db.{Db, Error, Result}
use collmind_backend.Db.Ends.{guard_passed, Ends, returns, or_throw_rule, throw_if_rule}
use collmind_backend.Budget.Repository.{
  Comparison, is_envelope, find_envelope_by_dimensions, find_transactions_by_source,
  available_amount,
}
use collmind_backend.Budget.Repository.Summary.{insert_transaction, stored}
use collmind_backend.Budget.Repository.Calls.{check_rule}
use collmind_backend.Budget.Service.{
  envelope_with_budget, existing_posting, unless_existing, posting,
}

-- What the search for an envelope with enough budget has found.
pub record Covered (at_most : Comparison) (tenant_id : Uuid) (channel period_month : Text)
    (amount : ℤ) (e : Envelope) (db : Db) : Type 0 where
  pub found : find_envelope_by_dimensions tenant_id channel period_month none db ≡ some e
  pub shown : Envelope
  pub in_view : find (is_envelope tenant_id e.id) db.envelopes ≡ some shown
  pub enough : at_most amount (available_amount shown db) ≡ true

-- The search changes nothing, and what it returns is covered.
pub envelope_with_budget_outcome :
    (at_most : Comparison) (tenant_id : Uuid) (channel period_month : Text) (amount : ℤ) (db : Db)
    → Ends
        (λ e db'. (db' ≡ db) × Covered at_most tenant_id channel period_month amount e db)
        (λ e db'. db' ≡ db)
        (envelope_with_budget at_most tenant_id channel period_month amount db)
unfolding envelope_with_budget
envelope_with_budget_outcome at_most tenant_id channel period_month amount db =
    or_throw_rule _ _ _ _ (λ missing. refl)
      λ e found.
        check_rule _ _ _ _ _ _ (λ gone. refl)
          λ s same.
            throw_if_rule _ _ _ _ (λ short. refl)
              λ enough. returns (
                refl,
                record { found = found; shown = s; in_view = same; enough = guard_passed _ enough },
              )

pub unless_existing_rule :
    {P : Transaction → Db → Type 0} {E : Error → Db → Type 0} (o : Option Transaction)
    (m : Db → Result Transaction × Db) (db : Db)
    → ((tx : Transaction) → o ≡ some tx → P tx db)
    → (o ≡ none → Ends P E (m db))
    → Ends P E (unless_existing o m db)
unfolding unless_existing
unless_existing_rule none m db found absent = absent refl
unless_existing_rule (some tx) m db found absent = returns (found tx refl)

-- A posting that was stored last is found again by the search for an earlier run.
pub existing-insert_self :
    (tenant_id : Uuid) (s : SourceType) (source_id : Uuid) (t : TxType) (envelope_id : Uuid)
    (amount : ℤ) (currency : Text) (k : IdempotencyKey) (user : Option Uuid) (db : Db)
    → let tx = posting tenant_id envelope_id t s source_id amount currency k user in
      existing_posting tenant_id s source_id t (insert_transaction tx db) ≡ some (stored tx db)
unfolding existing_posting find_transactions_by_source
existing-insert_self tenant_id s source_id t envelope_id amount currency k user db = ground arith
