-- ===== src/Budget/Service.antt =====
-- The reservations and releases of budget.service.ts.
pub mod Calls
pub mod Agreement
pub mod Plan
pub mod Frame
pub mod Release
pub mod Overshoot
use collmind_backend.Base.{
  ℕ, Bool, true, false, ◌&&◌, not, Option, none, some, List, [], ◌∷◌, ◌++◌, Uuid, Text, codes, ℤ,
  pos, ◌+ℤ◌, leb_ℤ, ltb_ℤ, scale, ◌==◌, if◌then◌else◌, find, select, exists, text_eq,
}
use collmind_backend.Entities.Budget.{
  Envelope, EnvelopeStatus, is_active, Transaction, TxType, same_type, TxStatus, is_posted,
  SourceType, IdempotencyKey,
}
use collmind_backend.Db.{
  Db, Action, Error, envelope_not_found, envelope_not_active, envelope_code_taken,
  reservation_exists, release_exists, insufficient_budget, no_active_envelope, duplicate_key, ◌>>=◌,
  ◌>>◌, query, or_throw, throw_if, return, write, new_id,
}
use collmind_backend.Budget.Repository.{
  find_envelope_by_code, find_envelope_with_lock, find_envelope_by_dimensions,
  find_transaction_by_idempotency_key, find_transactions_by_source, check_budget_availability,
  create_transaction, Comparison, text_at_most, BudgetSummary, get_budget_summary,
}
use collmind_backend.Budget.Envelopes.{or_try, is_some}

-- A posted transaction, as every method here creates it. The description is left out.
abbrev pub posting :
    Uuid → Uuid → TxType → SourceType → Uuid → ℤ → Text → IdempotencyKey → Option Uuid → Transaction
posting tenant_id envelope_id tx_type source_type source_id amount currency key created_by =
    record {
      id = 0;
      tenant_id = tenant_id;
      envelope_id = envelope_id;
      tx_type = tx_type;
      tx_status = TxStatus.posted;
      source_type = some source_type;
      source_id = some source_id;
      amount = amount;
      currency = currency;
      idempotency_key = key;
      created_by = created_by;
      deleted = false;
    }

abbrev pub key : TxType → SourceType → Uuid → Option Uuid → IdempotencyKey
key operation source source_id envelope = record {
  operation = operation;
  source = source;
  source_id = source_id;
  envelope = envelope;
}

-- `reserveBudget`.
unfoldable pub reserve_budget : Uuid → Uuid → Uuid → Uuid → ℤ → Text → Action Transaction
reserve_budget tenant_id user_id agreement_id envelope_id amount currency = do
  found ← find_envelope_with_lock tenant_id envelope_id
  envelope ← or_throw (Error.not_found envelope_not_found) found
  throw_if (not (is_active envelope.status)) (Error.bad_request envelope_not_active)
  let k = key TxType.reserve SourceType.agreement agreement_id (some envelope_id)
  existing ← query (find_transaction_by_idempotency_key tenant_id k)
  throw_if (is_some existing) (Error.conflict reservation_exists)
  (available, sufficient) ← check_budget_availability leb_ℤ envelope_id tenant_id amount
  throw_if (not sufficient) (Error.bad_request insufficient_budget)
  create_transaction (
      posting tenant_id envelope.id TxType.reserve SourceType.agreement agreement_id amount currency
        k (some user_id))

-- `releaseBudget`.
pub release_budget : Uuid → Uuid → Uuid → Uuid → ℤ → Text → Action Transaction
release_budget tenant_id user_id agreement_id envelope_id amount currency = do
  let k = key TxType.release SourceType.agreement agreement_id (some envelope_id)
  existing ← query (find_transaction_by_idempotency_key tenant_id k)
  throw_if (is_some existing) (Error.conflict release_exists)
  create_transaction (
      posting tenant_id envelope_id TxType.release SourceType.agreement agreement_id amount currency
        k (some user_id))

-- `tx.txType === t && tx.txStatus === POSTED`.
abbrev pub is_posted_of : TxType → Transaction → Bool
is_posted_of t tx = same_type tx.tx_type t && is_posted tx.tx_status

-- The search, by which a method finds that it has run before.
unfoldable pub existing_posting : Uuid → SourceType → Uuid → TxType → Db → Option Transaction
existing_posting tenant_id source_type source_id t db =
    find (is_posted_of t) (find_transactions_by_source tenant_id source_type source_id db)

-- The part of a method behind `if (existing) return existing`.
unfoldable pub unless_existing : Option Transaction → Action Transaction → Action Transaction
unless_existing none m = m
unless_existing (some tx) m = return tx

-- `findEnvelopeByDimensions` and `checkBudgetAvailability`, as both `reserveFor…` call them.
unfoldable pub envelope_with_budget : Comparison → Uuid → Text → Text → ℤ → Action Envelope
envelope_with_budget at_most tenant_id channel period_month amount = do
  found ← query (find_envelope_by_dimensions tenant_id channel period_month none)
  envelope ← or_throw (Error.bad_request no_active_envelope) found
  (available, sufficient) ← check_budget_availability at_most envelope.id tenant_id amount
  throw_if (not sufficient) (Error.bad_request insufficient_budget)
  return envelope

unfoldable pub post_reservation : Uuid → Uuid → Envelope → ℤ → Text → Uuid → Action Transaction
post_reservation tenant_id agreement_id envelope amount currency user_id = do
  let k = key TxType.reserve SourceType.agreement agreement_id none
  by_key ← query (find_transaction_by_idempotency_key tenant_id k)
  unless_existing by_key (
      create_transaction (
        posting tenant_id envelope.id TxType.reserve SourceType.agreement agreement_id amount
          (or_try currency) k (some user_id)))

-- `reserveForAgreement`. The amount is a text, the column of the cap, in its one call.
unfoldable pub reserve_for_agreement :
    Uuid → ℤ → Text → Text → Text → Uuid → Uuid → Action Transaction
reserve_for_agreement agreement_id amount channel period_month currency tenant_id user_id = do
  existing ← query (existing_posting tenant_id SourceType.agreement agreement_id TxType.reserve)
  unless_existing existing (do
    envelope ← envelope_with_budget text_at_most tenant_id channel period_month amount
    post_reservation tenant_id agreement_id envelope amount currency user_id)

-- `reserveForPlan`, for an amount that is a number or a text.
unfoldable pub reserve_for_plan :
    Comparison → Uuid → ℤ → Text → Text → Text → Uuid → Uuid → Action Transaction
reserve_for_plan at_most plan_id amount channel period_month currency tenant_id user_id = do
  existing ← query (existing_posting tenant_id SourceType.plan plan_id TxType.commit)
  unless_existing existing (do
    envelope ← envelope_with_budget at_most tenant_id channel period_month amount
    create_transaction (
        posting tenant_id envelope.id TxType.commit SourceType.plan plan_id amount (or_try currency)
          (key TxType.commit SourceType.plan plan_id (some envelope.id)) (some user_id)))

-- `releaseForAgreement`.
unfoldable pub release_for_agreement : Uuid → Uuid → ℤ → Text → Uuid → Uuid → Action Transaction
release_for_agreement agreement_id envelope_id amount currency tenant_id user_id = do
  let k = key TxType.release SourceType.agreement agreement_id (some envelope_id)
  existing ← query (find_transaction_by_idempotency_key tenant_id k)
  unless_existing existing (
      create_transaction (
        posting tenant_id envelope_id TxType.release SourceType.agreement agreement_id amount
          (or_try currency) k (some user_id)))

-- One round of the loop in `releaseForPlan`.
unfoldable pub release_commit : Uuid → Uuid → Transaction → Action (Unit {0})
release_commit plan_id tenant_id tx = do
  let k = key TxType.release SourceType.plan plan_id (some tx.envelope_id)
  existing ← query (find_transaction_by_idempotency_key tenant_id k)
  unless_existing existing (
      create_transaction (
        posting tenant_id tx.envelope_id TxType.release SourceType.plan plan_id tx.amount
          tx.currency k none))
  return tt

unfoldable pub release_commits : Uuid → Uuid → List Transaction → Action (Unit {0})
unfolding release_commit
release_commits plan_id tenant_id [] = return tt
release_commits plan_id tenant_id (tx ∷ txs) =
    release_commit plan_id tenant_id tx >> release_commits plan_id tenant_id txs

-- `releaseForPlan`.
unfoldable pub release_for_plan : Uuid → Uuid → Action (Unit {0})
unfolding release_commits
release_for_plan plan_id tenant_id = do
  transactions ← query (find_transactions_by_source tenant_id SourceType.plan plan_id)
  release_commits plan_id tenant_id (select (is_posted_of TxType.commit) transactions)
