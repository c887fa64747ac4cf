-- ===== src/Db.antt =====
-- The database and the calls on it. A service method is an action: it reads and writes the tables,
-- and returns a value or throws. No method opens a database transaction, so what was written
-- before a throw stays written.
pub mod Ends
use collmind_backend.Base.{ℕ, ◌+◌, Uuid, Bool, true, false, Option, none, some, List}
use collmind_backend.Entities.Budget.{Envelope, Transaction, LedgerEntry}
use collmind_backend.Entities.Approval.{ApprovalRequest}
use collmind_backend.Entities.Plan.{Plan, PlanApprovalHistory, Tactic}
use collmind_backend.Entities.Agreement.{Agreement, AgreementTransaction}
use collmind_backend.Entities.Allocation.{BudgetAllocation, BudgetTransactionLog}
use collmind_backend.Entities.Lta.{LtaAgreement, LtaRate, LtaPlanOverride}

-- The message of an error, by the place that throws it.
pub data Reason : Type 0 where
  envelope_not_found envelope_not_active envelope_code_taken : Reason
  reservation_exists release_exists insufficient_budget no_active_envelope : Reason
  duplicate_key summary_not_found lock_without_transaction sku_deleted : Reason
  request_not_found request_exists request_not_pending own_request not_requester : Reason
  request_lost plan_lost : Reason
  plan_not_found plan_not_draft plan_not_pending plan_not_reviewable own_submission : Reason
  plan_has_no_fu request_missing : Reason
  fu_not_found fu_not_plannable fu_in_plan fu_not_in_plan sku_not_in_plan : Reason
  plan_fu_lost plan_sku_lost : Reason
  rejection_reason_required comments_required escalation_reason_required : Reason
  agreement_not_found agreement_not_draft agreement_not_pending agreement_not_running : Reason
  agreement_without_request agreement_without_channel agreement_lost : Reason
  master_data_missing agreement_codes_exhausted : Reason
  sta_too_long lta_too_short : Reason
  agreement_not_open invoice_outside_period cap_exceeded : Reason
  ledger_entry_not_found transaction_not_found : Reason
  dimension_missing period_empty allocation_exists allocation_not_found budget_below_use : Reason
  no_reservation no_commit allocation_not_loaded : Reason
  lta_not_found lta_code_taken effective_date_past lta_overlaps rate_repeated : Reason
  lta_expired lta_dates_fixed lta_not_draft lta_terminated plan_sku_missing : Reason
  budget_reservation_failed budget_commit_failed budget_release_failed : Reason → Reason

-- The exception classes; `plain` is `new Error(…)` and what the database driver throws.
pub data Error : Type 0 where
  not_found bad_request conflict forbidden plain : Reason → Error

-- `error.message`.
abbrev pub message : Error → Reason
message (not_found r) = r
message (bad_request r) = r
message (conflict r) = r
message (forbidden r) = r
message (plain r) = r

pub data Result (A : Type 0) : Type 0 where
  ok : A → Result A
  err : Error → Result A

-- A new row stands at the head of its table, so that a table lists by `createdAt DESC`. `uuids`
-- is the supply of ids that the database generates, `drawn` how many it has handed out, and `now`
-- the time that `new Date()` reads during the call.
pub record Db : Type 0 where
  pub envelopes : List Envelope
  pub transactions : List Transaction
  pub ledger_entries : List LedgerEntry
  pub requests : List ApprovalRequest
  pub plans : List Plan
  pub histories : List PlanApprovalHistory
  pub tactics : List Tactic
  pub agreements : List Agreement
  pub agreement_transactions : List AgreementTransaction
  pub allocations : List BudgetAllocation
  pub transaction_logs : List BudgetTransactionLog
  pub lta_agreements : List LtaAgreement
  pub lta_rates : List LtaRate
  pub lta_overrides : List LtaPlanOverride
  pub uuids : ℕ → Uuid
  pub drawn : ℕ
  pub now : ℕ

abbrev pub Action : Type 0 → Type 0
Action A = Db → Result A × Db

-- What follows a step runs on the database that the step leaves behind.
abbrev pub proceed : {A B : Type 0} → (A → Action B) → Result A × Db → Result B × Db
proceed f (ok a, db) = f a db
proceed f (err e, db) = (err e, db)

infixl 5 ◌>>=◌ ◌>>◌
abbrev pub ◌>>=◌ : {A B : Type 0} → Action A → (A → Action B) → Action B
◌>>=◌ m f db = proceed f (m db)

abbrev pub ◌>>◌ : {A B : Type 0} → Action A → Action B → Action B
m >> k = m >>= λ _. k

module _ {A : Type 0} where
  abbrev pub return : A → Action A
  return a db = (ok a, db)

  abbrev pub throw : Error → Action A
  throw e db = (err e, db)

  -- A query.
  abbrev pub query : (Db → A) → Action A
  query f db = (ok (f db), db)

  -- `if (!row) throw e`.
  unfoldable pub or_throw : Error → Option A → Action A
  or_throw e none = throw e
  or_throw e (some a) = return a

  -- `try { m } catch (error) { throw wrap(error.message) }`.
  abbrev pub rethrow : (Reason → Error) → Result A × Db → Result A × Db
  rethrow wrap (ok a, db) = (ok a, db)
  rethrow wrap (err e, db) = (err (wrap (message e)), db)

  unfoldable pub try_wrap : (Reason → Error) → Action A → Action A
  try_wrap wrap m db = rethrow wrap (m db)

-- `if (test) throw e`.
unfoldable pub throw_if : Bool → Error → Action (Unit {0})
throw_if true e db = (err e, db)
throw_if false e db = (ok tt, db)

abbrev pub write : (Db → Db) → Action (Unit {0})
write f db = (ok tt, f db)

-- A generated id.
abbrev pub new_id : Action Uuid
new_id db = (ok (db.uuids db.drawn), record db { drawn = db.drawn + 1 })

-- `if (test) { m }`.
abbrev pub when : Bool → Action (Unit {0}) → Action (Unit {0})
when true m = m
when false m = return tt
