-- ===== src/Examples/Envelopes.antt =====
-- The choice of an envelope.
use collmind_backend.Base.{leb_ℤ, text_eq, ◌≡◌, refl, none, true}
use collmind_backend.Entities.Budget.{Envelope}
use collmind_backend.Budget.Repository.{find_envelope_by_dimensions, dimensions_match, rank}
use collmind_backend.Base.{pos, ◌+ℤ◌, ◌-ℤ◌, is_prefix}
use collmind_backend.Entities.Budget.{key_eq}
use collmind_backend.Db.{ok, or_throw, throw_if}
use collmind_backend.Budget.Repository.{
  available_amount, reserved_amount, check_budget_availability, get_budget_summary, consumed_amount,
  sum_where, create_transaction, find_transaction_by_idempotency_key, find_transactions_by_source,
}
use collmind_backend.Budget.Service.{envelope_with_budget, existing_posting, unless_existing}
use collmind_backend.Budget.Status.{get_budget_status}
use collmind_backend.Plans.Submission.{check_budget}
use collmind_backend.Plans.Submission.Promise.{check_budget-envelope_with_budget}
use collmind_backend.Examples.Data.{tenant, channel, march, budget, shop}

matches : dimensions_match tenant channel march none budget ≡ true
unfolding dimensions_match text_eq
matches = refl

sufficient : (check_budget tenant channel march (pos 200) (pos 100) shop).overall_sufficient ≡ true
unfolding check_budget get_budget_status check_budget_availability get_budget_summary
    available_amount reserved_amount consumed_amount sum_where ◌-ℤ◌ ◌+ℤ◌ or_throw throw_if
    create_transaction find_transaction_by_idempotency_key key_eq envelope_with_budget
    find_envelope_by_dimensions dimensions_match rank text_eq is_prefix existing_posting
    find_transactions_by_source unless_existing
sufficient = refl

check_budget-envelope_with_budget_example :
    (e : Envelope) × (envelope_with_budget leb_ℤ tenant channel march (pos 200 +ℤ pos 100) shop
      ≡ (ok e, shop))
check_budget-envelope_with_budget_example =
    check_budget-envelope_with_budget tenant channel march shop (pos 200) (pos 100) sufficient
