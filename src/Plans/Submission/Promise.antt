-- ===== src/Plans/Submission/Promise.antt =====
-- The budget check of a submission and the reservation behind it agree.
use collmind_backend.Base.{
  ◌≡◌, refl, ap, sym, ◌∙◌, Bool, true, none, some, List, [], ◌∷◌, Uuid, Text, ℤ, ◌+ℤ◌, leb_ℤ, arith,
  find, inl, inr, Option-cases, Bool-cases,
}
use collmind_backend.Entities.Budget.{Envelope}
use collmind_backend.Db.{Db, ok, or_throw, throw_if}
use collmind_backend.Budget.Repository.{
  find_envelope_by_dimensions, dimensions_match, rank, is_envelope, get_budget_summary,
  check_budget_availability, available_amount,
}
use collmind_backend.Budget.Repository.Choice.{In, select-In, first_least-In}
use collmind_backend.Budget.Service.{envelope_with_budget}
use collmind_backend.Budget.Status.{get_budget_status}
use collmind_backend.Plans.Submission.{check_budget}

find-In :
    {A : Type 0} (p : A → Bool) (x : A) (xs : List A)
    → In x xs
    → p x ≡ true
    → (y : A) × (find p xs ≡ some y)
find-In p x [] h hit = absurd h
find-In p x (y ∷ ys) (inl same) hit = (y, rw (ap p (sym same) ∙ hit) refl)
find-In p x (y ∷ ys) (inr rest) hit = elim (Bool-cases (p y)) [
  | inl won ↦ (y, rw won refl)
  | inr lost ↦ rw lost (find-In p x ys rest hit)
]

module _ (tenant_id : Uuid) (channel period_month : Text) (db : Db) where
  -- An envelope that the search by dimensions returns is in the summary view.
  in_view :
      (e : Envelope)
      → find_envelope_by_dimensions tenant_id channel period_month none db ≡ some e
      → (s : Envelope) × (find (is_envelope tenant_id e.id) db.envelopes ≡ some s)
  unfolding find_envelope_by_dimensions dimensions_match
  in_view e found =
      let (there, meets) =
        select-In (dimensions_match tenant_id channel period_month none) e db.envelopes
          (first_least-In (rank channel period_month) _ e found) in
      find-In (is_envelope tenant_id e.id) e db.envelopes there (ground arith)

  covers :
      (e s : Envelope) (amount : ℤ)
      → find_envelope_by_dimensions tenant_id channel period_month none db ≡ some e
      → find (is_envelope tenant_id e.id) db.envelopes ≡ some s
      → leb_ℤ amount (available_amount s db) ≡ true
      → envelope_with_budget leb_ℤ tenant_id channel period_month amount db ≡ (ok e, db)
  unfolding envelope_with_budget check_budget_availability get_budget_summary or_throw throw_if
  covers e s amount found shown enough = rw found (rw shown (rw enough refl))

  status_available :
      (e s : Envelope)
      → find_envelope_by_dimensions tenant_id channel period_month none db ≡ some e
      → find (is_envelope tenant_id e.id) db.envelopes ≡ some s
      → (get_budget_status tenant_id channel none period_month db).available ≡ available_amount s db
  unfolding get_budget_status get_budget_summary
  status_available e s found shown =
      rw (get_budget_status, found) (rw (get_budget_summary, shown) refl)

  -- When the check before a submission says that the budget is sufficient, a search for an
  -- envelope that covers both sides together goes through.
  pub check_budget-envelope_with_budget :
      (on off : ℤ)
      → (check_budget tenant_id channel period_month on off db).overall_sufficient ≡ true
      → (e : Envelope) × (envelope_with_budget leb_ℤ tenant_id channel period_month (on +ℤ off) db
          ≡ (ok e, db))
  unfolding check_budget
  check_budget-envelope_with_budget on off sufficient =
      elim (Option-cases (find_envelope_by_dimensions tenant_id channel period_month none db)) [
        | inl missing ↦ absurd (ground (arith, (rw (check_budget, missing) at sufficient)))
        | inr (e, found) ↦
            let (s, shown) = in_view e found in
            (
              e,
              covers e s (on +ℤ off) found shown (
                  rw (status_available e s found shown) at
                    (rw (check_budget, found) at sufficient)),
            )
      ]
