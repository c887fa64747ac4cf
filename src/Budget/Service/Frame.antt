-- ===== src/Budget/Service/Frame.antt =====
-- The budget's methods for plans and agreements write nothing but transactions.
use collmind_backend.Base.{◌≡◌, refl, ◌∙◌, List, [], ◌∷◌, Uuid, Text, ℤ, inl, inr}
use collmind_backend.Entities.Budget.{Transaction}
use collmind_backend.Db.{Db, Result}
use collmind_backend.Db.Ends.{Ends, returns, weaken, bind_rule}
use collmind_backend.Budget.Repository.Calls.{create_transaction_rule}
use collmind_backend.Budget.Service.{
  reserve_for_plan, release_for_plan, release_commit, release_commits, release_for_agreement,
}
use collmind_backend.Budget.Service.Calls.{unless_existing_rule}
use collmind_backend.Budget.Service.Agreement.{Reserved}
use collmind_backend.Budget.Repository.{Comparison}
use collmind_backend.Budget.Service.Plan.{reserve_for_plan_outcome}

-- The tables of the approval workflow, and the clock, are as they were.
pub record Frame (db db' : Db) : Type 0 where
  pub plans : db'.plans ≡ db.plans
  pub requests : db'.requests ≡ db.requests
  pub histories : db'.histories ≡ db.histories
  pub agreements : db'.agreements ≡ db.agreements
  pub now : db'.now ≡ db.now

pub Frame-refl : (db : Db) → Frame db db
Frame-refl db = record {
  plans = refl;
  requests = refl;
  histories = refl;
  agreements = refl;
  now = refl;
}

pub Frame-trans : {a b c : Db} → Frame a b → Frame b c → Frame a c
Frame-trans f g = record {
  plans = g.plans ∙ f.plans;
  requests = g.requests ∙ f.requests;
  histories = g.histories ∙ f.histories;
  agreements = g.agreements ∙ f.agreements;
  now = g.now ∙ f.now;
}

pub Frame-eq : {a b : Db} → b ≡ a → Frame a b
Frame-eq {a} same = rw same (Frame-refl a)

-- A call that frames the workflow's tables, however it ends.
abbrev pub Framed : {A : Type 0} → Db → Result A × Db → Type 0
Framed db r = Ends (λ _ db'. Frame db db') (λ _ db'. Frame db db') r

pub reserve_for_plan-Frame :
    (at_most : Comparison) (plan_id : Uuid) (amount : ℤ) (channel period_month currency : Text)
    (tenant_id user_id : Uuid) (db : Db)
    → Framed db
        (reserve_for_plan at_most plan_id amount channel period_month currency tenant_id user_id db)
reserve_for_plan-Frame at_most plan_id amount channel period_month currency tenant_id user_id db =
    weaken
      (λ tx db' done. elim done [
        | inl (same, _) ↦ Frame-eq same
        | inr (_, (e, _, _, stored_one)) ↦ rw stored_one (record {
          plans = refl;
          requests = refl;
          histories = refl;
          agreements = refl;
          now = refl;
        })
      ])
      (λ e db' same. Frame-eq same)
      (reserve_for_plan_outcome plan_id tenant_id at_most amount channel period_month currency
        user_id db)

release_commit-Frame :
    (plan_id tenant_id : Uuid) (tx : Transaction) (db : Db)
    → Framed db (release_commit plan_id tenant_id tx db)
unfolding release_commit
release_commit-Frame plan_id tenant_id tx db = bind_rule _ (
    unless_existing_rule _ _ _ (λ t found. returns {db = db} (Frame-refl db))
      λ absent.
        create_transaction_rule _ db (λ taken. Frame-refl db)
          (λ saved. returns (record {
            plans = refl;
            requests = refl;
            histories = refl;
            agreements = refl;
            now = refl;
          })))

release_commits-Frame :
    (plan_id tenant_id : Uuid) (txs : List Transaction) (db : Db)
    → Framed db (release_commits plan_id tenant_id txs db)
unfolding release_commits
release_commits-Frame plan_id tenant_id [] db = returns (Frame-refl db)
release_commits-Frame plan_id tenant_id (tx ∷ txs) db = bind_rule _ (
    weaken
      (λ _ db' f.
        weaken (λ _ db'' g. Frame-trans f g) (λ _ db'' g. Frame-trans f g)
          (release_commits-Frame plan_id tenant_id txs db'))
      (λ _ db' f. f) (release_commit-Frame plan_id tenant_id tx db))

pub release_for_plan-Frame :
    (plan_id tenant_id : Uuid) (db : Db) → Framed db (release_for_plan plan_id tenant_id db)
unfolding release_for_plan
release_for_plan-Frame plan_id tenant_id db = release_commits-Frame plan_id tenant_id _ db

pub Reserved-Frame :
    (agreement_id : Uuid) (amount : ℤ) (channel period_month currency : Text)
    (tenant_id user_id : Uuid) (tx : Transaction) (db db' : Db)
    → Reserved agreement_id amount channel period_month currency tenant_id user_id tx db db'
    → Frame db db'
Reserved-Frame agreement_id amount channel period_month currency tenant_id user_id tx db db' done =
    elim done [
      | inl (same, _) ↦ Frame-eq same
      | inr (_, (e, _, _, stored_one)) ↦ rw stored_one (record {
        plans = refl;
        requests = refl;
        histories = refl;
        agreements = refl;
        now = refl;
      })
    ]

pub release_for_agreement-Frame :
    (agreement_id envelope_id : Uuid) (amount : ℤ) (currency : Text) (tenant_id user_id : Uuid)
    (db : Db)
    → Framed db
        (release_for_agreement agreement_id envelope_id amount currency tenant_id user_id db)
unfolding release_for_agreement
release_for_agreement-Frame agreement_id envelope_id amount currency tenant_id user_id db =
    unless_existing_rule _ _ _ (λ t found. Frame-refl db)
      λ absent.
        create_transaction_rule _ db (λ taken. Frame-refl db)
          (λ saved. record {
            plans = refl;
            requests = refl;
            histories = refl;
            agreements = refl;
            now = refl;
          })
