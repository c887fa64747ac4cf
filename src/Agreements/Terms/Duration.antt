-- ===== src/Agreements/Terms/Duration.antt =====
-- The rule on durations: a short-term agreement has at most 30 days, a long-term one more.
use mathlib.Core.Path.{subst}
use collmind_backend.Base.{
  ℕ, ◌≡◌, refl, Uuid, Text, true, Option, none, some, ltb, leb, arith, ◌≤◌, ◌<◌, Bool-cases, inl,
  inr,
}
use collmind_backend.Entities.Agreement.{
  Agreement, AgreementType, AgreementStatus, same_agreement_status,
}
use collmind_backend.Db.{Db, ok, throw_if, or_throw}
use collmind_backend.Db.Ends.{
  Ends, returns, throws, weaken, bind_rule, or_throw_found, throw_if_rule,
}
use collmind_backend.Agreements.Repository.{
  find_agreement, with_agreement, find-with_agreement, update_agreement_rule, update_agreement_lem,
}
use collmind_backend.Agreements.Service.{get_agreement}
use collmind_backend.Agreements.Terms.{
  duration_days, check_duration, check_dates, UpdateAgreementDto, or_old, updated_terms,
  update_terms,
}

-- The duration that an agreement's dates have is one of its type.
abbrev pub FitsType : AgreementType → ℕ → Type 0
FitsType AgreementType.sta days = days ≤ 30
FitsType AgreementType.lta days = 30 < days

abbrev pub Fits : Agreement → Type 0
Fits a = FitsType a.agreement_type (duration_days a.start_date a.end_date)

-- The two tests pass a duration of the type, and no other.
pub check_duration_outcome :
    (t : AgreementType) (days : ℕ) (db : Db)
    → Ends (λ _ db'. (db' ≡ db) × FitsType t days) (λ e db'. db' ≡ db) (check_duration t days db)
unfolding check_duration throw_if
check_duration_outcome AgreementType.sta days db = elim (Bool-cases (ltb 30 days)) [
  | inl over ↦ rw over (throws refl)
  | inr within ↦ rw within (returns (refl, ground arith))
]
check_duration_outcome AgreementType.lta days db = elim (Bool-cases (leb days 30)) [
  | inl short ↦ rw short (throws refl)
  | inr long ↦ rw long (returns (refl, ground arith))
]

-- Where no date is new, the dates are those of an agreement that fits already.
check_dates_outcome :
    (start end : Option ℕ) (a : Agreement) (db : Db)
    → Fits a
    → Ends
        (λ _ db'.
          (db' ≡ db)
          × FitsType a.agreement_type
              (duration_days (or_old start a.start_date) (or_old end a.end_date)))
        (λ e db'. db' ≡ db)
        (check_dates start end a db)
unfolding check_dates
check_dates_outcome none none a db fits = returns (refl, fits)
check_dates_outcome (some s) end a db fits = check_duration_outcome a.agreement_type _ db
check_dates_outcome none (some e) a db fits = check_duration_outcome a.agreement_type _ db

module _ (month_of : ℕ → Text) (channel_code_of : Uuid → Option Text) (id tenant_id user_id : Uuid)
    (dto : UpdateAgreementDto) (db : Db) (a : Agreement) where
  abbrev pub change : Agreement → Agreement
  change = updated_terms month_of channel_code_of dto user_id

  -- `update`, for an agreement with a duration of its type: it returns for a draft only, with the
  -- row as the tenant now has it, and where the type is not changed the new duration is one of the
  -- type; or it throws and changes nothing.
  pub update_keeps_duration :
      find_agreement id tenant_id db ≡ some a
      → Fits a
      → dto.agreement_type ≡ none
      → Ends
          (λ a' db'.
            (same_agreement_status a.status AgreementStatus.draft ≡ true)
            × (a' ≡ change a)
            × (find_agreement id tenant_id db' ≡ some a')
            × Fits a')
          (λ e db'. db' ≡ db)
          (update_terms month_of channel_code_of id dto tenant_id user_id db)
  unfolding update_terms get_agreement
  update_keeps_duration found fits same_type = or_throw_found _ _ _ db a found (
      throw_if_rule _ _ _ _ (λ other. refl)
        λ draft. bind_rule _ (
          weaken
            (λ _ d (same, fitting). rw same (
              update_agreement_rule id tenant_id change db a (λ b. (refl, refl, refl)) found
                (
                  ground arith,
                  refl,
                  find-with_agreement id tenant_id change db (λ b. (refl, refl, refl)) found,
                  rw same_type fitting,
                )))
            (λ e d same. same) (check_dates_outcome dto.start_date dto.end_date a db fits)))

-- A change to the long-term type without new dates, whatever else changes.
abbrev pub to_lta : UpdateAgreementDto → UpdateAgreementDto
to_lta dto = record dto {
  agreement_type = some AgreementType.lta;
  start_date = none;
  end_date = none;
}

-- A new type without new dates is not tested: a short-term draft of at most 30 days becomes a
-- long-term agreement of at most 30 days.
pub update_type_escapes :
    (month_of : ℕ → Text) (channel_code_of : Uuid → Option Text) (id tenant_id user_id : Uuid)
    (dto : UpdateAgreementDto) (db : Db) (a : Agreement)
    → find_agreement id tenant_id db ≡ some a
    → same_agreement_status a.status AgreementStatus.draft ≡ true
    → Fits a
    → a.agreement_type ≡ AgreementType.sta
    → (a' : Agreement) × (db' : Db) × (update_terms month_of channel_code_of id
          (to_lta dto)
          tenant_id
          user_id
          db
        ≡ (ok a', db'))
      × (find_agreement id tenant_id db' ≡ some a')
      × (a'.agreement_type ≡ AgreementType.lta)
      × (duration_days a'.start_date a'.end_date ≤ 30)
unfolding update_terms get_agreement check_dates or_throw throw_if
update_type_escapes month_of channel_code_of id tenant_id user_id dto db a found draft fits sta =
    let new = updated_terms month_of channel_code_of (to_lta dto) user_id in
    (
      new a,
      with_agreement id tenant_id new db,
      rw found
          (rw draft (update_agreement_lem id tenant_id new db a (λ b. (refl, refl, refl)) found)),
      find-with_agreement id tenant_id new db (λ b. (refl, refl, refl)) found,
      refl,
      subst (λ t. FitsType t (duration_days a.start_date a.end_date)) sta fits,
    )
