-- ===== src/Lta/Frame.antt =====
-- The steps of a call that leave the table of agreements as it is.
use collmind_backend.Base.{
  Uuid, Text, text_eq, Bool, true, false, ◌||◌, Option, none, some, List, [], ◌∷◌, Bool-cases, inl,
  inr,
}
use collmind_backend.Entities.Lta.{LtaAgreement}
use collmind_backend.Db.{Db, Error, throw_if, Result}
use collmind_backend.Db.Ends.{Ends, returns, throws, throw_if_rule}
use collmind_backend.Budget.Envelopes.{is_some}
use collmind_backend.Lta.Service.{
  CreateLtaRateDto, UpdateLtaAgreementDto, create_rates, refuse_overlapping, check_code,
  check_lta_dates, replace_rates,
}

-- However a call ends, the agreements have a property.
abbrev pub Leaves : (List LtaAgreement → Type 0) → {A : Type 0} → Result A × Db → Type 0
Leaves P r = Ends (λ a db'. P db'.lta_agreements) (λ e db'. P db'.lta_agreements) r

module _ (P : List LtaAgreement → Type 0) where
  throw_if-Leaves :
      (b : Bool) (e : Error) (db : Db) → P db.lta_agreements → Leaves P (throw_if b e db)
  unfolding throw_if
  throw_if-Leaves true e db h = throws h
  throw_if-Leaves false e db h = returns h

  pub create_rates-Leaves :
      (id : Uuid) (rates : List CreateLtaRateDto) (db : Db)
      → P db.lta_agreements
      → Leaves P (create_rates id rates db)
  unfolding create_rates
  create_rates-Leaves id [] db h = returns h
  create_rates-Leaves id (r ∷ rates) db h = create_rates-Leaves id rates _ h

  pub replace_rates-Leaves :
      (id : Uuid) (rates : Option (List CreateLtaRateDto)) (db : Db)
      → P db.lta_agreements
      → Leaves P (replace_rates id rates db)
  unfolding replace_rates
  replace_rates-Leaves id none db h = returns h
  replace_rates-Leaves id (some rates) db h =
      throw_if_rule _ _ _ _ (λ _. h) λ _. create_rates-Leaves id rates _ h

  pub check_code-Leaves :
      (tenant_id : Uuid) (code : Option Text) (old : Text) (db : Db)
      → P db.lta_agreements
      → Leaves P (check_code tenant_id code old db)
  unfolding check_code
  check_code-Leaves tenant_id none old db h = returns h
  check_code-Leaves tenant_id (some []) old db h = returns h
  check_code-Leaves tenant_id (some (c ∷ code)) old db h =
      elim (Bool-cases (text_eq (c ∷ code) old)) [
        | inl same ↦ rw same (returns h)
        | inr other ↦ rw other (throw_if-Leaves _ _ db h)
      ]

  pub check_lta_dates-Leaves :
      (tenant_id : Uuid) (dto : UpdateLtaAgreementDto) (a : LtaAgreement) (db : Db)
      → P db.lta_agreements
      → Leaves P (check_lta_dates tenant_id dto a db)
  unfolding check_lta_dates refuse_overlapping
  check_lta_dates-Leaves tenant_id dto a db h =
      elim (Bool-cases (is_some dto.effective_date || is_some dto.expiry_date)) [
        | inr no_date ↦ rw no_date (returns h)
        | inl a_date ↦ rw a_date (throw_if_rule _ _ _ _ (λ _. h) λ _. throw_if-Leaves _ _ db h)
      ]
