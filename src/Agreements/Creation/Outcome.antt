-- ===== src/Agreements/Creation/Outcome.antt =====
-- What `create` leaves behind.
use mathlib.Core.Path.{subst, sym}
use collmind_backend.Base.{
  ℕ, zero, suc, ◌≡◌, refl, Uuid, Text, true, false, Option, none, some, ◌∷◌, exists, arith,
  Bool-cases, inl, inr,
}
use collmind_backend.Entities.Agreement.{Agreement, AgreementType}
use collmind_backend.Db.{Db}
use collmind_backend.Db.Ends.{Ends, returns, throws, weaken, bind_rule, throw_if_rule}
use collmind_backend.Agreements.Repository.{find_agreement}
use collmind_backend.Agreements.Terms.Duration.{Fits, check_duration_outcome}
use collmind_backend.Agreements.Codes.{Platform, raise_code}
use collmind_backend.Agreements.Creation.{
  CreateAgreementDto, MasterData, known, free_code, agreement_of, same_code, save_agreement,
  if_refused, store_agreement, create_agreement,
}

-- The search for a code changes nothing.
free_code_outcome :
    (platform : Platform) (tenant_id : Uuid) (t : AgreementType) (left : ℕ) (code : Text)
    (existing : Option Agreement) (db : Db)
    → Ends
        (λ _ db'. db' ≡ db)
        (λ e db'. db' ≡ db)
        (free_code platform tenant_id t left code existing db)
unfolding free_code raise_code
free_code_outcome platform tenant_id t left code none db = returns refl
free_code_outcome platform tenant_id t zero code (some taken) db = returns refl
free_code_outcome platform tenant_id t (suc left) code (some taken) db =
    throw_if_rule _ _ _ _ (λ last. refl) λ more. free_code_outcome platform tenant_id t left _ _ db

module _ (platform : Platform) (master : MasterData) (dto : CreateAgreementDto) (tenant_id : Uuid)
    (db : Db) where
  -- A new row, under a code that no agreement of the tenant had, deleted ones counted.
  pub record Created (a : Agreement) (db' : Db) : Type 0 where
    pub code : Text
    pub unused : exists (same_code tenant_id code) db.agreements ≡ false
    pub row : a ≡ agreement_of platform master dto tenant_id code (db.uuids db.drawn)
    pub listed : db'.agreements ≡ a ∷ db.agreements
    pub found : find_agreement a.id tenant_id db' ≡ some a

  saved :
      (code : Text)
      → exists (same_code tenant_id code) db.agreements ≡ false
      → Ends Created
          (λ e db'. db' ≡ db)
          (save_agreement (agreement_of platform master dto tenant_id code) db)
  unfolding save_agreement find_agreement
  saved code free =
      returns
        (record { code = code; unused = free; row = refl; listed = refl; found = ground arith })

  store_outcome :
      (left : ℕ) (code : Text)
      → Ends Created
          (λ e db'. db' ≡ db)
          (store_agreement platform master dto tenant_id left code db)
  unfolding store_agreement raise_code if_refused
  store_outcome zero code = elim (Bool-cases (exists (same_code tenant_id code) db.agreements)) [
    | inl taken ↦ rw taken (throws refl)
    | inr free ↦ rw free (saved code free)
  ]
  store_outcome (suc left) code =
      elim (Bool-cases (exists (same_code tenant_id code) db.agreements)) [
        | inl taken ↦ rw taken (store_outcome left _)
        | inr free ↦ rw free (saved code free)
      ]

  -- `create` returns an agreement with a duration of its type, which is stored as a draft under a
  -- code that no agreement of the tenant had before, deleted ones counted; or it throws and changes
  -- nothing.
  pub create_agreement_outcome :
      Ends
        (λ a db'. Fits a × (known master tenant_id dto ≡ true) × Created a db')
        (λ e db'. db' ≡ db)
        (create_agreement platform master dto tenant_id db)
  unfolding create_agreement
  create_agreement_outcome = bind_rule _ (
      weaken
        (λ _ d (same, fits). rw same (
          throw_if_rule _ _ _ _ (λ unknown. refl)
            λ all_known. bind_rule _ (
              weaken
                (λ code d' same'. rw same' (
                  weaken (λ a d'' new. (subst Fits (sym (new.row)) fits, ground arith, new))
                    (λ e d'' same''. same'') (store_outcome 9 code)))
                (λ e d' same'. same')
                (free_code_outcome platform tenant_id dto.agreement_type 10 _ _ db))))
        (λ e d same. same) (check_duration_outcome dto.agreement_type _ db))
