-- ===== src/Examples/Terms.antt =====
-- The creation of agreements, their codes, and the change of their terms.
use collmind_backend.Base.{
  ◌+◌, ◌++◌, ℕ, ◌≡◌, refl, codes, none, some, Option, Uuid, Text, true, [], ◌∷◌, pos, arith,
  is_prefix,
}
use collmind_backend.Entities.Agreement.{
  Agreement, AgreementType, AgreementStatus, same_agreement_status,
}
use collmind_backend.Db.{Db}
use collmind_backend.Db.Ends.{Ends}
use collmind_backend.Agreements.Repository.{find_agreement}
use collmind_backend.Agreements.Terms.{
  UpdateAgreementDto, update_terms, updated_terms, duration_days,
}
use collmind_backend.Agreements.Terms.Duration.{Fits, update_keeps_duration}
use collmind_backend.Agreements.Codes.{
  Platform, show, pad_start, parse_int, split, generate_code, next_sequence, number_in, code_prefix,
}
use collmind_backend.Agreements.Codes.Numbers.{next_sequence-code}
use collmind_backend.Agreements.Creation.{CreateAgreementDto, MasterData, known, create_agreement}
use collmind_backend.Agreements.Creation.Outcome.{Created, create_agreement_outcome}
use collmind_backend.Examples.Data.{tenant, planner, channel, march}
use collmind_backend.Examples.Agreements.{pact, pact_shop}

abbrev month_of : ℕ → Text
month_of time = march

abbrev channel_code_of : Uuid → Option Text
channel_code_of id = some channel

abbrev platform : Platform
platform = record { month_of = month_of; year_of = λ time. 2025; shows_deleted = true }

abbrev master : MasterData
master = record {
  has_cpl = λ t i. true;
  has_channel = λ t i. true;
  has_tactic = λ t i. true;
  has_mechanic = λ t i. true;
  has_fu = λ t i. true;
  channel_code_of = channel_code_of;
}

abbrev offer : CreateAgreementDto
offer = record {
  agreement_type = AgreementType.sta;
  cpl_id = 61;
  channel_id = 62;
  fu_id = 80;
  tactic_id = 83;
  mechanic_id = 84;
  cap_total_amount = pos 90;
  currency = none;
  start_date = 1000;
  end_date = 9000;
}

second_code : generate_code platform tenant AgreementType.sta pact_shop ≡ codes "STA-2025-002"
unfolding generate_code next_sequence split parse_int show pad_start is_prefix
second_code = refl

-- The codes are ordered as texts, so behind number 1000 the next number is 1000 again.
abbrev full_shop : Db
full_shop = record pact_shop {
  agreements =
      record pact { agreement_code = codes "STA-2025-1000" }
      ∷ record pact { agreement_code = codes "STA-2025-999" }
      ∷ [];
}

same_code_again : generate_code platform tenant AgreementType.sta full_shop ≡ codes "STA-2025-1000"
unfolding generate_code next_sequence split parse_int show pad_start is_prefix
same_code_again = refl

next_sequence-code_example :
    (number_in (split (code_prefix AgreementType.lta 2025 ++ pad_start (show 1009))) ≡ some 1009)
    × (next_sequence (some (code_prefix AgreementType.lta 2025 ++ pad_start (show 1009)))
        ≡ 1009 + 1)
next_sequence-code_example = next_sequence-code AgreementType.lta 2025 1009

create_agreement_outcome_example :
    Ends
      (λ a db'.
        Fits a
        × (known master tenant offer ≡ true)
        × Created platform master offer tenant pact_shop a db')
      (λ e db'. db' ≡ pact_shop)
      (create_agreement platform master offer tenant pact_shop)
create_agreement_outcome_example = create_agreement_outcome platform master offer tenant pact_shop

abbrev draft_pact : Agreement
draft_pact = record pact { status = AgreementStatus.draft; approval_request_id = none }

abbrev draft_shop : Db
draft_shop = record pact_shop { agreements = draft_pact ∷ [] }

drafted : find_agreement 50 tenant draft_shop ≡ some draft_pact
unfolding find_agreement
drafted = refl

fits : Fits draft_pact
unfolding duration_days
fits = omega arith

abbrev longer : UpdateAgreementDto
longer = record {
  agreement_type = none;
  cpl_id = none;
  channel_id = none;
  fu_id = none;
  tactic_id = none;
  mechanic_id = none;
  cap_total_amount = some (pos 500);
  currency = none;
  start_date = none;
  end_date = some 90000000;
}

update_keeps_duration_example :
    Ends
      (λ a' db'.
        (same_agreement_status AgreementStatus.draft AgreementStatus.draft ≡ true)
        × (a' ≡ updated_terms month_of channel_code_of longer planner draft_pact)
        × (find_agreement 50 tenant db' ≡ some a')
        × Fits a')
      (λ e db'. db' ≡ draft_shop)
      (update_terms month_of channel_code_of 50 longer tenant planner draft_shop)
update_keeps_duration_example =
    update_keeps_duration month_of channel_code_of 50 tenant planner longer draft_shop draft_pact
      drafted fits refl
