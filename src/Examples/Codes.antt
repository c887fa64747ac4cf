-- ===== src/Examples/Codes.antt =====
-- The creation of an envelope.
use collmind_backend.Base.{◌≡◌, refl, none, some, ◌∷◌, codes, pos, text_eq}
use collmind_backend.Db.{Db, ok, throw_if}
use collmind_backend.Budget.Repository.{find_envelope_by_code}
use collmind_backend.Budget.Envelopes.{
  CreateEnvelopeDto, create_envelope, insert_envelope, envelope_of, replace_underscore,
}
use collmind_backend.Budget.Envelopes.Codes.{new_envelope}
use collmind_backend.Examples.Data.{tenant, shop}

-- Its code is `KA/HAIR_CARE/2025-04`, its name `KA HAIR CARE 2025-04 Budget`.
abbrev april : CreateEnvelopeDto
april = record {
  code = none;
  name = none;
  fiscal_year = codes "2025";
  period = none;
  month = some (codes "04");
  channel = some (codes "KA");
  category = some (codes "HAIR_CARE");
  allocated_amount = pos 500;
  status = none;
  currency = none;
  meta_channel = none;
  meta_category = none;
}

april_name : (envelope_of tenant april).name ≡ codes "KA HAIR CARE 2025-04 Budget"
unfolding envelope_of replace_underscore
april_name = refl

abbrev with_april : Db
with_april = record shop { envelopes = new_envelope tenant april shop ∷ shop.envelopes; drawn = 1 }

created_april :
    create_envelope tenant april shop ≡ (ok (new_envelope tenant april shop), with_april)
unfolding create_envelope insert_envelope envelope_of replace_underscore find_envelope_by_code
    text_eq throw_if
created_april = refl

same_code : (envelope_of tenant april).code ≡ (new_envelope tenant april shop).code
unfolding envelope_of
same_code = refl
