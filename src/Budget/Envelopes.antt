-- ===== src/Budget/Envelopes.antt =====
-- `createEnvelope` of budget.service.ts.
pub mod Codes
use collmind_backend.Base.{
  Bool, true, false, ◌&&◌, Option, none, some, [], ◌∷◌, ◌++◌, Uuid, Text, codes, ℤ, pos, ◌==◌,
  if◌then◌else◌, exists, text_eq,
}
use collmind_backend.Entities.Budget.{Envelope, EnvelopeStatus}
use collmind_backend.Db.{
  Action, Error, envelope_code_taken, duplicate_key, ◌>>=◌, ◌>>◌, query, throw_if, return, write,
  new_id,
}
use collmind_backend.Budget.Repository.{find_envelope_by_code}

-- `s || fallback`: an absent or empty text is replaced.
abbrev pub or_text : Option Text → Text → Text
or_text none fallback = fallback
or_text (some []) fallback = fallback
or_text (some (a ∷ s)) fallback = a ∷ s

-- `currency || 'TRY'`.
abbrev pub or_try : Text → Text
or_try currency = or_text (some currency) (codes "TRY")

-- `s.replace('_', ' ')` replaces the first one.
unfoldable pub replace_underscore : Text → Text
replace_underscore [] = []
replace_underscore (c ∷ s) = if c == b'_' then b' ' ∷ s else c ∷ replace_underscore s

pub record CreateEnvelopeDto : Type 0 where
  pub code : Option Text
  pub name : Option Text
  pub fiscal_year : Text
  pub period : Option Text
  pub month : Option Text
  pub channel : Option Text
  pub category : Option Text
  pub allocated_amount : ℤ
  pub status : Option EnvelopeStatus
  pub currency : Option Text
  pub meta_channel : Option Text
  pub meta_category : Option Text

abbrev or_draft : Option EnvelopeStatus → EnvelopeStatus
or_draft none = EnvelopeStatus.draft
or_draft (some s) = s

abbrev or_default_currency : Option Text → Text
or_default_currency none = codes "TRY"
or_default_currency (some s) = s

-- The row that `createEnvelope` saves, before the database gives it an id.
unfoldable pub envelope_of : Uuid → CreateEnvelopeDto → Envelope
unfolding replace_underscore
envelope_of tenant_id dto =
    let channel = or_text dto.channel (codes "UNKNOWN") in
    let category = or_text dto.category (codes "GENERAL") in
    let period =
      or_text dto.period (dto.fiscal_year ++ (codes "-" ++ or_text dto.month (codes "01"))) in
    let slash = codes "/" in
    let space = codes " " in
    record {
      id = 0;
      tenant_id = tenant_id;
      code = or_text dto.code (channel ++ (slash ++ (category ++ (slash ++ period))));
      name = or_text dto.name (
          channel
          ++ (space ++ (replace_underscore category ++ (space ++ (period ++ codes " Budget")))));
      fiscal_year = dto.fiscal_year;
      period = period;
      allocated_amount = dto.allocated_amount;
      consumed_amount = pos 0;
      available_amount = dto.allocated_amount;
      status = or_draft dto.status;
      channel = some channel;
      category = some category;
      currency = or_default_currency dto.currency;
      meta_channel = dto.meta_channel;
      meta_category = dto.meta_category;
      deleted = false;
    }

abbrev pub is_some {ℓ} : {A : Type ℓ} → Option A → Bool
is_some none = false
is_some (some a) = true

-- `save` on the envelopes, whose unique index (tenant_id, code) sees deleted rows too.
unfoldable pub insert_envelope : Envelope → Action Envelope
insert_envelope e = do
  taken ←
      query (λ db. exists (λ f. (f.tenant_id == e.tenant_id) && text_eq f.code e.code) db.envelopes)
  throw_if taken (Error.plain duplicate_key)
  id ← new_id
  let row = record e { id = id }
  write (λ db. record db { envelopes = row ∷ db.envelopes })
  return row

unfoldable pub create_envelope : Uuid → CreateEnvelopeDto → Action Envelope
unfolding envelope_of insert_envelope
create_envelope tenant_id dto = do
  let e = envelope_of tenant_id dto
  existing ← query (find_envelope_by_code tenant_id e.code)
  throw_if (is_some existing) (Error.conflict envelope_code_taken)
  insert_envelope e
