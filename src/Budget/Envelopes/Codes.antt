-- ===== src/Budget/Envelopes/Codes.antt =====
-- `createEnvelope`: its outcome, and the codes that it keeps apart.
use collmind_backend.Base.{◌≡◌, refl, false, Option, none, some, ◌∷◌, Uuid, text_eq_refl, arith}
use collmind_backend.Entities.Budget.{Envelope}
use collmind_backend.Db.{Db, Error, ok, err, envelope_code_taken, throw_if}
use collmind_backend.Db.Ends.{Ends, returns, returned, throw_if_rule}
use collmind_backend.Budget.Repository.{find_envelope_by_code, find_envelope_by_id}
use collmind_backend.Budget.Envelopes.{
  CreateEnvelopeDto, create_envelope, envelope_of, insert_envelope, is_some,
}

none_of : {A : Type 0} (o : Option A) → is_some o ≡ false → o ≡ none
none_of none h = refl
none_of (some a) h = ground arith

module _ (tenant_id : Uuid) (dto : CreateEnvelopeDto) (db : Db) where
  abbrev pub new_envelope : Envelope
  new_envelope = record (envelope_of tenant_id dto) { id = db.uuids db.drawn }

  -- `createEnvelope` stores one envelope under a code that the tenant does not use, and the envelope
  -- is found by its id and by its code, with nothing consumed; or it throws and changes nothing.
  pub create_envelope_outcome :
      Ends
        (λ e db'.
          (find_envelope_by_code tenant_id e.code db ≡ none)
          × (e.available_amount ≡ dto.allocated_amount)
          × (db'.envelopes ≡ e ∷ db.envelopes)
          × (find_envelope_by_id tenant_id e.id db' ≡ some e)
          × (find_envelope_by_code tenant_id e.code db' ≡ some e))
        (λ e db'. db' ≡ db)
        (create_envelope tenant_id dto db)
  unfolding create_envelope insert_envelope envelope_of find_envelope_by_id find_envelope_by_code
  create_envelope_outcome =
      throw_if_rule _ _ _ _ (λ taken. refl)
        λ unused.
          throw_if_rule _ _ _ _ (λ taken. refl)
            (λ saved. returns (
              none_of _ unused,
              refl,
              refl,
              ground arith,
              ground (arith, text_eq_refl (envelope_of tenant_id dto).code),
            ))

  -- A second envelope with the code of one that was created is refused, and nothing changes.
  pub create_envelope_once :
      (dto' : CreateEnvelopeDto) (e : Envelope) (db' : Db)
      → (envelope_of tenant_id dto').code ≡ e.code
      → create_envelope tenant_id dto db ≡ (ok e, db')
      → create_envelope tenant_id dto' db' ≡ (err (Error.conflict envelope_code_taken), db')
  unfolding create_envelope throw_if
  create_envelope_once dto' e db' same h =
      let (_, _, _, _, by_code) = returned create_envelope_outcome h in rw same (rw by_code refl)
