-- ===== src/Kpi/Maps.antt =====
-- Objects with text keys, as lists of entries with one entry for a key.
use collmind_backend.Base.{
  ◌≡◌, refl, ap, false, Option, none, some, List, [], ◌∷◌, Text, text_eq, text_eq_refl,
  if◌then◌else◌, Bool-cases, inl, inr, text_eq_sound,
}

module _ {ℓ} {A : Type ℓ} where
  -- `object[key]`; `none` is `undefined`.
  abbrev pub get : Text → List (Text × A) → Option A
  get key [] = none
  get key ((k, a) ∷ m) = if text_eq k key then some a else get key m

  -- `object[key] = value`.
  abbrev pub put : Text → A → List (Text × A) → List (Text × A)
  put key a [] = (key, a) ∷ []
  put key a ((k, b) ∷ m) = if text_eq k key then (k, a) ∷ m else (k, b) ∷ put key a m

  pub get-put_self : (key : Text) (a : A) (m : List (Text × A)) → get key (put key a m) ≡ some a
  get-put_self key a [] = rw (text_eq_refl key) refl
  get-put_self key a ((k, b) ∷ m) = elim (Bool-cases (text_eq k key)) [
    | inl same ↦ rw same (rw same refl)
    | inr other ↦ rw other (rw other (get-put_self key a m))
  ]

  pub get-put_ne :
      (key other : Text) (a : A) (m : List (Text × A))
      → text_eq key other ≡ false
      → get other (put key a m) ≡ get other m
  get-put_ne key other a [] ne = rw ne refl
  get-put_ne key other a ((k, b) ∷ m) ne = elim (Bool-cases (text_eq k key)) [
    | inl same ↦
        let off : text_eq k other ≡ false = rw (text_eq_sound k key same) ne in
        rw same (rw off refl)
    | inr differ ↦
        rw differ (ap (λ z. if text_eq k other then some b else z) (get-put_ne key other a m ne))
  ]
