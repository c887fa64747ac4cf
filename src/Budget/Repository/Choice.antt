-- ===== src/Budget/Repository/Choice.antt =====
-- Which envelope `findEnvelopeByDimensions` chooses.
use mathlib.Core.Option.{some-injective}
use collmind_backend.Base.{
  ℕ, ◌≤◌, ◌≡◌, refl, sym, ap, ◌∙◌, Bool, true, Option, some, List, [], ◌∷◌, Uuid, Text, arith, leb,
  select, ◌⊎◌, inl, inr, Bool-cases, Option-cases,
}
use collmind_backend.Entities.Budget.{Envelope}
use collmind_backend.Db.{Db}
use collmind_backend.Budget.Repository.{
  first_least, rank, dimensions_match, find_envelope_by_dimensions,
}

-- An element of a list.
abbrev pub In : {A : Type 0} → A → List A → Type 0
In x [] = ⊥
In x (y ∷ ys) = (x ≡ y) ⊎ In x ys

module _ {A : Type 0} where
  In-select : (p : A → Bool) (x : A) (xs : List A) → In x xs → p x ≡ true → In x (select p xs)
  In-select p x [] h hit = absurd h
  In-select p x (y ∷ ys) (inl same) hit = rw (ap p (sym same) ∙ hit) (inl same)
  In-select p x (y ∷ ys) (inr rest) hit = elim (Bool-cases (p y)) [
    | inl won ↦ rw won (inr (In-select p x ys rest hit))
    | inr lost ↦ rw lost (In-select p x ys rest hit)
  ]

  pub select-In : (p : A → Bool) (x : A) (xs : List A) → In x (select p xs) → In x xs × (p x ≡ true)
  select-In p x [] h = absurd h
  select-In p x (y ∷ ys) h = elim (Bool-cases (p y)) [
    | inl won ↦ elim (rw won at h) [
      | inl same ↦ (inl same, ap p same ∙ won)
      | inr rest ↦ let (there, hit) = select-In p x ys rest in (inr there, hit)
    ]
    | inr lost ↦ let (there, hit) = select-In p x ys (rw lost at h) in (inr there, hit)
  ]

  pub first_least-In : (f : A → ℕ) (xs : List A) (z : A) → first_least f xs ≡ some z → In z xs
  first_least-In f [] z h = absurd cc
  first_least-In f (y ∷ ys) z h = elim (Option-cases (first_least f ys)) [
    | inl nothing ↦ inl (some-injective z y (sym (rw nothing at h)))
    | inr (w, found) ↦ elim (Bool-cases (leb (f y) (f w))) [
      | inl won ↦ inl (some-injective z y (sym (rw won at (rw found at h))))
      | inr lost ↦
          let same = some-injective w z (rw lost at (rw found at h)) in
          inr (first_least-In f ys z (found ∙ ap some same))
    ]
  ]

  abbrev Least : (A → ℕ) → A → List A → Option A → Type 0
  Least f x xs o = (y : A) × (o ≡ some y) × In y xs × (f y ≤ f x)

  first_least-Least : (f : A → ℕ) (x : A) (xs : List A) → In x xs → Least f x xs (first_least f xs)
  first_least-Least f x [] h = absurd h
  first_least-Least f x (y ∷ ys) (inl same) = elim (Option-cases (first_least f ys)) [
    | inl nothing ↦ rw nothing (y, refl, inl refl, rw same (omega arith))
    | inr (z, found) ↦ rw found (elim (Bool-cases (leb (f y) (f z))) [
      | inl won ↦ rw won (y, refl, inl refl, rw same (omega arith))
      | inr lost ↦
          rw lost (z, refl, inr (first_least-In f ys z found), rw same (ground (arith, lost)))
    ])
  ]
  first_least-Least f x (y ∷ ys) (inr rest) =
      let (z, found, there, le) = first_least-Least f x ys rest in
      rw found (elim (Bool-cases (leb (f y) (f z))) [
        | inl won ↦ rw won (y, refl, inl refl, ground (arith, le, won))
        | inr lost ↦ rw lost (z, refl, inr there, le)
      ])

-- Whenever the tenant has an envelope that meets the conditions on the dimensions, the search finds
-- one: an envelope of the table that meets them too, and whose rank, exact period before exact
-- channel, is at least as good.
pub find_envelope_by_dimensions_lem :
    (tenant_id : Uuid) (channel period_month : Text) (category : Option Text) (db : Db)
    (f : Envelope)
    → In f db.envelopes
    → dimensions_match tenant_id channel period_month category f ≡ true
    → (e : Envelope) × (find_envelope_by_dimensions tenant_id channel period_month category db
        ≡ some e)
      × In e db.envelopes
      × (dimensions_match tenant_id channel period_month category e ≡ true)
      × (rank channel period_month e ≤ rank channel period_month f)
unfolding find_envelope_by_dimensions
find_envelope_by_dimensions_lem tenant_id channel period_month category db f there hit =
    let meets = dimensions_match tenant_id channel period_month category in
    let (e, found, chosen, le) =
      first_least-Least (rank channel period_month) f (select meets db.envelopes)
        (In-select meets f db.envelopes there hit) in
    let (stands, passes) = select-In meets e db.envelopes chosen in (e, found, stands, passes, le)
