-- ===== src/Lta/Rates/Best.antt =====
-- Which rate is found, and what an override does to it.
use mathlib.Core.Path.{subst}
use collmind_backend.Base.{
  ℕ, ◌≡◌, ◌≤◌, ◌<◌, refl, sym, ◌∙◌, Uuid, Text, Bool, true, false, ◌||◌, Option, none, some, List,
  [], ◌∷◌, ltb, arith, ◌==◌, select, find, exists, find_sound, Bool-cases, Option-cases, inl, inr,
  if◌then◌else◌,
}
use collmind_backend.Entities.Lta.{LtaAgreement, LtaRate, LtaPlanOverride}
use collmind_backend.Db.{Db}
use collmind_backend.Lta.Repository.{find_active_for_cpl}
use collmind_backend.Lta.Rates.{
  all_of_them, is_rate_for, rate_for, get_lta_for_plan_context, PlanContextDto, LtaContext,
  active_agreement, with_rates, context_from, lta_context, get_rates_for_context,
}

-- How well an active rate fits: 0 for the channel and the category, 1 for all categories of the
-- channel, 2 for the category in all channels, 3 for all of both, 4 for a rate that does not fit.
abbrev pub misfit : Text → Text → LtaRate → ℕ
misfit channel category r =
    if is_rate_for channel category r
    then 0
    else if is_rate_for channel all_of_them r
    then 1
    else if is_rate_for all_of_them category r
    then 2
    else if is_rate_for all_of_them all_of_them r
    then 3
    else 4

rest : (a b : Bool) → (a || b) ≡ false → b ≡ false
rest a b h = ground arith

never_below : (f : LtaRate → ℕ) (rates : List LtaRate) → exists (λ r. ltb (f r) 0) rates ≡ false
never_below f [] = refl
never_below f (r ∷ rates) = ground (arith, never_below f rates)

lower_still :
    (f : LtaRate → ℕ) (n m : ℕ) (rates : List LtaRate)
    → n ≤ m
    → exists (λ r. ltb (f r) m) rates ≡ false
    → exists (λ r. ltb (f r) n) rates ≡ false
lower_still f n m [] le h = refl
lower_still f n m (r ∷ rates) le h = ground (arith, lower_still f n m rates le)

module _ (p : LtaRate → Bool) (f : LtaRate → ℕ) where
  nothing_below :
      (n m : ℕ) (rates : List LtaRate)
      → ((r : LtaRate) → ltb (f r) m ≡ true → p r ≡ false → ltb (f r) n ≡ true)
      → find p rates ≡ none
      → exists (λ r. ltb (f r) n) rates ≡ false
      → exists (λ r. ltb (f r) m) rates ≡ false
  nothing_below n m [] step missing h = refl
  nothing_below n m (r ∷ rates) step missing h = elim (Bool-cases (p r)) [
    | inl fits ↦ absurd (cc (rw fits at missing))
    | inr off ↦ elim (Bool-cases (ltb (f r) m)) [
      | inl low ↦ absurd (cc (rw (step r low off) at h))
      | inr high ↦ rw high (nothing_below n m rates step (rw off at missing) (rest _ _ h))
    ]
  ]

-- A fitting rate is found if there is one, and none that fits better is in the list.
abbrev pub IsBest : Text → Text → List LtaRate → Option LtaRate → Type 0
IsBest channel category rates none = exists (λ r. ltb (misfit channel category r) 4) rates ≡ false
IsBest channel category rates (some r) =
    (misfit channel category r < 4)
    × (exists (λ other. ltb (misfit channel category other) (misfit channel category r)) rates
        ≡ false)

module _ (channel category : Text) (rates : List LtaRate) where
  abbrev fit : LtaRate → ℕ
  fit r = misfit channel category r

  IsBest-of :
      (n : ℕ) (r : LtaRate)
      → n < 4
      → fit r ≤ n
      → exists (λ other. ltb (fit other) n) rates ≡ false
      → IsBest channel category rates (some r)
  IsBest-of n r small le h = (omega arith, lower_still fit (fit r) n rates le h)

  last_search :
      (o : Option LtaRate)
      → find (is_rate_for all_of_them all_of_them) rates ≡ o
      → exists (λ other. ltb (fit other) 3) rates ≡ false
      → IsBest channel category rates o
  last_search none missing h =
      nothing_below (is_rate_for all_of_them all_of_them) fit 3 4 rates (λ r low off. ground arith)
        missing h
  last_search (some r) found h =
      let fits = find_sound _ rates found in IsBest-of 3 r (omega arith) (ground arith) h

  -- The search finds an active rate for the channel and the category, each by its name or as ALL,
  -- and of these one that fits best: by both names before the channel's name alone, the channel's
  -- before the category's, and ALL of both last. It finds none only where none fits.
  pub rate_for_lem : IsBest channel category rates (rate_for channel category rates)
  unfolding rate_for
  rate_for_lem = elim (Option-cases (find (is_rate_for channel category) rates)) [
    | inr (r, found) ↦
        let fits = find_sound _ rates found in
        rw found (IsBest-of 0 r (omega arith) (ground arith) (never_below fit rates))
    | inl missing ↦
        let h =
          nothing_below _ fit 0 1 rates (λ r low off. ground arith) missing
            (never_below fit rates) in
        rw missing (elim (Option-cases (find (is_rate_for channel all_of_them) rates)) [
          | inr (r, found) ↦
              let fits = find_sound _ rates found in
              rw found (IsBest-of 1 r (omega arith) (ground arith) h)
          | inl missing' ↦
              let h' = nothing_below _ fit 1 2 rates (λ r low off. ground arith) missing' h in
              rw missing' (elim (Option-cases (find (is_rate_for all_of_them category) rates)) [
                | inr (r, found) ↦
                    let fits = find_sound _ rates found in
                    rw found (IsBest-of 2 r (omega arith) (ground arith) h')
                | inl missing'' ↦ rw missing'' (
                    last_search _ refl
                      (nothing_below _ fit 2 3 rates (λ r low off. ground arith) missing'' h'))
              ])
        ])
  ]

plan_unused :
    (plan_id : Uuid) (overrides : List LtaPlanOverride) (db : Db) (o : Option LtaAgreement)
    (rate : Option LtaRate)
    → context_from (some plan_id) (with_rates (record db { lta_overrides = overrides }) o) rate
      ≡ context_from none (with_rates db o) rate
plan_unused plan_id overrides db none rate = refl
plan_unused plan_id overrides db (some a) none = refl
plan_unused plan_id overrides db (some a) (some r) = refl

abbrev OwnPercentages : LtaContext → Type 0
OwnPercentages c =
    (c.final_on_invoice_pct ≡ c.rate.on_invoice_percentage)
    × (c.final_off_invoice_pct ≡ c.rate.off_invoice_percentage)

percentages_of :
    (db : Db) (o : Option LtaAgreement) (rate : Option LtaRate) {c : LtaContext}
    → context_from none (with_rates db o) rate ≡ some c
    → OwnPercentages c
percentages_of db none rate h = absurd (cc)
percentages_of db (some a) none h = absurd (cc)
percentages_of db (some a) (some r) {c} h =
    let same : lta_context
          record {
            row = a;
            rates = select (λ r'. r'.lta_agreement_id == a.id) db.lta_rates;
            plan_overrides = none;
          }
          r none
        ≡ c =
      cc in
    subst OwnPercentages same (refl, refl)

-- An override of a plan has no effect: the percentages are those of the rate, whatever overrides
-- the table has.
pub overrides_ignored :
    (tenant_id : Uuid) (context : PlanContextDto) (plan_id : Uuid) (day : ℕ)
    (overrides : List LtaPlanOverride) (db : Db) {c : LtaContext}
    → get_lta_for_plan_context tenant_id context
        (some plan_id)
        day
        (record db { lta_overrides = overrides })
      ≡ some c
    → (get_lta_for_plan_context tenant_id context none day db ≡ some c)
      × (c.final_on_invoice_pct ≡ c.rate.on_invoice_percentage)
      × (c.final_off_invoice_pct ≡ c.rate.off_invoice_percentage)
unfolding get_lta_for_plan_context active_agreement get_rates_for_context find_active_for_cpl
overrides_ignored tenant_id context plan_id day overrides db {c} h =
    elim (Option-cases context.cpl_id) [
      | inl none_given ↦ absurd (cc (rw none_given at h))
      | inr (cpl_id, given) ↦
          let h' = sym (plan_unused plan_id overrides db _ _) ∙ rw given at h in
          let (on, off) = percentages_of db _ _ h' in (rw given h', on, off)
    ]
