-- ===== src/Plans/Recalculation/Outcome.antt =====
-- `recalculatePlanWithKpiEngine` on a plan that is there.
use collmind_backend.Base.{
  true, false, Bool-cases, ◌≡◌, ◌≢◌, refl, sym, ◌∙◌, ap, Uuid, some, List, [], ◌∷◌, ◌⊎◌, inl, inr,
}
use collmind_backend.Entities.Plan.{Plan, PlanFu, Tactic}
use collmind_backend.Db.{Db, Error, sku_deleted}
use collmind_backend.Db.Ends.{Ends, returns, throws, weaken, or_throw_found}
use collmind_backend.Kpi.Aggregate.{each}
use collmind_backend.Plans.Repository.{find_plan, with_plan, find-with_plan, update_plan_lem}
use collmind_backend.Plans.Repository.Rows.Present.{every-each}
use collmind_backend.Plans.Service.{find_by_id}
use collmind_backend.Plans.Spend.{tenant_tactics}
use collmind_backend.Plans.Recalculation.{
  Calculator, skus_there, fu_there, stop_at_missing, recalculate_rows, recalculated_sku, fu_results,
  recalculated_fu, totalled, recalculate_fus, recalculate,
}
use collmind_backend.Plans.Recalculation.Totals.{
  Settled, recalculated, recalculated-Settled, recalculated_again,
}

true≢false : true ≢ false
true≢false e = cc

module _ (c : Calculator) (plan_id tenant_id : Uuid) where
  -- What a recalculation of `p` leaves: a plan without FUs as it was, another with its rows.
  abbrev pub Recalculated : Plan → Db → Type 0
  Recalculated p db =
      (p' : Plan) × (find_plan plan_id tenant_id db ≡ some p')
      × (((p.plan_fus ≡ []) × (p' ≡ p))
          ⊎ ((p.plan_fus ≢ []) × (p' ≡ recalculated c (tenant_tactics tenant_id db) p)))

  -- What a call on a plan leaves of it: a plan without FUs, or one with settled totals.
  abbrev pub Leaves : Plan → Db → Type 0
  Leaves p db =
      (p' : Plan) × (find_plan plan_id tenant_id db ≡ some p')
      × (p'.status ≡ p.status)
      × ((p'.plan_fus ≡ []) ⊎ Settled p')

  pub Recalculated→Leaves : (p : Plan) (db : Db) → Recalculated p db → Leaves p db
  unfolding totalled
  Recalculated→Leaves p db (p', found, inl (none_there, same)) =
      (p, found ∙ ap some same, refl, inl none_there)
  Recalculated→Leaves p db (p', found, inr (some_there, same)) =
      let tactics = tenant_tactics tenant_id db in
      (recalculated c tactics p, found ∙ ap some same, refl, inr (recalculated-Settled c tactics p))

  module _ {E : Error → Db → Type 0} (db : Db) (p : Plan)
      (found : find_plan plan_id tenant_id db ≡ some p)
      (missed : skus_there p.plan_fus ≡ false → (d : Db) → E (Error.plain sku_deleted) d) where
    rows_outcome :
        (fus : List PlanFu)
        → p.plan_fus ≡ fus
        → fus ≢ []
        → Ends
            (λ _ db'. Recalculated p db' × (db'.tactics ≡ db.tactics))
            E
            (recalculate_rows c plan_id tenant_id (tenant_tactics tenant_id db) fus db)
    unfolding recalculate_rows find_by_id totalled
    rows_outcome fus rows some_there =
        let tactics = tenant_tactics tenant_id db in
        let keep : Plan → Plan =
          λ p. record p { plan_fus = each (recalculated_fu c tactics) fus } in
        let here = find-with_plan plan_id tenant_id keep (λ p. (refl, refl, refl)) db found in
        let d = with_plan plan_id tenant_id keep db in
        let total = totalled c (each (fu_results c tactics) fus) (keep p).plan_fus in
        or_throw_found _ _ _ _ (keep p) here (
          rw (update_plan_lem plan_id tenant_id total (λ p. (refl, refl, refl)) d here) (
            returns (
              (
                total (keep p),
                find-with_plan plan_id tenant_id total (λ p. (refl, refl, refl)) d here,
                inr (
                  (λ none_there. some_there (sym rows ∙ none_there)),
                  ap (λ r. recalculated c tactics (record p { plan_fus = r })) (sym rows),
                ),
              ),
              refl,
            )))

    recalculate_fus_outcome :
        (fus : List PlanFu)
        → p.plan_fus ≡ fus
        → Ends
            (λ _ db'. Recalculated p db' × (db'.tactics ≡ db.tactics))
            E
            (recalculate_fus c plan_id tenant_id fus db)
    unfolding recalculate_fus stop_at_missing
    recalculate_fus_outcome [] none_there = returns ((p, found, inl (none_there, refl)), refl)
    recalculate_fus_outcome (fu ∷ fus) rows = elim (Bool-cases (skus_there (fu ∷ fus))) [
      | inl there ↦ rw there (rows_outcome (fu ∷ fus) rows (λ none_there. cc))
      | inr missing ↦ rw missing (throws (missed (rw rows missing) _))
    ]

    -- It goes through where all SKUs are loaded.
    pub recalculate_outcome :
        Ends
          (λ _ db'. Recalculated p db' × (db'.tactics ≡ db.tactics))
          E
          (recalculate c plan_id tenant_id db)
    unfolding recalculate find_by_id
    recalculate_outcome = or_throw_found _ _ _ _ p found (recalculate_fus_outcome p.plan_fus refl)

  again :
      (p : Plan) (d1 d2 : Db) (p1 : Plan)
      → d2.tactics ≡ d1.tactics
      → find_plan plan_id tenant_id d1 ≡ some p1
      → ((p.plan_fus ≡ []) × (p1 ≡ p))
        ⊎ ((p.plan_fus ≢ []) × (p1 ≡ recalculated c (tenant_tactics tenant_id d1) p))
      → Recalculated p1 d2
      → find_plan plan_id tenant_id d2 ≡ find_plan plan_id tenant_id d1
  again p d1 d2 p1 same found first (p2, found', inl (none_there, unchanged)) =
      found' ∙ ap some unchanged ∙ sym found
  again p d1 d2 p1 same found (inl (none_there, unchanged)) (p2, found', inr (some_there, row)) =
      absurd (some_there (ap (λ x. x.plan_fus) unchanged ∙ none_there))
  again p d1 d2 p1 same found (inr (some_there, first)) (p2, found', inr (_, second)) =
      let tactics = tenant_tactics tenant_id d1 in
      let stay : recalculated c (tenant_tactics tenant_id d2) p1 ≡ recalculated c tactics p1 =
        ap (λ ts. recalculated c (tenant_tactics tenant_id (record d1 { tactics = ts })) p1) same in
      found'
      ∙ ap some (
          second
          ∙ stay
          ∙ ap (recalculated c tactics) first
          ∙ recalculated_again c tactics p
          ∙ sym first)
      ∙ sym found

  row_there :
      (p p1 : Plan) (tactics : List Tactic)
      → ((p.plan_fus ≡ []) × (p1 ≡ p)) ⊎ ((p.plan_fus ≢ []) × (p1 ≡ recalculated c tactics p))
      → skus_there p1.plan_fus ≡ skus_there p.plan_fus
  unfolding totalled recalculated_fu recalculated_sku
  row_there p p1 tactics (inl (_, same)) = ap (λ x. skus_there x.plan_fus) same
  row_there p p1 tactics (inr (_, same)) =
      ap (λ x. skus_there x.plan_fus) same
      ∙ every-each fu_there (recalculated_fu c tactics) p.plan_fus
          (λ fu. every-each (λ s. s.sku_there) (recalculated_sku c _ _) fu.plan_skus (λ s. refl))

  -- A recalculation keeps which SKUs are loaded.
  pub Recalculated-there :
      (p : Plan) (db : Db) (p' : Plan)
      → ((p.plan_fus ≡ []) × (p' ≡ p))
        ⊎ ((p.plan_fus ≢ []) × (p' ≡ recalculated c (tenant_tactics tenant_id db) p))
      → skus_there p.plan_fus ≡ true
      → skus_there p'.plan_fus ≡ true
  Recalculated-there p db p' row there = row_there p p' (tenant_tactics tenant_id db) row ∙ there

  -- A recalculation of a plan that is there and whose SKUs are all loaded returns, and a second
  -- one right after it returns as well and leaves the plan as the first has left it.
  pub recalculate_again :
      (db : Db) (p : Plan)
      → find_plan plan_id tenant_id db ≡ some p
      → skus_there p.plan_fus ≡ true
      → Ends
          (λ _ db1.
            Ends
              (λ _ db2. find_plan plan_id tenant_id db2 ≡ find_plan plan_id tenant_id db1)
              (λ e db2. ⊥)
              (recalculate c plan_id tenant_id db1))
          (λ e db1. ⊥)
          (recalculate c plan_id tenant_id db)
  recalculate_again db p found there =
      weaken
        (λ _ d1 ((p1, found', row), same).
          weaken (λ _ d2 (left, same'). again p d1 d2 p1 same' found' row left) (λ e d never. never)
            (recalculate_outcome d1 p1 found'
              (λ missing d. true≢false (sym (Recalculated-there p d1 p1 row there) ∙ missing))))
        (λ e d never. never)
        (recalculate_outcome db p found (λ missing d. true≢false (sym there ∙ missing)))
