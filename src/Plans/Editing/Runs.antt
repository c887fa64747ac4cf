-- ===== src/Plans/Editing/Runs.antt =====
-- Sequences of editing calls on one plan.
use collmind_backend.Base.{
  ◌≢◌, sym, ap, ◌∙◌, Bool, true, false, none, ◌≡◌, refl, ℕ, Uuid, Text, Option, some, List, [], ◌⊎◌,
  inl, inr, ℤ,
}
use collmind_backend.Entities.Plan.{Plan}
use collmind_backend.Entities.Catalogue.{Catalogue}
use collmind_backend.Db.{sku_deleted, Db, Error, Result}
use collmind_backend.Db.Ends.{Ends, returns, throws, or_throw_found, throw_if_rule}
use collmind_backend.Plans.Repository.{find_plan, find-with_plan, update_plan_lem}
use collmind_backend.Plans.Service.{find_by_id}
use collmind_backend.Plans.Recalculation.{Calculator, skus_there}
use collmind_backend.Plans.Recalculation.Totals.{Settled}
use collmind_backend.Plans.Recalculation.Outcome.{
  Recalculated, Recalculated→Leaves, Recalculated-there,
}
use collmind_backend.Plans.Editing.{
  UpdatePlanDto, AddFuDto, UpdateSkuVolumeDto, changed_plan, update, add_fu, update_fu_tactic,
  update_sku_volume, remove_fu,
}
use collmind_backend.Plans.Editing.Outcome.{
  add_fu_outcome, update_fu_tactic_outcome, update_sku_volume_outcome, remove_fu_outcome,
}

true≢false : true ≢ false
true≢false e = cc

there_in : Option Plan → Bool
there_in none = false
there_in (some p) = skus_there p.plan_fus

module _ (c : Calculator) (catalogue : Catalogue) (month_of : ℕ → Text)
    (plan_id tenant_id : Uuid) where
  -- Calls on the plan, one after the other, whether they return or throw.
  pub data Run : Db → Db → Type 0 where
    done : {db : Db} → Run db db
    updated :
        {db db' : Db} (dto : UpdatePlanDto) (user_id : Uuid)
        → Run (update catalogue month_of plan_id dto tenant_id user_id db).1 db'
        → Run db db'
    fu_added :
        {db db' : Db} (dto : AddFuDto)
        → Run (add_fu c catalogue plan_id dto tenant_id db).1 db'
        → Run db db'
    tactics_updated :
        {db db' : Db} (fu_id : Uuid) (tactics : Option (List (Text × ℤ)))
        → Run (update_fu_tactic c plan_id fu_id tactics tenant_id db).1 db'
        → Run db db'
    volume_updated :
        {db db' : Db} (fu_id sku_id : Uuid) (dto : UpdateSkuVolumeDto)
        → Run (update_sku_volume c plan_id fu_id sku_id dto tenant_id db).1 db'
        → Run db db'
    fu_removed :
        {db db' : Db} (fu_id : Uuid)
        → Run (remove_fu c plan_id fu_id tenant_id db).1 db'
        → Run db db'

  -- The plan is there with all its SKUs, and it has no FUs or settled totals.
  abbrev pub IsConsistent : Db → Type 0
  IsConsistent db =
      (p : Plan) × (find_plan plan_id tenant_id db ≡ some p)
      × (skus_there p.plan_fus ≡ true)
      × ((p.plan_fus ≡ []) ⊎ Settled p)

  after :
      {A : Type 0} {P : A → Db → Type 0} {E : Error → Db → Type 0} {db : Db} {r : Result A × Db}
      → IsConsistent db
      → ((a : A) (d : Db) → P a d → IsConsistent d)
      → ((e : Error) (d : Db) → E e d → d ≡ db)
      → Ends P E r
      → IsConsistent r.1
  after here f g (returns p) = f _ _ p
  after here f g (throws q) = rw (g _ _ q) here

  -- Where all SKUs are loaded, a call that throws has changed nothing.
  only_unchanged :
      (p : Plan) (db : Db) (e : Error) (d : Db)
      → skus_there p.plan_fus ≡ true
      → (d ≡ db) ⊎ ((e ≡ Error.plain sku_deleted) × (skus_there p.plan_fus ≡ false))
      → d ≡ db
  only_unchanged p db e d there (inl same) = same
  only_unchanged p db e d there (inr (_, lost)) = absurd (true≢false (sym there ∙ lost))

  recalculated-IsConsistent :
      (q : Plan) (d : Db)
      → Recalculated c plan_id tenant_id q d
      → skus_there q.plan_fus ≡ true
      → IsConsistent d
  unfolding there_in
  recalculated-IsConsistent q d (p', found, row) there =
      let (p'', found', _, settled) =
        Recalculated→Leaves c plan_id tenant_id q d (p', found, row) in
      (
        p'',
        found',
        ap there_in (sym found' ∙ found) ∙ Recalculated-there c plan_id tenant_id q d p' row there,
        settled,
      )

  changed_plan-Settled :
      (p : Plan) (dto : UpdatePlanDto) (user_id : Uuid)
      → (p.plan_fus ≡ []) ⊎ Settled p
      → let p' = changed_plan catalogue month_of dto user_id p in (p'.plan_fus ≡ []) ⊎ Settled p'
  unfolding changed_plan
  changed_plan-Settled p dto user_id (inl none_there) = inl none_there
  changed_plan-Settled p dto user_id (inr s) =
      inr (record { spend = s.spend; gp = s.gp; volume = s.volume })

  update-IsConsistent :
      (db : Db) (dto : UpdatePlanDto) (user_id : Uuid)
      → IsConsistent db
      → Ends
          (λ _ d. IsConsistent d)
          (λ e d. d ≡ db)
          (update catalogue month_of plan_id dto tenant_id user_id db)
  unfolding update find_by_id changed_plan
  update-IsConsistent db dto user_id (p, found, there, settled) =
      let change = changed_plan catalogue month_of dto user_id in
      or_throw_found _ _ _ _ p found (
        throw_if_rule _ _ _ _ (λ other. refl)
          λ draft.
            rw (update_plan_lem plan_id tenant_id change (λ q. (refl, refl, refl)) db found) (
              returns (
                change p,
                find-with_plan plan_id tenant_id change (λ q. (refl, refl, refl)) db found,
                there,
                changed_plan-Settled p dto user_id settled,
              )))

  -- A plan whose SKUs are all loaded, and which has no FUs or has the sums over the stored rows of
  -- its FUs and SKUs as its spend, gross profit and volume, is such a plan behind any sequence of
  -- editing calls on it, whether they return or throw.
  pub run-IsConsistent : {db db' : Db} → Run db db' → IsConsistent db → IsConsistent db'
  run-IsConsistent done here = here
  run-IsConsistent (updated dto user_id rest) here =
      run-IsConsistent rest
        (after here (λ _ d left. left) (λ e d same. same) (update-IsConsistent _ dto user_id here))
  run-IsConsistent (fu_added dto rest) (p, found, there, settled) = run-IsConsistent rest (
      after (p, found, there, settled)
        (λ _ d (_, _, (fus, (_, left, stay))). recalculated-IsConsistent _ d left (stay there))
        (λ e d q. only_unchanged p _ e d there q)
        (add_fu_outcome c plan_id tenant_id _ p found catalogue dto))
  run-IsConsistent (tactics_updated fu_id tactics rest) (p, found, there, settled) =
      run-IsConsistent rest (
        after (p, found, there, settled)
          (λ _ d (fu, _, (_, left, stay)). recalculated-IsConsistent _ d left (stay there))
          (λ e d q. only_unchanged p _ e d there q)
          (update_fu_tactic_outcome c plan_id tenant_id _ p found fu_id tactics))
  run-IsConsistent (volume_updated fu_id sku_id dto rest) (p, found, there, settled) =
      run-IsConsistent rest (
        after (p, found, there, settled)
          (λ _ d (fu, s, _, _, (_, left, stay)). recalculated-IsConsistent _ d left (stay there))
          (λ e d q. only_unchanged p _ e d there q)
          (update_sku_volume_outcome c plan_id tenant_id _ p found fu_id sku_id dto))
  run-IsConsistent (fu_removed fu_id rest) (p, found, there, settled) = run-IsConsistent rest (
      after (p, found, there, settled)
        (λ _ d (fu, _, (_, left, stay)). recalculated-IsConsistent _ d left (stay there))
        (λ e d q. only_unchanged p _ e d there q)
        (remove_fu_outcome c plan_id tenant_id _ p found fu_id))
