-- ===== src/Plans/Editing/Outcome.antt =====
-- What the editing calls leave of a plan.
use collmind_backend.Base.{
  sym, ◌∙◌, ◌⊎◌, inl, inr, ◌≡◌, refl, Uuid, Text, Bool, true, false, Option, none, some, List, [],
  ◌∷◌, ◌++◌, ℤ, update_where, ◌+◌, arith, select, not, ◌==◌,
}
use collmind_backend.Entities.Plan.{Plan, PlanFu, PlanSku, PlanStatus, same_status}
use collmind_backend.Entities.Catalogue.{Catalogue, ForecastingUnit, Sku}
use collmind_backend.Db.{sku_deleted, Db, Error, query, ◌>>◌}
use collmind_backend.Db.Ends.{
  guard_passed, Ends, returns, weaken, bind_rule, or_throw_rule, or_throw_found, throw_if_rule,
}
use collmind_backend.Allocations.Service.{or_present}
use collmind_backend.Kpi.Aggregate.{each}
use collmind_backend.Plans.Repository.{find_plan}
use collmind_backend.Plans.Repository.Rows.{
  new_sku, with_fus, over_skus, add_plan_fu, remove_plan_fu, add_plan_sku, new_fu, find_plan_fu,
  find_plan_sku,
}
use collmind_backend.Plans.Repository.Rows.Present.{
  every-each, every-update_where, every-append_one, every-select, find-over_fus, find-in_plan,
  update_plan_fu_lem, update_plan_sku_lem,
}
use collmind_backend.Plans.Service.{find_by_id}
use collmind_backend.Plans.Recalculation.{skus_there, fu_there, Calculator, recalculate}
use collmind_backend.Plans.Recalculation.Outcome.{Recalculated, recalculate_outcome}
use collmind_backend.Plans.Editing.{
  find_fu, is_present, changed_sku, AddFuDto, UpdateSkuVolumeDto, add_skus, add_fu,
  update_fu_tactic, update_sku_volume, remove_fu,
}

module _ (plan_id tenant_id : Uuid) where
  -- The plan with other FUs, of which as many SKUs are loaded.
  abbrev pub HasFus : Plan → Db → Type 0
  HasFus p db =
      (fus : List PlanFu) × (find_plan plan_id tenant_id db ≡ some (record p { plan_fus = fus }))
      × (skus_there fus ≡ skus_there p.plan_fus)

  sku_added :
      (plan_fu_id id : Uuid) (sku : Sku) (fus : List PlanFu)
      → skus_there (
          update_where
            (λ g. g.id == plan_fu_id)
            (over_skus (λ skus. skus ++ (new_sku id sku ∷ [])))
            fus)
        ≡ skus_there fus
  sku_added plan_fu_id id sku fus =
      every-update_where fu_there (λ g. g.id == plan_fu_id)
        (over_skus (λ skus. skus ++ (new_sku id sku ∷ []))) fus
        (λ g. every-append_one (λ s. s.sku_there) g.plan_skus (new_sku id sku) refl)

  add_skus-HasFus :
      {E : Error → Db → Type 0} (plan_fu_id : Uuid) (skus : List Sku) (db : Db) (p : Plan)
      → HasFus p db
      → Ends (λ _ db'. HasFus p db') E (add_skus plan_fu_id skus db)
  unfolding add_skus add_plan_sku find_plan
  add_skus-HasFus plan_fu_id [] db p here = returns here
  add_skus-HasFus plan_fu_id (s ∷ skus) db p (fus, here, there) =
      add_skus-HasFus plan_fu_id skus _ p (
        _,
        find-over_fus plan_id tenant_id _ (record db { drawn = db.drawn + 1 }) here,
        sku_added plan_fu_id (db.uuids db.drawn) s fus ∙ there,
      )

still_true : (x y : Bool) → (x ≡ false → y ≡ false) → y ≡ true → x ≡ true
still_true true y less h = refl
still_true false y less h = absurd (let k = less refl in cc)

absent : {A : Type 0} (o : Option A) → is_present o ≡ false → o ≡ none
absent none h = refl
absent (some a) h = cc

module _ (c : Calculator) (plan_id tenant_id : Uuid) (db : Db) (p : Plan) where
  -- What an editing call ends with: it was a draft, and it is the recalculation of the draft with
  -- its FUs changed, all SKUs loaded if they were before.
  abbrev pub Edited : (List PlanFu → List PlanFu) → Db → Type 0
  Edited change db' =
      (same_status p.status PlanStatus.draft ≡ true)
      × Recalculated c plan_id tenant_id (with_fus change p) db'
      × (skus_there p.plan_fus ≡ true → skus_there (change p.plan_fus) ≡ true)

  -- A call that throws has changed nothing, or it has met a SKU of the plan that is not loaded.
  abbrev pub Refused : Error → Db → Type 0
  Refused e db' = (db' ≡ db) ⊎ ((e ≡ Error.plain sku_deleted) × (skus_there p.plan_fus ≡ false))

  recalculate-Edited :
      {A : Type 0} (k : Db → A) (change : List PlanFu → List PlanFu) (d : Db)
      → same_status p.status PlanStatus.draft ≡ true
      → find_plan plan_id tenant_id d ≡ some (with_fus change p)
      → (skus_there (change p.plan_fus) ≡ false → skus_there p.plan_fus ≡ false)
      → Ends (λ _ db'. Edited change db') Refused ((recalculate c plan_id tenant_id >> query k) d)
  recalculate-Edited k change d draft here less = bind_rule _ (
      weaken (λ _ d' (left, _). returns (draft, left, still_true _ _ less)) (λ e d' r. r)
        (recalculate_outcome c plan_id tenant_id d (with_fus change p) here
          (λ missing d'. inr (refl, less missing))))

  same_skus :
      (dto : UpdateSkuVolumeDto) (read : PlanSku) (fus : List PlanFu)
      → skus_there
          (each (over_skus (update_where (λ t. t.id == read.id) (changed_sku dto read))) fus)
        ≡ skus_there fus
  unfolding changed_sku
  same_skus dto read fus =
      every-each fu_there (over_skus (update_where (λ t. t.id == read.id) (changed_sku dto read)))
        fus
        (λ g.
          every-update_where (λ t. t.sku_there) (λ t. t.id == read.id) (changed_sku dto read)
            g.plan_skus (λ t. refl))

  module _ (found : find_plan plan_id tenant_id db ≡ some p) where
    fewer :
        (fu : PlanFu)
        → skus_there (select (λ g. not (g.id == fu.id)) p.plan_fus) ≡ false
        → skus_there p.plan_fus ≡ false
    fewer fu = every-select fu_there (λ g. not (g.id == fu.id)) p.plan_fus

    -- A removal throws and changes nothing, or the plan was a draft, and left is the recalculation
    -- of the plan without the FU. Only where a SKU of the plan is not loaded can it throw with
    -- something written.
    pub remove_fu_outcome :
        (fu_id : Uuid)
        → Ends
            (λ _ db'.
              (fu : PlanFu) × (find_plan_fu plan_id fu_id db ≡ some fu)
              × Edited (select (λ g. not (g.id == fu.id))) db')
            Refused
            (remove_fu c plan_id fu_id tenant_id db)
    unfolding remove_fu find_by_id remove_plan_fu
    remove_fu_outcome fu_id = or_throw_found _ _ _ _ p found (
        throw_if_rule _ _ _ _ (λ other. inl refl)
          λ draft.
            or_throw_rule _ _ _ _ (λ missing. inl refl)
              λ fu there.
                weaken
                  (λ _ d' (left, _).
                    (fu, there, (guard_passed _ draft, left, still_true _ _ (fewer fu))))
                  (λ e d' r. r)
                  (recalculate_outcome c plan_id tenant_id _ _
                    (find-over_fus plan_id tenant_id (select (λ g. not (g.id == fu.id))) db found)
                    (λ lost d'. inr (refl, fewer fu lost))))

    -- A change of the tactics of an FU throws and changes nothing, or the plan was a draft, and left
    -- is the recalculation of the plan with the tactics of the FU replaced, if the request has any.
    -- Only where a SKU of the plan is not loaded can it throw with something written.
    pub update_fu_tactic_outcome :
        (fu_id : Uuid) (tactics : Option (List (Text × ℤ)))
        → Ends
            (λ _ db'.
              (fu : PlanFu) × (find_plan_fu plan_id fu_id db ≡ some fu)
              × Edited
                  (update_where
                    (λ g. g.id == fu.id)
                    (λ g. record g { tactics = or_present tactics fu.tactics }))
                  db')
            Refused
            (update_fu_tactic c plan_id fu_id tactics tenant_id db)
    unfolding update_fu_tactic find_by_id
    update_fu_tactic_outcome fu_id tactics = or_throw_found _ _ _ _ p found (
        throw_if_rule _ _ _ _ (λ other. inl refl)
          λ draft.
            or_throw_rule _ _ _ _ (λ missing. inl refl)
              λ fu there.
                let change : PlanFu → PlanFu =
                  λ g. record g { tactics = or_present tactics fu.tactics } in
                rw (update_plan_fu_lem plan_id fu_id change db (λ g. refl) there) (
                  weaken (λ _ d' left. (fu, there, left)) (λ e d' r. r)
                    (recalculate-Edited (find_plan_fu plan_id fu_id)
                      (update_where (λ g. g.id == fu.id) change) _ (guard_passed _ draft)
                      (find-over_fus plan_id tenant_id (update_where (λ g. g.id == fu.id) change) db
                        found)
                      (λ lost.
                        sym (
                          every-update_where fu_there (λ g. g.id == fu.id) change p.plan_fus
                            (λ g. refl))
                        ∙ lost))))

    -- A change of the volumes of a SKU throws and changes nothing, or the plan was a draft, and left
    -- is the recalculation of the plan with the volumes of the SKU replaced. Only where a SKU of the
    -- plan is not loaded, as it was deleted softly, can it throw with something written, and then by
    -- the error of the recalculation.
    pub update_sku_volume_outcome :
        (fu_id sku_id : Uuid) (dto : UpdateSkuVolumeDto)
        → Ends
            (λ _ db'.
              (fu : PlanFu) × (s : PlanSku) × (find_plan_fu plan_id fu_id db ≡ some fu)
              × (find_plan_sku fu.id sku_id db ≡ some s)
              × Edited
                  (each (over_skus (update_where (λ t. t.id == s.id) (changed_sku dto s))))
                  db')
            Refused
            (update_sku_volume c plan_id fu_id sku_id dto tenant_id db)
    unfolding update_sku_volume find_by_id changed_sku
    update_sku_volume_outcome fu_id sku_id dto = or_throw_found _ _ _ _ p found (
        throw_if_rule _ _ _ _ (λ other. inl refl)
          λ draft.
            or_throw_rule _ _ _ _ (λ missing. inl refl)
              λ fu there.
                or_throw_rule _ _ _ _ (λ missing. inl refl)
                  λ s here.
                    let change =
                      each (over_skus (update_where (λ t. t.id == s.id) (changed_sku dto s))) in
                    rw (update_plan_sku_lem fu.id sku_id (changed_sku dto s) db (λ t. refl) here) (
                      weaken (λ _ d' left. (fu, s, there, here, left)) (λ e d' r. r)
                        (recalculate-Edited (find_plan_sku fu.id sku_id) change _
                          (guard_passed _ draft) (find-over_fus plan_id tenant_id change db found)
                          (λ lost. sym (same_skus dto s p.plan_fus) ∙ lost))))

    -- An addition of an FU throws and changes nothing, or the plan was a draft without that FU, the
    -- FU is plannable, and left is the recalculation of a plan that differs in its FUs alone. Only
    -- where a SKU of the plan is not loaded can it throw with something written.
    pub add_fu_outcome :
        (catalogue : Catalogue) (dto : AddFuDto)
        → Ends
            (λ _ db'.
              (find_plan_fu plan_id dto.fu_id db ≡ none)
              × ((unit : ForecastingUnit) × (find_fu dto.fu_id tenant_id catalogue.units
                    ≡ some unit)
                  × (unit.is_plannable ≡ true))
              × ((fus : List PlanFu) × Edited (λ _. fus) db'))
            Refused
            (add_fu c catalogue plan_id dto tenant_id db)
    unfolding add_fu find_by_id add_plan_fu find_plan
    add_fu_outcome catalogue dto = or_throw_found _ _ _ _ p found (
        throw_if_rule _ _ _ _ (λ other. inl refl)
          λ draft.
            or_throw_rule _ _ _ _ (λ missing. inl refl)
              λ unit known.
                throw_if_rule _ _ _ _ (λ refused. inl refl)
                  λ plannable.
                    throw_if_rule _ _ _ _ (λ twice. inl refl)
                      λ fresh. bind_rule _ (
                        weaken
                          (λ _ d (fus, here, there).
                            weaken
                              (λ _ d' left.
                                (absent _ fresh, (unit, known, ground arith), (fus, left)))
                              (λ e d' r. r)
                              (recalculate-Edited (find_plan_fu plan_id dto.fu_id) (λ _. fus) d
                                (guard_passed _ draft) here (λ lost. sym there ∙ lost)))
                          (λ e d r. r)
                          (add_skus-HasFus plan_id tenant_id (db.uuids db.drawn) _ _ p (
                            _,
                            find-in_plan plan_id tenant_id
                                (λ fus.
                                  fus ++ (new_fu (db.uuids db.drawn) dto.fu_id dto.tactics ∷ []))
                                (record db { drawn = db.drawn + 1 }) found,
                            every-append_one fu_there p.plan_fus
                                (new_fu (db.uuids db.drawn) dto.fu_id dto.tactics) refl,
                          ))))
