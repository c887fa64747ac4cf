-- ===== src/Plans/Repository/Rows/Present.antt =====
-- The rows that a write to the FUs leaves in place.
use collmind_backend.Base.{
  every, ◌&&◌, false, select, ◌++◌, ◌≡◌, refl, ap, Uuid, Bool, true, ◌||◌, Option, none, some, List,
  [], ◌∷◌, ◌==◌, find, exists, update_where, find-update_where, arith, ==_refl,
}
use collmind_backend.Entities.Plan.{Plan, PlanFu, PlanSku}
use collmind_backend.Db.{Db, ok, throw_if}
use collmind_backend.Kpi.Aggregate.{each}
use collmind_backend.Plans.Repository.{find_plan, is_live_plan}
use collmind_backend.Plans.Repository.Rows.{
  with_fus, over_fus, over_fu, over_sku, over_skus, in_plan, fu_of, find_plan_fu, update_plan_fu,
  sku_of_fus, sku_of_plans, find_plan_sku, update_plan_sku,
}

module _ {ℓ} {A : Type ℓ} (q : A → Bool) where
  find-each :
      (f : A → A) (xs : List A) {x : A}
      → ((y : A) → q (f y) ≡ q y)
      → find q xs ≡ some x
      → find q (each f xs) ≡ some (f x)
  find-each f [] keeps h = cc
  find-each f (y ∷ xs) keeps h = grind (arith, keeps y, find-each f xs keeps)

  exists_of_find :
      (p : A → Bool) (xs : List A) {x : A} → find p xs ≡ some x → q x ≡ true → exists q xs ≡ true
  exists_of_find p [] h here = cc
  exists_of_find p (y ∷ xs) h here = grind (arith, exists_of_find p xs)

  exists-each :
      (f : A → A) (xs : List A) → ((y : A) → q (f y) ≡ q y) → exists q (each f xs) ≡ exists q xs
  exists-each f [] keeps = refl
  exists-each f (y ∷ xs) keeps = rw (keeps y) (ap (λ b. q y || b) (exists-each f xs keeps))

  exists-update_where :
      (p : A → Bool) (f : A → A) (xs : List A)
      → ((y : A) → q (f y) ≡ q y)
      → exists q (update_where p f xs) ≡ exists q xs
  exists-update_where p f [] keeps = refl
  exists-update_where p f (y ∷ xs) keeps = ground (arith, keeps y, exists-update_where p f xs keeps)

  pub every-each :
      (f : A → A) (xs : List A) → ((y : A) → q (f y) ≡ q y) → every q (each f xs) ≡ every q xs
  every-each f [] keeps = refl
  every-each f (y ∷ xs) keeps = rw (keeps y) (ap (λ b. q y && b) (every-each f xs keeps))

  pub every-update_where :
      (p : A → Bool) (f : A → A) (xs : List A)
      → ((y : A) → q (f y) ≡ q y)
      → every q (update_where p f xs) ≡ every q xs
  every-update_where p f [] keeps = refl
  every-update_where p f (y ∷ xs) keeps = ground (arith, keeps y, every-update_where p f xs keeps)

  pub every-append_one : (xs : List A) (y : A) → q y ≡ true → every q (xs ++ (y ∷ [])) ≡ every q xs
  every-append_one [] y h = rw h refl
  every-append_one (x ∷ xs) y h = ap (λ b. q x && b) (every-append_one xs y h)

  -- A selection of rows that fails a test is one of rows that fail it.
  pub every-select :
      (p : A → Bool) (xs : List A) → every q (select p xs) ≡ false → every q xs ≡ false
  every-select p [] h = h
  every-select p (x ∷ xs) h = ground (arith, every-select p xs)

module _ (id tenant_id : Uuid) (change : List PlanFu → List PlanFu) where
  -- A plan is found with its changed FUs.
  pub find-over_fus :
      (db : Db) {p : Plan}
      → find_plan id tenant_id db ≡ some p
      → find_plan id tenant_id (over_fus change db) ≡ some (with_fus change p)
  unfolding find_plan
  find-over_fus db h =
      find-each (is_live_plan id tenant_id) (with_fus change) db.plans (λ p. refl) h

  pub find-in_plan :
      (db : Db) {p : Plan}
      → find_plan id tenant_id db ≡ some p
      → find_plan id tenant_id (in_plan id change db) ≡ some (with_fus change p)
  unfolding find_plan
  find-in_plan db h =
      find-update_where (λ p. p.id == id) (is_live_plan id tenant_id) (with_fus change) db.plans
        (λ p live. ground arith) (λ p. refl) h

fu_in :
    (plans : List Plan) (q : Plan → Bool) (fu_id : Uuid) (o : Option Plan) {fu : PlanFu}
    → find q plans ≡ o
    → fu_of fu_id o ≡ some fu
    → exists (λ p. exists (λ g. g.id == fu.id) p.plan_fus) plans ≡ true
fu_in plans q fu_id none found h = cc
fu_in plans q fu_id (some p) {fu} found h =
    exists_of_find (λ p. exists (λ g. g.id == fu.id) p.plan_fus) q plans found
      (exists_of_find (λ g. g.id == fu.id) (λ g. g.fu_id == fu_id) p.plan_fus h (==_refl fu.id))

-- An FU that was found is there by its id.
fu_there :
    (plan_id fu_id : Uuid) (db : Db) {fu : PlanFu}
    → find_plan_fu plan_id fu_id db ≡ some fu
    → exists (λ p. exists (λ g. g.id == fu.id) p.plan_fus) db.plans ≡ true
unfolding find_plan_fu
fu_there plan_id fu_id db h =
    fu_in db.plans (λ p. p.id == plan_id) fu_id (find (λ p. p.id == plan_id) db.plans) refl h

pub update_plan_fu_lem :
    (plan_id fu_id : Uuid) (change : PlanFu → PlanFu) (db : Db) {fu : PlanFu}
    → ((g : PlanFu) → (change g).id ≡ g.id)
    → find_plan_fu plan_id fu_id db ≡ some fu
    → update_plan_fu fu.id change db ≡ (ok tt, over_fu fu.id change db)
unfolding update_plan_fu throw_if
update_plan_fu_lem plan_id fu_id change db {fu} keeps h =
    rw
      (exists-each (λ p. exists (λ g. g.id == fu.id) p.plan_fus)
        (with_fus (update_where (λ g. g.id == fu.id) change)) db.plans
        (λ p.
          exists-update_where (λ g. g.id == fu.id) (λ g. g.id == fu.id) change p.plan_fus
            (λ g. rw (keeps g))))
      (rw (fu_there plan_id fu_id db h))

sku_in_fus :
    (plan_fu_id sku_id : Uuid) (fus : List PlanFu) {s : PlanSku}
    → sku_of_fus plan_fu_id sku_id fus ≡ some s
    → exists (λ fu. exists (λ t. t.id == s.id) fu.plan_skus) fus ≡ true
unfolding sku_of_fus
sku_in_fus plan_fu_id sku_id [] h = cc
sku_in_fus plan_fu_id sku_id (fu ∷ fus) {s} h = grind (
  arith,
  sku_in_fus plan_fu_id sku_id fus,
  ==_refl s.id,
  exists_of_find (λ t. t.id == s.id) (λ t. t.sku_id == sku_id) fu.plan_skus,
)

sku_in_plans :
    (plan_fu_id sku_id : Uuid) (plans : List Plan) {s : PlanSku}
    → sku_of_plans plan_fu_id sku_id plans ≡ some s
    → exists (λ p. exists (λ fu. exists (λ t. t.id == s.id) fu.plan_skus) p.plan_fus) plans ≡ true
unfolding sku_of_plans
sku_in_plans plan_fu_id sku_id [] h = cc
sku_in_plans plan_fu_id sku_id (p ∷ plans) h =
    grind (arith, sku_in_plans plan_fu_id sku_id plans, sku_in_fus plan_fu_id sku_id p.plan_fus)

pub update_plan_sku_lem :
    (plan_fu_id sku_id : Uuid) (change : PlanSku → PlanSku) (db : Db) {s : PlanSku}
    → ((t : PlanSku) → (change t).id ≡ t.id)
    → find_plan_sku plan_fu_id sku_id db ≡ some s
    → update_plan_sku s.id change db ≡ (ok tt, over_sku s.id change db)
unfolding update_plan_sku throw_if
update_plan_sku_lem plan_fu_id sku_id change db {s} keeps h =
    let same_id : PlanSku → Bool = λ t. t.id == s.id in
    rw
      (exists-each (λ p. exists (λ fu. exists same_id fu.plan_skus) p.plan_fus)
        (with_fus (each (over_skus (update_where same_id change)))) db.plans
        (λ p.
          exists-each (λ fu. exists same_id fu.plan_skus) (over_skus (update_where same_id change))
            p.plan_fus
            (λ fu. exists-update_where same_id same_id change fu.plan_skus (λ t. rw (keeps t)))))
      (rw (sku_in_plans plan_fu_id sku_id db.plans h))
