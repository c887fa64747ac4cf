-- ===== src/Plans/Submission/Frame.antt =====
-- The plans and the requests across the calls that reserve and release a plan's budget.
use mathlib.Core.Path.{subst, sym}
use collmind_backend.Base.{
  ◌≡◌, refl, Bool, true, false, some, Uuid, ℤ, pos, ltb_ℤ, arith, find_sound, codes,
}
use collmind_backend.Entities.Plan.{Plan}
use collmind_backend.Db.{proceed, Db, Error, Result, Action, when, return, ◌>>◌}
use collmind_backend.Db.Ends.{Ends, returns, throws, weaken, bind_rule}
use collmind_backend.Budget.Service.Frame.{Frame-refl, Frame-trans, Framed, reserve_for_plan-Frame}
use collmind_backend.Budget.Repository.{Comparison}
use collmind_backend.Budget.Service.{reserve_for_plan}
use collmind_backend.Plans.Repository.{
  find_plan, with_plan, update_plan, KeepsPlan, update_plan_lem, find-with_plan,
}
use collmind_backend.Plans.Submission.{reserve_side, reserve_sides, recover, channel_code}

-- A plan is read from its table alone.
pub find_plan-same :
    (id tenant_id : Uuid) (db db' : Db)
    → db'.plans ≡ db.plans
    → find_plan id tenant_id db' ≡ find_plan id tenant_id db
unfolding find_plan
find_plan-same id tenant_id db db' same = rw same refl

pub found_id :
    (id tenant_id : Uuid) (db : Db) {p : Plan} → find_plan id tenant_id db ≡ some p → p.id ≡ id
unfolding find_plan
found_id id tenant_id db h = ground (arith, find_sound _ db.plans h)

pub found_self :
    (id tenant_id : Uuid) (db : Db) {p : Plan}
    → find_plan id tenant_id db ≡ some p
    → find_plan p.id tenant_id db ≡ some p
found_self id tenant_id db {p} h =
    subst (λ i. find_plan i tenant_id db ≡ some p) (sym (found_id id tenant_id db h)) h

pub when_rule :
    {P : Unit {0} → Db → Type 0} {E : Error → Db → Type 0} (m : Action (Unit {0})) (db : Db)
    (b : Bool)
    → P tt db
    → Ends P E (m db)
    → Ends P E (when b m db)
when_rule m db true skipped done = done
when_rule m db false skipped done = returns skipped

pub recover_rule :
    {A : Type 0} {P : A → Db → Type 0} {E : Error → Db → Type 0} (handler : Error → Action A)
    {r : Result A × Db}
    → Ends P (λ e db'. Ends P E (handler e db')) r
    → Ends P E (recover handler r)
recover_rule handler (returns p) = returns p
recover_rule handler (throws q) = q

pub reserve_side-Frame :
    (at_most : Comparison) (p : Plan) (tenant_id user_id : Uuid) (amount : ℤ) (db : Db)
    → Framed db (reserve_side at_most p tenant_id user_id amount db)
unfolding reserve_side
reserve_side-Frame at_most p tenant_id user_id amount db =
    let reserve =
      reserve_for_plan at_most p.id amount (channel_code p) p.period_month (codes "TRY") tenant_id
        user_id in
    when_rule (reserve >> return tt) db (ltb_ℤ (pos 0) amount) (Frame-refl db) (
      bind_rule (λ _. return tt)
        (weaken (λ _ db' f. returns f) (λ _ db' f. f)
          (reserve_for_plan-Frame at_most p.id amount (channel_code p) p.period_month (codes "TRY")
            tenant_id user_id db)))

pub reserve_sides-Frame :
    (at_most : Comparison) (p : Plan) (tenant_id user_id : Uuid) (on off : ℤ) (db : Db)
    → Framed db (reserve_sides at_most p tenant_id user_id (on, off) db)
unfolding reserve_sides
reserve_sides-Frame at_most p tenant_id user_id on off db = bind_rule _ (
    weaken
      (λ _ db' f.
        weaken (λ _ db'' g. Frame-trans f g) (λ _ db'' g. Frame-trans f g)
          (reserve_side-Frame at_most p tenant_id user_id off db'))
      (λ _ db' f. f) (reserve_side-Frame at_most p tenant_id user_id on db))

-- A step of a `do` block that updates a plan that is there.
pub update_plan_rule :
    {B : Type 0} {P : B → Db → Type 0} {E : Error → Db → Type 0} (f : Plan → Action B)
    (id tenant_id : Uuid) (change : Plan → Plan) (db : Db) (p : Plan)
    → KeepsPlan change
    → find_plan id tenant_id db ≡ some p
    → (find_plan id tenant_id (with_plan id tenant_id change db) ≡ some (change p)
        → Ends P E (f (change p) (with_plan id tenant_id change db)))
    → Ends P E (proceed f (update_plan id tenant_id change db))
update_plan_rule f id tenant_id change db p keeps found next =
    rw (update_plan_lem id tenant_id change keeps db found)
      (next (find-with_plan id tenant_id change keeps db found))
