-- ===== src/Allocations/Outcome.antt =====
-- What `createAllocation` leaves behind.
use collmind_backend.Base.{
  ℕ, ◌≡◌, ◌≤◌, ◌<◌, refl, Uuid, Bool, true, false, ◌&&◌, ◌||◌, not, some, List, [], ◌∷◌, ◌==◌,
  arith, ==_refl, exists,
}
use collmind_backend.Entities.Allocation.{BudgetAllocation, same_period_type}
use collmind_backend.Db.{Db}
use collmind_backend.Db.Ends.{Ends, returns, throw_if_rule}
use collmind_backend.Allocations.Queries.{
  Scope, or_null, equal_or_null, id_equal_or_null, periods_meet, overlaps, find_allocation,
  create_log,
}
use collmind_backend.Allocations.Service.{
  CreateBudgetAllocationDto, allocation_from, create_allocation,
}

-- A live row of the tenant for the same kind of period and the same dimensions.
abbrev pub is_rival : Uuid → Scope → BudgetAllocation → Bool
is_rival tenant_id scope a =
    (a.tenant_id == tenant_id)
    && same_period_type a.period_type scope.period_type
    && (a.fiscal_year == scope.fiscal_year)
    && id_equal_or_null a.cpl_id scope.cpl_id
    && equal_or_null a.channel (or_null scope.channel)
    && equal_or_null a.category (or_null scope.category)
    && not a.deleted

-- No rival has a time in common with the period.
abbrev pub Apart : Uuid → Scope → List BudgetAllocation → Type 0
Apart tenant_id scope [] = Unit
Apart tenant_id scope (a ∷ rows) =
    (is_rival tenant_id scope a ≡ true
      → (time : ℕ) → a.period_start ≤ time
      → time ≤ a.period_end
      → scope.period_start ≤ time
      → scope.period_end < time)
    × Apart tenant_id scope rows

none_of : (a b : Bool) → (a || b) ≡ false → (a ≡ false) × (b ≡ false)
none_of a b h = ground arith

-- The three tests of the query find each common time.
apart_row :
    (tenant_id : Uuid) (scope : Scope) (a : BudgetAllocation)
    → overlaps tenant_id scope a ≡ false
    → is_rival tenant_id scope a ≡ true
    → periods_meet scope.period_start scope.period_end a ≡ false
apart_row tenant_id scope a clear rival = ground arith

no_common_time :
    (start end time : ℕ) (a : BudgetAllocation)
    → periods_meet start end a ≡ false
    → a.period_start ≤ time
    → time ≤ a.period_end
    → start ≤ time
    → end < time
no_common_time start end time a clear h k l = ground arith

Apart-of_none :
    (tenant_id : Uuid) (scope : Scope) (rows : List BudgetAllocation)
    → exists (overlaps tenant_id scope) rows ≡ false
    → Apart tenant_id scope rows
Apart-of_none tenant_id scope [] h = tt
Apart-of_none tenant_id scope (a ∷ rows) h =
    let (clear, rest) = none_of (overlaps tenant_id scope a) _ h in
    (
      λ rival time.
          no_common_time scope.period_start scope.period_end time a
            (apart_row tenant_id scope a clear rival),
      Apart-of_none tenant_id scope rows rest,
    )

module _ (tenant_id user_id : Uuid) where
  -- `createAllocation` returns a new row with the budget of the request, which its tenant finds
  -- under its id, and for a period that ends after it starts and has no time in common with a live
  -- allocation for the same kind of period, fiscal year and dimensions; or it throws and changes
  -- nothing.
  pub create_allocation_outcome :
      (dto : CreateBudgetAllocationDto) (db : Db)
      → Ends
          (λ a db'.
            (a ≡ allocation_from tenant_id user_id dto (db.uuids db.drawn))
            × (find_allocation tenant_id a.id db' ≡ some a)
            × (a.period_start < a.period_end)
            × Apart tenant_id dto.scope db.allocations)
          (λ e db'. db' ≡ db)
          (create_allocation tenant_id user_id dto db)
  unfolding create_allocation create_log find_allocation
  create_allocation_outcome dto db =
      throw_if_rule _ _ _ _ (λ _. refl)
        λ _.
          throw_if_rule _ _ _ _ (λ _. refl)
            λ ends_later.
              throw_if_rule _ _ _ _ (λ _. refl)
                λ none_meets.
                  throw_if_rule _ _ _ _ (λ _. refl)
                    λ _. returns (
                      refl,
                      rw (==_refl tenant_id) (rw (==_refl (db.uuids db.drawn)) refl),
                      ground arith,
                      Apart-of_none tenant_id dto.scope db.allocations none_meets,
                    )
