-- ===== src/Kpi/Aggregate.antt =====
-- The aggregation of values and the status of a value in kpi-engine.service.ts.
use collmind_backend.Base.{
  ℕ, Bool, true, false, ◌||◌, Option, none, some, List, [], ◌∷◌, if◌then◌else◌, length,
}
use collmind_backend.Kpi.Rows.{AggregationMethod}

-- The floating-point operations that the engine uses; `over` divides by a count.
pub record Numbers (V : Type 0) : Type 0 where
  pub zero : V
  pub plus : V → V → V
  pub over : V → ℕ → V
  pub smaller : V → V → V
  pub larger : V → V → V
  pub at_least : V → V → Bool

pub data Rag : Type 0 where
  red amber green : Rag

-- `x ?? null`, which makes no difference between null and undefined.
abbrev pub flat {ℓ} : {A : Type ℓ} → Option (Option A) → Option A
flat none = none
flat (some o) = o

abbrev pub values {ℓ} : {A : Type ℓ} → List (Option A) → List A
values [] = []
values (none ∷ os) = values os
values (some a ∷ os) = a ∷ values os

abbrev pub each {ℓ κ} : {A : Type ℓ} {B : Type κ} → (A → B) → List A → List B
each f [] = []
each f (x ∷ xs) = f x ∷ each f xs

-- `includes('RED')`, `includes('AMBER')`, and otherwise green where there is any status.
abbrev pub is_red : Rag → Bool
is_red Rag.red = true
is_red _ = false

abbrev pub is_amber : Rag → Bool
is_amber Rag.amber = true
is_amber _ = false

abbrev pub includes_rag : (Rag → Bool) → List Rag → Bool
includes_rag p [] = false
includes_rag p (r ∷ rs) = p r || includes_rag p rs

abbrev pub any_green : List Rag → Option Rag
any_green [] = none
any_green (r ∷ rs) = some Rag.green

unfoldable pub worst : List Rag → Option Rag
worst rs =
    if includes_rag is_red rs
    then some Rag.red
    else if includes_rag is_amber rs
    then some Rag.amber
    else any_green rs

module _ {V : Type 0} (n : Numbers V) where
  abbrev reaches : V → Option V → Bool
  reaches v none = false
  reaches v (some threshold) = n.at_least v threshold

  -- `determineRagStatus`.
  unfoldable pub determine_rag_status : V → Option V → Option V → Rag
  determine_rag_status v good fair =
      if reaches v good then Rag.green else if reaches v fair then Rag.amber else Rag.red

  -- A status where the KPI has a green threshold and the value is not null.
  abbrev pub rag_of : Option V → Option V → Option V → Option Rag
  rag_of none fair value = none
  rag_of (some good) fair none = none
  rag_of (some good) fair (some v) = some (determine_rag_status v (some good) fair)

  abbrev sum : List V → V → V
  sum [] acc = acc
  sum (v ∷ vs) acc = sum vs (n.plus acc v)

  abbrev least : V → List V → V
  least v [] = v
  least v (w ∷ vs) = least (n.smaller v w) vs

  abbrev greatest : V → List V → V
  greatest v [] = v
  greatest v (w ∷ vs) = greatest (n.larger v w) vs

  abbrev pub by_method : AggregationMethod → V → List V → V
  by_method AggregationMethod.sum v vs = sum (v ∷ vs) n.zero
  by_method AggregationMethod.avg v vs = n.over (sum (v ∷ vs) n.zero) (length (v ∷ vs))
  by_method AggregationMethod.min v vs = least v vs
  by_method AggregationMethod.max v vs = greatest v vs
  by_method AggregationMethod.weighted_avg v vs = n.over (sum (v ∷ vs) n.zero) (length (v ∷ vs))

  -- `aggregate`.
  unfoldable pub aggregate : List V → AggregationMethod → Option V
  aggregate [] method = none
  aggregate (v ∷ vs) method = some (by_method method v vs)

abbrev pub or_sum : Option AggregationMethod → AggregationMethod
or_sum none = AggregationMethod.sum
or_sum (some m) = m
