-- ===== src/Db/Ends.antt =====
-- How a call ends, and a rule for each step of a `do` block.
use mathlib.Core.Path.{subst}
use collmind_backend.Base.{◌≡◌, refl, Bool, true, false, not, Option, none, some}
use collmind_backend.Db.{
  Db, Error, Reason, message, Result, ok, err, Action, proceed, or_throw, throw_if, rethrow,
  try_wrap,
}

-- The call returned a value with `P` of it and of the database left behind, or threw an error
-- with `E` of it and of that database.
pub data Ends {A : Type 0} (P : A → Db → Type 0) (E : Error → Db → Type 0)
    : Result A × Db → Type 0 where
  returns : {a : A} {db : Db} → P a db → Ends P E (ok a, db)
  throws : {e : Error} {db : Db} → E e db → Ends P E (err e, db)

-- The same as a statement that computes at a result.
abbrev pub Outcome :
    {A : Type 0} → (A → Db → Type 0) → (Error → Db → Type 0) → Result A × Db → Type 0
Outcome P E (ok a, db) = P a db
Outcome P E (err e, db) = E e db

module _ {A : Type 0} {P : A → Db → Type 0} {E : Error → Db → Type 0} where
  pub outcome : {r : Result A × Db} → Ends P E r → Outcome P E r
  outcome (returns p) = p
  outcome (throws q) = q

  pub of_Outcome : (r : Result A × Db) → Outcome P E r → Ends P E r
  of_Outcome (ok a, db) p = returns p
  of_Outcome (err e, db) q = throws q

module _ {A : Type 0} {B : Type 0} {P : B → Db → Type 0} {E : Error → Db → Type 0} where
  pub bind_rule :
      (f : A → Action B) {r : Result A × Db}
      → Ends (λ a db'. Ends P E (f a db')) E r
      → Ends P E (proceed f r)
  bind_rule f (returns p) = p
  bind_rule f (throws q) = throws q

  pub or_throw_rule :
      (f : A → Action B) (e : Error) (o : Option A) (db : Db)
      → (o ≡ none → E e db)
      → ((a : A) → o ≡ some a → Ends P E (f a db))
      → Ends P E (proceed f (or_throw e o db))
  unfolding or_throw
  or_throw_rule f e none db absent present = throws (absent refl)
  or_throw_rule f e (some a) db absent present = present a refl

  -- The step passes with a row that is known to be there.
  pub or_throw_found :
      (f : A → Action B) (e : Error) (o : Option A) (db : Db) (a : A)
      → o ≡ some a
      → Ends P E (f a db)
      → Ends P E (proceed f (or_throw e o db))
  unfolding or_throw
  or_throw_found f e o db a present next = rw present next

-- What a guard `if (!b) throw` has tested once it is passed.
pub guard_passed : (b : Bool) → not b ≡ false → b ≡ true
guard_passed true h = refl
guard_passed false h = cc

module _ {B : Type 0} {P : B → Db → Type 0} {E : Error → Db → Type 0} where
  pub throw_if_rule :
      (f : Unit {0} → Action B) (e : Error) (b : Bool) (db : Db)
      → (b ≡ true → E e db)
      → (b ≡ false → Ends P E (f tt db))
      → Ends P E (proceed f (throw_if b e db))
  unfolding throw_if
  throw_if_rule f e true db raised passed = throws (raised refl)
  throw_if_rule f e false db raised passed = passed refl

module _ {A : Type 0} {B : Type 0} {P : B → Db → Type 0} {E : Error → Db → Type 0} where
  rethrow_rule :
      (f : A → Action B) (wrap : Reason → Error) {r : Result A × Db}
      → Ends (λ a db'. Ends P E (f a db')) (λ e db'. E (wrap (message e)) db') r
      → Ends P E (proceed f (rethrow wrap r))
  rethrow_rule f wrap (returns p) = p
  rethrow_rule f wrap (throws q) = throws q

  pub try_wrap_rule :
      (f : A → Action B) (wrap : Reason → Error) (m : Action A) (db : Db)
      → Ends (λ a db'. Ends P E (f a db')) (λ e db'. E (wrap (message e)) db') (m db)
      → Ends P E (proceed f (try_wrap wrap m db))
  unfolding try_wrap
  try_wrap_rule f wrap m db = rethrow_rule f wrap

pub weaken :
    {A : Type 0} {P Q : A → Db → Type 0} {E F : Error → Db → Type 0} {r : Result A × Db}
    → ((a : A) (db : Db) → P a db → Q a db)
    → ((e : Error) (db : Db) → E e db → F e db)
    → Ends P E r
    → Ends Q F r
weaken f g (returns p) = returns (f _ _ p)
weaken f g (throws q) = throws (g _ _ q)

-- What a call that returned has ensured.
pub returned :
    {A : Type 0} {P : A → Db → Type 0} {E : Error → Db → Type 0} {r : Result A × Db} {a : A}
    {db : Db}
    → Ends P E r
    → r ≡ (ok a, db)
    → P a db
returned {P = P} {E = E} h e = subst (Outcome P E) e (outcome h)
