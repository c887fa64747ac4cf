-- ===== src/Formula/Dependencies.antt =====
-- The references that `extractDependencies` finds.
use collmind_backend.Base.{
  ◌≡◌, refl, sym, ap, ◌∙◌, Text, text_eq, text_eq_sound, Bool, true, false, ◌&&◌, ◌||◌, not, List,
  [], ◌∷◌, ◌++◌, arith, Bool-cases, select, if◌then◌else◌,
}
use collmind_backend.Formula.{
  has_text, add_all, words, is_code, function_names, extract_dependencies,
}

text_eq_comm : (s t : Text) → text_eq s t ≡ text_eq t s
unfolding text_eq
text_eq_comm [] [] = refl
text_eq_comm [] (b ∷ t) = refl
text_eq_comm (a ∷ s) [] = refl
text_eq_comm (a ∷ s) (b ∷ t) = ground (arith, text_eq_comm s t)

-- A list without repetitions.
abbrev pub is_distinct : List Text → Bool
is_distinct [] = true
is_distinct (w ∷ ws) = not (has_text ws w) && is_distinct ws

has_text-snoc :
    (xs : List Text) (v w : Text) → has_text (xs ++ (v ∷ [])) w ≡ (has_text xs w || text_eq w v)
has_text-snoc [] v w = ground arith
has_text-snoc (x ∷ xs) v w = ground (arith, has_text-snoc xs v w)

is_distinct-snoc :
    (xs : List Text) (v : Text)
    → is_distinct xs ≡ true
    → has_text xs v ≡ false
    → is_distinct (xs ++ (v ∷ [])) ≡ true
is_distinct-snoc [] v h k = refl
is_distinct-snoc (x ∷ xs) v h k =
    ground (arith, is_distinct-snoc xs v, has_text-snoc xs v x, text_eq_comm v x)

-- A text that equals one of the list is in it.
has_text_of_eq : (xs : List Text) (v w : Text) → text_eq w v ≡ true → has_text xs v ≡ has_text xs w
has_text_of_eq xs v w h = ap (has_text xs) (sym (text_eq_sound w v h))

abbrev add : List Text → Text → List Text
add seen v = if has_text seen v then seen else seen ++ (v ∷ [])

has_text-add :
    (seen : List Text) (v w : Text) → has_text (add seen v) w ≡ (has_text seen w || text_eq w v)
has_text-add seen v w =
    ground (arith, Bool-cases (has_text seen v), has_text-snoc seen v w, has_text_of_eq seen v w)

is_distinct-add :
    (seen : List Text) (v : Text) → is_distinct seen ≡ true → is_distinct (add seen v) ≡ true
is_distinct-add seen v h = ground (arith, is_distinct-snoc seen v h)

has_text-add_all :
    (seen ws : List Text) (w : Text)
    → has_text (add_all seen ws) w ≡ (has_text seen w || has_text ws w)
unfolding add_all
has_text-add_all seen [] w = ground arith
has_text-add_all seen (v ∷ ws) w =
    ground (arith, has_text-add_all (add seen v) ws w, has_text-add seen v w)

is_distinct-add_all :
    (seen ws : List Text) → is_distinct seen ≡ true → is_distinct (add_all seen ws) ≡ true
unfolding add_all
is_distinct-add_all seen [] h = h
is_distinct-add_all seen (v ∷ ws) h = is_distinct-add_all (add seen v) ws (is_distinct-add seen v h)

has_text-select :
    (p : Text → Bool) (ws : List Text) (w : Text)
    → has_text (select p ws) w ≡ (has_text ws w && p w)
has_text-select p [] w = refl
has_text-select p (v ∷ ws) w =
    ground (arith, has_text-select p ws w, (λ (h : text_eq w v ≡ true). ap p (text_eq_sound w v h)))

-- A text is among the dependencies of a formula exactly when it is a word of the formula, has the
-- form of a code, and is no function name; and no dependency is listed twice.
pub extract_dependencies_lem :
    (formula w : Text)
    → (has_text (extract_dependencies formula) w
        ≡ (has_text (words formula) w && (is_code w && not (has_text function_names w))))
      × (is_distinct (extract_dependencies formula) ≡ true)
unfolding extract_dependencies
extract_dependencies_lem formula w = (
  has_text-add_all [] (select (λ v. is_code v && not (has_text function_names v)) (words formula)) w
      ∙ has_text-select (λ v. is_code v && not (has_text function_names v)) (words formula) w,
  is_distinct-add_all [] _ refl,
)
