-- ===== src/Formula/Validation.antt =====
-- Which formulas `validateFormula` accepts.
use collmind_backend.Base.{
  ℕ, ◌≡◌, ◌≢◌, refl, sym, ap, ◌∙◌, Text, codes, Bool, true, false, ◌&&◌, not, Option, none, some,
  [], ◌∷◌, ◌++◌, List, arith, Bool-cases, inl, inr, exists, is_prefix, take, zero, suc,
}
use mathlib.Core.Logic.{◌↔◌}
use collmind_backend.Formula.{
  FormulaError, paren_count, paren_errors, pattern_errors, no_errors, dangerous_patterns, includes,
  to_lower_case, is_blank, validate_formula,
}
use collmind_backend.Formula.Parentheses.{Balanced, count_of-Balanced, count_to-Balanced}

-- The patterns that have no capital letter.
abbrev pub lower_patterns : List Text
lower_patterns = take 8 dangerous_patterns

-- A pattern with a capital letter at its start is in no lower-cased text.
capital_unseen : (s p : Text) → includes (to_lower_case s) (88 ∷ p) ≡ false
unfolding includes to_lower_case is_prefix
capital_unseen [] p = refl
capital_unseen (c ∷ s) p = ground (arith, capital_unseen s p)

no_errors_++ : (xs ys : List FormulaError) → no_errors (xs ++ ys) ≡ (no_errors xs && no_errors ys)
no_errors_++ [] ys = refl
no_errors_++ (x ∷ xs) ys = refl

no_errors-pattern_errors :
    (s : Text) (ps : List Text) → no_errors (pattern_errors s ps) ≡ not (exists (includes s) ps)
no_errors-pattern_errors s [] = refl
no_errors-pattern_errors s (p ∷ ps) = ground (arith, no_errors-pattern_errors s ps)

exists_lower :
    (s : Text)
    → exists (includes (to_lower_case s)) dangerous_patterns
      ≡ exists (includes (to_lower_case s)) lower_patterns
exists_lower s = rw (capital_unseen s (codes "MLHttpRequest")) refl

true_ne_false : true ≢ false
true_ne_false h = cc

no_errors-paren_errors : (o : Option ℕ) → no_errors (paren_errors o) ≡ true → o ≡ some 0
no_errors-paren_errors none h = absurd (cc)
no_errors-paren_errors (some zero) h = refl
no_errors-paren_errors (some (suc n)) h = absurd (cc)

-- What the errors of a text that is not blank come to.
errors_lem :
    (s : Text)
    → no_errors (
        pattern_errors (to_lower_case s) dangerous_patterns
        ++ paren_errors (paren_count (some 0) s))
      ≡ (not (exists (includes (to_lower_case s)) lower_patterns)
          && no_errors (paren_errors (paren_count (some 0) s)))
errors_lem s =
    no_errors_++ (pattern_errors (to_lower_case s) dangerous_patterns) _
    ∙ ap (λ b. b && no_errors (paren_errors (paren_count (some 0) s)))
        (no_errors-pattern_errors (to_lower_case s) dangerous_patterns ∙ ap not (exists_lower s))

blank_lem : (s t : Text) → is_blank s ≡ true → (validate_formula s t).is_valid ≡ false
unfolding validate_formula
blank_lem s t blank = rw blank refl

valid_lem :
    (s t : Text)
    → is_blank s ≡ false
    → (validate_formula s t).is_valid ≡ (
        not (exists (includes (to_lower_case s)) lower_patterns)
        && no_errors (paren_errors (paren_count (some 0) s)))
unfolding validate_formula
valid_lem s t full = rw full (errors_lem s)

-- Two tests that pass together.
passed : (a b : Bool) → (not a && b) ≡ true → (a ≡ false) × (b ≡ true)
passed a b h = ground arith

-- A formula is valid exactly when it is not blank, its lower-cased text has none of the eight
-- patterns in small letters, and its parentheses are balanced. The ninth pattern, XMLHttpRequest,
-- never counts.
pub validate_formula-Balanced :
    (formula formula_type : Text)
    → ((validate_formula formula formula_type).is_valid ≡ true) ↔ (
        (is_blank formula ≡ false)
        × (exists (includes (to_lower_case formula)) lower_patterns ≡ false)
        × Balanced formula)
validate_formula-Balanced s t = (
  λ valid. elim (Bool-cases (is_blank s)) [
    | inl blank ↦ absurd (true_ne_false (sym valid ∙ blank_lem s t blank))
    | inr full ↦
        let (clean, closed) = passed _ _ (sym (valid_lem s t full) ∙ valid) in
        (full, clean, count_to-Balanced s (no_errors-paren_errors _ closed))
  ],
  λ (full, clean, balanced).
      valid_lem s t full
      ∙ ap (λ b. not b && no_errors (paren_errors (paren_count (some 0) s))) clean
      ∙ ap (λ o. no_errors (paren_errors o)) (count_of-Balanced s balanced),
)
