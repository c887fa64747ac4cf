-- ===== src/Examples/Formulas.antt =====
-- Validation of formulas, and their references.
use mathlib.Core.Logic.{◌↔◌}
use collmind_backend.Base.{◌≡◌, refl, codes, Text, text_eq, is_prefix, true, false, [], ◌∷◌, exists}
use collmind_backend.Formula.{
  validate_formula, extract_dependencies, add_all, words, to_lower_case, includes, is_blank,
  FormulaError, paren_count, turn,
}
use collmind_backend.Formula.Parentheses.{Balanced}
use collmind_backend.Formula.Validation.{lower_patterns, validate_formula-Balanced}

abbrev margin : Text
margin = codes "ROUND((NSV - COGS) / NSV)"

abbrev request : Text
request = codes "XMLHttpRequest(GSV)"

margin_references : extract_dependencies margin ≡ codes "NSV" ∷ codes "COGS" ∷ []
unfolding extract_dependencies add_all words text_eq
margin_references = refl

request_is_valid : (validate_formula request (codes "expression")).is_valid ≡ true
unfolding validate_formula includes to_lower_case paren_count turn is_prefix
request_is_valid = refl

unbalanced_twice :
    (validate_formula (codes "GSV)(") (codes "expression")).errors
    ≡ FormulaError.unbalanced ∷ FormulaError.unbalanced ∷ []
unfolding validate_formula includes to_lower_case paren_count turn is_prefix
unbalanced_twice = refl

validate_formula-Balanced_example :
    ((validate_formula margin (codes "expression")).is_valid ≡ true) ↔ (
      (is_blank margin ≡ false)
      × (exists (includes (to_lower_case margin)) lower_patterns ≡ false)
      × Balanced margin)
validate_formula-Balanced_example = validate_formula-Balanced margin (codes "expression")
