-- ===== src/Formula.antt =====
-- src/modules/shared/kpi-engine/formula-parser.service.ts: `validateFormula` and
-- `extractDependencies`. A formula is the list of its character codes.
pub mod Parentheses
pub mod Validation
pub mod Dependencies
use collmind_backend.Base.{
  ℕ, zero, suc, ◌+◌, Text, codes, text_eq, Bool, true, false, ◌&&◌, ◌||◌, not, Option, none, some,
  List, [], ◌∷◌, ◌++◌, ◌==◌, ltb, leb, if◌then◌else◌, select, exists, is_prefix,
}

abbrev between : ℕ → ℕ → ℕ → Bool
between low high c = leb low c && leb c high

abbrev is_upper : ℕ → Bool
is_upper c = between 65 90 c

-- `[A-Z0-9_]` and `\w`.
abbrev is_code_char : ℕ → Bool
is_code_char c = is_upper c || between 48 57 c || (c == 95)

abbrev is_word_char : ℕ → Bool
is_word_char c = is_code_char c || between 97 122 c

-- The longest runs of word characters, in their order. What stands before the first other
-- character comes first, and may be empty.
abbrev push_char : ℕ → List Text → List Text
push_char c [] = (c ∷ []) ∷ []
push_char c (w ∷ ws) = (c ∷ w) ∷ ws

unfoldable pub words : Text → List Text
words [] = [] ∷ []
words (c ∷ s) = let rest = words s in if is_word_char c then push_char c rest else [] ∷ rest

abbrev all_code_chars : Text → Bool
all_code_chars [] = true
all_code_chars (c ∷ s) = is_code_char c && all_code_chars s

-- `\b([A-Z][A-Z0-9_]+)\b`: between two word boundaries without one inside stands a whole run.
abbrev pub is_code : Text → Bool
is_code (c ∷ d ∷ s) = is_upper c && all_code_chars (d ∷ s)
is_code _ = false

abbrev pub function_names : List Text
function_names =
    codes "IF"
    ∷ codes "SUM"
    ∷ codes "AVG"
    ∷ codes "MIN"
    ∷ codes "MAX"
    ∷ codes "ABS"
    ∷ codes "ROUND"
    ∷ codes "FLOOR"
    ∷ codes "CEIL"
    ∷ codes "AND"
    ∷ codes "OR"
    ∷ codes "NOT"
    ∷ codes "TRUE"
    ∷ codes "FALSE"
    ∷ codes "NULL"
    ∷ []

-- Whether a text is in a set of texts.
abbrev pub has_text : List Text → Text → Bool
has_text set w = exists (text_eq w) set

-- A set in the order of its insertions: `matches.add` for each text.
unfoldable pub add_all : List Text → List Text → List Text
add_all seen [] = seen
add_all seen (w ∷ ws) = add_all (if has_text seen w then seen else seen ++ (w ∷ [])) ws

unfoldable pub extract_dependencies : Text → List Text
extract_dependencies formula =
    add_all [] (select (λ w. is_code w && not (has_text function_names w)) (words formula))

pub data FormulaError : Type 0 where
  empty_formula unbalanced : FormulaError
  forbidden : Text → FormulaError

pub data FormulaWarning : Type 0 where
  if_missing no_reference : FormulaWarning

pub record FormulaValidationResult : Type 0 where
  pub is_valid : Bool
  pub errors : List FormulaError
  pub warnings : List FormulaWarning

-- `formula.trim().length === 0`: only characters that `trim` removes.
abbrev is_space : ℕ → Bool
is_space c =
    between 9 13 c
    || exists (λ d. c == d) (32 ∷ 160 ∷ 5760 ∷ 8232 ∷ 8233 ∷ 8239 ∷ 8287 ∷ 12288 ∷ 65279 ∷ [])
    || between 8192 8202 c

abbrev pub is_blank : Text → Bool
is_blank [] = true
is_blank (c ∷ s) = is_space c && is_blank s

-- `toLowerCase` on ASCII letters. No other letter that it changes becomes a text with a forbidden
-- pattern.
abbrev lower_char : ℕ → ℕ
lower_char c = if is_upper c then c + 32 else c

unfoldable pub to_lower_case : Text → Text
to_lower_case [] = []
to_lower_case (c ∷ s) = lower_char c ∷ to_lower_case s

-- `s.includes(pattern)`.
unfoldable pub includes : Text → Text → Bool
includes [] pattern = is_prefix pattern []
includes (c ∷ s) pattern = is_prefix pattern (c ∷ s) || includes s pattern

abbrev pub dangerous_patterns : List Text
dangerous_patterns =
    codes "eval"
    ∷ codes "require"
    ∷ codes "import"
    ∷ codes "process"
    ∷ codes "global"
    ∷ codes "window"
    ∷ codes "document"
    ∷ codes "fetch"
    ∷ codes "XMLHttpRequest"
    ∷ []

abbrev pub pattern_errors : Text → List Text → List FormulaError
pattern_errors lowered [] = []
pattern_errors lowered (p ∷ ps) =
    let rest = pattern_errors lowered ps in
    if includes lowered p then FormulaError.forbidden p ∷ rest else rest

-- `parenCount` after a character, and after a text; `none` where it has fallen below 0.
unfoldable pub turn : ℕ → ℕ → Option ℕ
turn c zero = if c == 40 then some 1 else if c == 41 then none else some 0
turn c (suc n) = if c == 40 then some (suc n + 1) else if c == 41 then some n else some (suc n)

unfoldable pub paren_count : Option ℕ → Text → Option ℕ
paren_count none s = none
paren_count (some n) [] = some n
paren_count (some n) (c ∷ s) = paren_count (turn c n) s

-- The loop pushes an error below 0, and the test behind it pushes one for each count but 0.
abbrev pub paren_errors : Option ℕ → List FormulaError
paren_errors none = FormulaError.unbalanced ∷ FormulaError.unbalanced ∷ []
paren_errors (some zero) = []
paren_errors (some (suc n)) = FormulaError.unbalanced ∷ []

abbrev conditional_warnings : Text → Text → List FormulaWarning
conditional_warnings formula formula_type =
    if text_eq formula_type (codes "conditional")
      && not (includes formula (codes "IF("))
      && not (includes formula (codes "if("))
    then FormulaWarning.if_missing ∷ []
    else []

abbrev reference_warnings : Text → List Text → List FormulaWarning
reference_warnings formula_type [] =
    if text_eq formula_type (codes "expression") then FormulaWarning.no_reference ∷ [] else []
reference_warnings formula_type (d ∷ ds) = []

abbrev pub no_errors : List FormulaError → Bool
no_errors [] = true
no_errors (e ∷ es) = false

abbrev judged : List FormulaError → List FormulaWarning → FormulaValidationResult
judged errors warnings = record {
  is_valid = no_errors errors;
  errors = errors;
  warnings = warnings;
}

unfoldable pub validate_formula : Text → Text → FormulaValidationResult
validate_formula formula formula_type =
    if is_blank formula
    then judged (FormulaError.empty_formula ∷ []) []
    else judged
        (pattern_errors (to_lower_case formula) dangerous_patterns
          ++ paren_errors (paren_count (some 0) formula))
        (conditional_warnings formula formula_type
          ++ reference_warnings formula_type (extract_dependencies formula))
