-- ===== src/Agreements/Codes.antt =====
-- The codes of agreements, as STA-2026-001: `generateAgreementCode` of agreement.repository.ts and
-- the increments in `create` of agreement.service.ts.
pub mod Numbers
use Prim.Native.Nat.{◌/◌, ◌%◌}
use collmind_backend.Base.{
  ℕ, zero, suc, ◌+◌, ◌-◌, ◌*◌, Uuid, Text, codes, Bool, true, false, ◌&&◌, ◌||◌, not, Option, none,
  some, List, [], ◌∷◌, ◌++◌, ◌==◌, ltb, leb, if◌then◌else◌, select, is_prefix,
}
use collmind_backend.Entities.Agreement.{Agreement, AgreementType}
use collmind_backend.Db.{Db, Action, ◌>>=◌, query, return}

-- The calendar of the server, and whether a query builder shows rows that were softly deleted,
-- which the library that runs it decides.
pub record Platform : Type 0 where
  pub month_of : ℕ → Text
  pub year_of : ℕ → ℕ
  pub shows_deleted : Bool

-- `String(n)`: the digits, the last one first on the accumulator. `n` digits are enough for `n`.
abbrev pub digits : ℕ → ℕ → Text → Text
digits zero n acc = acc
digits (suc fuel) n acc =
    let rest = digits fuel (n / 10) ((48 + n % 10) ∷ acc) in
    if ltb n 10 then (48 + n % 10) ∷ acc else rest

unfoldable pub show : ℕ → Text
show n = digits (suc n) n []

-- `s.padStart(3, '0')`.
unfoldable pub pad_start : Text → Text
pad_start [] = codes "000"
pad_start (a ∷ []) = codes "00" ++ (a ∷ [])
pad_start (a ∷ b ∷ []) = codes "0" ++ (a ∷ b ∷ [])
pad_start s = s

-- `parseInt(s, 10)` of a text without a sign or a leading space: the digits up to the first other
-- character, and NaN where there is none.
abbrev pub is_digit : ℕ → Bool
is_digit c = leb 48 c && leb c 57

abbrev pub parse_from : ℕ → Text → ℕ
parse_from n [] = n
parse_from n (c ∷ s) = let rest = parse_from (n * 10 + (c - 48)) s in if is_digit c then rest else n

unfoldable pub parse_int : Text → Option ℕ
parse_int [] = none
parse_int (c ∷ s) = if is_digit c then some (parse_from 0 (c ∷ s)) else none

-- `s.split('-')`: the parts, of which there is at least one.
abbrev push_first : ℕ → List Text → List Text
push_first c [] = (c ∷ []) ∷ []
push_first c (p ∷ ps) = (c ∷ p) ∷ ps

unfoldable pub split : Text → List Text
split [] = [] ∷ []
split (c ∷ s) = let rest = split s in if c == 45 then [] ∷ rest else push_first c rest

abbrev pub type_text : AgreementType → Text
type_text AgreementType.sta = codes "STA"
type_text AgreementType.lta = codes "LTA"

abbrev pub same_agreement_type : AgreementType → AgreementType → Bool
same_agreement_type AgreementType.sta AgreementType.sta = true
same_agreement_type AgreementType.lta AgreementType.lta = true
same_agreement_type _ _ = false

-- The order of two codes, by their characters.
abbrev pub text_leb : Text → Text → Bool
text_leb [] t = true
text_leb (a ∷ s) [] = false
text_leb (a ∷ s) (b ∷ t) = ltb a b || ((a == b) && text_leb s t)

-- `ORDER BY agreement_code DESC LIMIT 1`.
abbrev last_code : List Agreement → Option Text
last_code [] = none
last_code (a ∷ rows) = elim (last_code rows) [
  | none ↦ some a.agreement_code
  | some c ↦ some (if text_leb c a.agreement_code then a.agreement_code else c)
]

-- The number behind the second dash, where there is one.
abbrev pub number_in : List Text → Option ℕ
number_in (p ∷ q ∷ r ∷ ps) = parse_int r
number_in _ = none

-- The sequence after a code: 1 where the code has no positive number.
abbrev pub after_number : Option ℕ → ℕ
after_number none = 1
after_number (some zero) = 1
after_number (some (suc n)) = suc n + 1

unfoldable pub next_sequence : Option Text → ℕ
next_sequence none = 1
next_sequence (some code) = after_number (number_in (split code))

abbrev pub code_prefix : AgreementType → ℕ → Text
code_prefix agreement_type year =
    type_text agreement_type ++ (codes "-" ++ (show year ++ codes "-"))

abbrev has_prefix : Platform → Uuid → AgreementType → Text → Agreement → Bool
has_prefix platform tenant_id agreement_type prefix a =
    (a.tenant_id == tenant_id)
    && same_agreement_type a.agreement_type agreement_type
    && is_prefix prefix a.agreement_code
    && (platform.shows_deleted || not a.deleted)

-- `generateAgreementCode`.
unfoldable pub generate_code : Platform → Uuid → AgreementType → Db → Text
generate_code platform tenant_id agreement_type db =
    let prefix = code_prefix agreement_type (platform.year_of db.now) in
    let last =
      last_code (select (has_prefix platform tenant_id agreement_type prefix) db.agreements) in
    prefix ++ pad_start (show (next_sequence last))

-- The code with its number raised by one; one without a number, or with a number below `least`,
-- gives way to a new one.
abbrev raise_parts : ℕ → Text → List Text → Text
raise_parts least fallback (p ∷ q ∷ r ∷ ps) = elim (parse_int r) [
  | none ↦ fallback
  | some n ↦
      if leb least n
      then p ++ (codes "-" ++ (q ++ (codes "-" ++ pad_start (show (n + 1)))))
      else fallback
]
raise_parts least fallback _ = fallback

unfoldable pub raise_code : Platform → Uuid → AgreementType → ℕ → Text → Action Text
raise_code platform tenant_id agreement_type least code = do
  fallback ← query (generate_code platform tenant_id agreement_type)
  return (raise_parts least fallback (split code))
