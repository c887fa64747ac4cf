-- ===== src/Formula/Parentheses.antt =====
-- Balanced formulas, as a grammar and as the count of the parser.
use mathlib.Core.Path.{subst}
use collmind_backend.Base.{
  ++_assoc, ℕ, zero, suc, ◌≡◌, refl, sym, ap, ◌∙◌, Text, false, Option, some, [], ◌∷◌, ◌++◌, ◌==◌,
  arith, Bool-cases, inl, inr, eq_of_==,
}
use collmind_backend.Formula.{turn, paren_count}

-- Texts in which each opening parenthesis has its closing one.
pub data Balanced : Text → Type 0 where
  empty : Balanced []
  other : {c : ℕ} {s : Text} → (c == 40) ≡ false → (c == 41) ≡ false → Balanced s → Balanced (c ∷ s)
  nested : {s t r : Text} → Balanced s → Balanced t → r ≡ s ++ (41 ∷ t) → Balanced (40 ∷ r)

turn_other : (c n : ℕ) → (c == 40) ≡ false → (c == 41) ≡ false → turn c n ≡ some n
unfolding turn
turn_other c zero h k = grind arith
turn_other c (suc n) h k = grind arith

turn_open : (n : ℕ) → turn 40 n ≡ some (suc n)
unfolding turn
turn_open zero = refl
turn_open (suc n) = ground arith

turn_close : (n : ℕ) → turn 41 (suc n) ≡ some n
unfolding turn
turn_close n = refl

++_nil : (s : Text) → s ++ [] ≡ s
++_nil [] = refl
++_nil (c ∷ s) = ap (◌∷◌ c) (++_nil s)

-- The count goes on from what a character makes of it.
count_step :
    (c n : ℕ) (s : Text) {o : Option ℕ}
    → turn c n ≡ o
    → paren_count (some n) (c ∷ s) ≡ paren_count o s
unfolding paren_count
count_step c n s h = ap (λ o. paren_count o s) h

-- A balanced text leaves the count as it was.
count-Balanced :
    (n : ℕ) {s : Text} (rest : Text)
    → Balanced s
    → paren_count (some n) (s ++ rest) ≡ paren_count (some n) rest
count-Balanced n rest Balanced.empty = refl
count-Balanced n rest (Balanced.other {c} {s} h k b) =
    count_step c n (s ++ rest) (turn_other c n h k) ∙ count-Balanced n rest b
count-Balanced n rest (Balanced.nested {s} {t} {r} b d r_eq) =
    count_step 40 n (r ++ rest) (turn_open n)
    ∙ ap (λ u. paren_count (some (suc n)) (u ++ rest)) r_eq
    ∙ ap (paren_count (some (suc n))) (++_assoc s (41 ∷ t) rest)
    ∙ count-Balanced (suc n) (41 ∷ (t ++ rest)) b
    ∙ count_step 41 (suc n) (t ++ rest) (turn_close n)
    ∙ count-Balanced n rest d

-- A text that closes `n` open parentheses and is balanced in between.
Closes : ℕ → Text → Type 0
Closes zero s = Balanced s
Closes (suc n) s = (u : Text) × (v : Text) × Balanced u × Closes n v × (s ≡ u ++ (41 ∷ v))

other-Closes :
    (n c : ℕ) (s : Text) → (c == 40) ≡ false → (c == 41) ≡ false → Closes n s → Closes n (c ∷ s)
unfolding Closes
other-Closes zero c s h k b = Balanced.other h k b
other-Closes (suc n) c s h k (u, v, b, rest, s_eq) =
    (c ∷ u, v, Balanced.other h k b, rest, ap (◌∷◌ c) s_eq)

open-Closes : (n : ℕ) (s : Text) → Closes (suc n) s → Closes n (40 ∷ s)
unfolding Closes
open-Closes zero s (u, v, b, rest, s_eq) = Balanced.nested b rest s_eq
open-Closes (suc n) s (u, v, b, (u', v', b', rest, v_eq), s_eq) = (
  40 ∷ (u ++ (41 ∷ u')),
  v',
  Balanced.nested b b' refl,
  rest,
  ap (◌∷◌ 40) (s_eq ∙ ap (λ w. u ++ (41 ∷ w)) v_eq ∙ sym (++_assoc u (41 ∷ u') (41 ∷ v'))),
)

-- A closing parenthesis keeps the count from failing only where one is open.
count_closed :
    (n : ℕ) (s : Text)
    → paren_count (turn 41 n) s ≡ some 0
    → (m : ℕ) × (n ≡ suc m) × (paren_count (some m) s ≡ some 0)
unfolding turn paren_count
count_closed zero s h = absurd (cc)
count_closed (suc n) s h = (n, refl, h)

-- A text whose count ends at 0 closes what was open at its start.
count-Closes : (n : ℕ) (s : Text) → paren_count (some n) s ≡ some 0 → Closes n s
unfolding paren_count Closes
count-Closes zero [] h = Balanced.empty
count-Closes (suc n) [] h = absurd (ground (arith, h))
count-Closes n (c ∷ s) h = elim (Bool-cases (c == 40)) [
  | inl opens ↦
      let c_eq = eq_of_== c 40 opens in
      subst (λ d. Closes n (d ∷ s)) (sym c_eq)
        (open-Closes n s (
          count-Closes (suc n) s
            (sym (count_step c n s (ap (λ d. turn d n) c_eq ∙ turn_open n)) ∙ h)))
  | inr no_open ↦ elim (Bool-cases (c == 41)) [
    | inl closes ↦
        let c_eq = eq_of_== c 41 closes in
        let (m, n_eq, rest) =
          count_closed n s (ap (λ d. paren_count (turn d n) s) (sym c_eq) ∙ h) in
        subst (λ k. Closes k (c ∷ s)) (sym n_eq)
          ([], s, Balanced.empty, count-Closes m s rest, ap (λ d. d ∷ s) c_eq)
    | inr neither ↦
        other-Closes n c s no_open neither
          (count-Closes n s (sym (count_step c n s (turn_other c n no_open neither)) ∙ h))
  ]
]

-- The count ends at 0 without having fallen below it exactly for a balanced text.
pub count_of-Balanced : (s : Text) → Balanced s → paren_count (some 0) s ≡ some 0
unfolding paren_count
count_of-Balanced s b =
    subst (λ t. paren_count (some 0) t ≡ some 0) (++_nil s) (count-Balanced 0 [] b)

pub count_to-Balanced : (s : Text) → paren_count (some 0) s ≡ some 0 → Balanced s
unfolding Closes
count_to-Balanced s h = count-Closes 0 s h
