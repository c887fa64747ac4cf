-- ===== src/Agreements/Codes/Numbers.antt =====
-- The number that is read back from a code.
use Prim.Native.Nat.{◌/◌, ◌%◌}
use collmind_backend.Base.{
  ++_assoc, ℕ, zero, suc, ◌+◌, ◌*◌, ◌≡◌, ◌<◌, refl, ap, ◌∙◌, Text, Bool, true, false, not, some, [],
  ◌∷◌, ◌++◌, ◌==◌, arith, every, ltb, Bool-cases, inl, inr,
}
use collmind_backend.Entities.Agreement.{AgreementType}
use collmind_backend.Agreements.Codes.{
  digits, show, pad_start, is_digit, parse_from, parse_int, split, number_in, next_sequence,
  after_number, code_prefix, type_text,
}

mod_bound : (n : ℕ) → n % 10 < 10
mod_bound n = omega arith

is_digit_lem : (d : ℕ) → d < 10 → is_digit (48 + d) ≡ true
is_digit_lem d h = ground arith

-- One digit is read.
parse_from_step :
    (m d : ℕ) (acc : Text) → d < 10 → parse_from m ((48 + d) ∷ acc) ≡ parse_from (m * 10 + d) acc
parse_from_step m d acc h =
    rw (is_digit_lem d h) (ap (λ k. parse_from (m * 10 + k) acc) (omega arith))

last_digit : (n : ℕ) → ltb n 10 ≡ true → 0 * 10 + n % 10 ≡ n
last_digit n h = ground arith

div_bound : (fuel n : ℕ) → n < suc fuel → ltb n 10 ≡ false → n / 10 < fuel
div_bound fuel n h k = ground arith

div_mod : (n : ℕ) → n / 10 * 10 + n % 10 ≡ n
div_mod n = omega arith

-- The digits of a number are read back as the number.
parse_from-digits :
    (fuel n : ℕ) (acc : Text) → n < fuel → parse_from 0 (digits fuel n acc) ≡ parse_from n acc
parse_from-digits zero n acc h = absurd (omega arith)
parse_from-digits (suc fuel) n acc h = elim (Bool-cases (ltb n 10)) [
  | inl last ↦ rw last (
      parse_from_step 0 (n % 10) acc (mod_bound n) ∙ ap (λ k. parse_from k acc) (last_digit n last))
  | inr more ↦ rw more (
      parse_from-digits fuel (n / 10) ((48 + n % 10) ∷ acc) (div_bound fuel n h more)
      ∙ parse_from_step (n / 10) (n % 10) acc (mod_bound n)
      ∙ ap (λ k. parse_from k acc) (div_mod n))
]

every-digits :
    (fuel n : ℕ) (acc : Text)
    → every is_digit acc ≡ true
    → every is_digit (digits fuel n acc) ≡ true
every-digits zero n acc h = h
every-digits (suc fuel) n acc h =
    ground
      (arith, is_digit_lem (n % 10) (mod_bound n), every-digits fuel (n / 10) ((48 + n % 10) ∷ acc))

parse_from-pad_start : (s : Text) → parse_from 0 (pad_start s) ≡ parse_from 0 s
unfolding pad_start
parse_from-pad_start [] = refl
parse_from-pad_start (a ∷ []) = refl
parse_from-pad_start (a ∷ b ∷ []) = refl
parse_from-pad_start (a ∷ b ∷ c ∷ s) = refl

every-pad_start : (s : Text) → every is_digit s ≡ true → every is_digit (pad_start s) ≡ true
unfolding pad_start
every-pad_start [] h = refl
every-pad_start (a ∷ []) h = h
every-pad_start (a ∷ b ∷ []) h = h
every-pad_start (a ∷ b ∷ c ∷ s) h = h

parse_int-pad_start :
    (s : Text) → every is_digit s ≡ true → parse_int (pad_start s) ≡ some (parse_from 0 s)
unfolding pad_start parse_int
parse_int-pad_start [] h = refl
parse_int-pad_start (a ∷ []) h = refl
parse_int-pad_start (a ∷ b ∷ []) h = refl
parse_int-pad_start (a ∷ b ∷ c ∷ s) h = ground (arith, h)

abbrev no_dash : ℕ → Bool
no_dash c = not (c == 45)

every-no_dash : (s : Text) → every is_digit s ≡ true → every no_dash s ≡ true
every-no_dash [] h = refl
every-no_dash (c ∷ s) h = ground (arith, every-no_dash s, h)

split_last : (s : Text) → every no_dash s ≡ true → split s ≡ s ∷ []
unfolding split
split_last [] h = refl
split_last (c ∷ s) h = ground (arith, split_last s, h)

split_first : (s t : Text) → every no_dash s ≡ true → split (s ++ (45 ∷ t)) ≡ s ∷ split t
unfolding split
split_first [] t h = refl
split_first (c ∷ s) t h = ground (arith, split_first s t, h)

every-show : (n : ℕ) → every is_digit (show n) ≡ true
unfolding show
every-show n = every-digits (suc n) n [] refl

-- What stands before the number is two parts without a dash in them.
type_no_dash : (t : AgreementType) → every no_dash (type_text t) ≡ true
type_no_dash AgreementType.sta = refl
type_no_dash AgreementType.lta = refl

prefix_assoc : (s t r : Text) → (s ++ (45 ∷ (t ++ (45 ∷ [])))) ++ r ≡ s ++ (45 ∷ (t ++ (45 ∷ r)))
prefix_assoc s t r =
    ++_assoc s (45 ∷ (t ++ (45 ∷ []))) r ∙ ap (λ u. s ++ (45 ∷ u)) (++_assoc t (45 ∷ []) r)

split-code :
    (t : AgreementType) (year n : ℕ)
    → split (code_prefix t year ++ pad_start (show n))
      ≡ type_text t ∷ show year ∷ pad_start (show n) ∷ []
split-code t year n =
    ap split (prefix_assoc (type_text t) (show year) (pad_start (show n)))
    ∙ split_first (type_text t) _ (type_no_dash t)
    ∙ ap (◌∷◌ (type_text t)) (
        split_first (show year) _ (every-no_dash (show year) (every-show year))
        ∙ ap (◌∷◌ (show year)) (
            split_last (pad_start (show n))
              (every-no_dash (pad_start (show n)) (every-pad_start (show n) (every-show n)))))

parse_int-show : (n : ℕ) → parse_int (pad_start (show n)) ≡ some n
unfolding show
parse_int-show n =
    parse_int-pad_start (show n) (every-show n)
    ∙ ap some (parse_from-digits (suc n) n [] (omega arith))

after_number_lem : (n : ℕ) → after_number (some n) ≡ n + 1
after_number_lem zero = refl
after_number_lem (suc n) = refl

-- The number in a code is read back, for each type and year, and however many digits it has; the
-- next code has the number after it.
pub next_sequence-code :
    (t : AgreementType) (year n : ℕ)
    → (number_in (split (code_prefix t year ++ pad_start (show n))) ≡ some n)
      × (next_sequence (some (code_prefix t year ++ pad_start (show n))) ≡ n + 1)
unfolding next_sequence
next_sequence-code t year n =
    let read = ap number_in (split-code t year n) ∙ parse_int-show n in
    (read, ap after_number read ∙ after_number_lem n)
