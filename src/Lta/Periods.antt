-- ===== src/Lta/Periods.antt =====
-- What the three tests for overlapping agreements find.
use mathlib.Core.Logic.{◌↔◌}
use collmind_backend.Base.{
  ℕ, ◌≡◌, ◌≤◌, ◌<◌, true, false, none, some, leb, arith, Bool-cases, inl, inr,
}
use collmind_backend.Lta.Repository.{meets}

-- A day of both periods.
abbrev pub CommonDay : ℕ → ℕ → ℕ → ℕ → Type 0
CommonDay effective expiry s e =
    (day : ℕ) × (effective ≤ day) × (day ≤ expiry) × (s ≤ day) × (day ≤ e)

common_of_meets :
    (effective expiry s e : ℕ)
    → effective ≤ expiry
    → s ≤ e
    → meets effective (some expiry) s (some e) ≡ true
    → CommonDay effective expiry s e
unfolding meets
common_of_meets effective expiry s e h k met = elim (Bool-cases (leb s effective)) [
  | inl before ↦ (effective, ground arith, ground arith, ground arith, ground arith)
  | inr behind ↦ (s, ground arith, ground arith, ground arith, ground arith)
]

pub no_common_day :
    (effective expiry s e day : ℕ)
    → meets effective (some expiry) s (some e) ≡ false
    → effective ≤ day
    → day ≤ expiry
    → s ≤ day
    → e < day
unfolding meets
no_common_day effective expiry s e day clear h k l = ground arith

meets_of_common :
    (effective expiry s e : ℕ)
    → CommonDay effective expiry s e
    → meets effective (some expiry) s (some e) ≡ true
unfolding meets
meets_of_common effective expiry s e (day, h, k, l, m) = ground arith

open_meets :
    (effective s e : ℕ)
    → (meets effective none s (some e) ≡ true) ↔ ((s ≤ effective) × (effective ≤ e))
unfolding meets
open_meets effective s e = (λ h. (ground arith, ground arith), λ (h, k). ground arith)

meets_open : (effective expiry s : ℕ) → meets effective (some expiry) s none ≡ true
unfolding meets
meets_open effective expiry s = ground arith

-- Of a request and a row that both have an end, each not before its beginning, the tests find
-- exactly those with a day in common. An open-ended row is found by every request, also by one
-- that ends before the row begins. An open-ended request finds of the rows with an end only those
-- that run on its first day, and so none that begins later.
pub meets_lem :
    (effective expiry s e : ℕ)
    → effective ≤ expiry
    → s ≤ e
    → ((meets effective (some expiry) s (some e) ≡ true) ↔ CommonDay effective expiry s e)
      × (meets effective (some expiry) s none ≡ true)
      × (meets effective none s none ≡ true)
      × ((meets effective none s (some e) ≡ true) ↔ ((s ≤ effective) × (effective ≤ e)))
unfolding meets
meets_lem effective expiry s e h k = (
  (common_of_meets effective expiry s e h k, meets_of_common effective expiry s e),
  meets_open effective expiry s,
  ground arith,
  open_meets effective s e,
)
