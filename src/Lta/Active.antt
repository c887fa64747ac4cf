-- ===== src/Lta/Active.antt =====
-- No two active agreements of a CPL that both have an end share a day, through all calls.
use mathlib.Core.Path.{subst}
use collmind_backend.Base.{
  ℕ, ◌≡◌, ◌≤◌, ◌<◌, sym, ◌∙◌, Uuid, Bool, true, false, ◌&&◌, not, none, some, List, [], ◌∷◌, ◌==◌,
  arith, leb, find, select, update_where, ==_refl, Bool-cases, inl, inr,
}
use collmind_backend.Entities.Lta.{LtaAgreementStatus, same_lta_status, LtaAgreement}
use collmind_backend.Lta.Repository.{meets, is_overlapping}
use collmind_backend.Lta.Service.{UpdateLtaAgreementDto, updated_lta, any_lta}
use collmind_backend.Lta.Periods.{no_common_day}

abbrev pub is_active_lta : LtaAgreement → Bool
is_active_lta a = same_lta_status a.status LtaAgreementStatus.active

-- Two live and active agreements of one CPL.
abbrev pub are_rivals : LtaAgreement → LtaAgreement → Bool
are_rivals a b =
    not (b.id == a.id)
    && (b.tenant_id == a.tenant_id)
    && (b.cpl_id == a.cpl_id)
    && is_active_lta a
    && is_active_lta b
    && not a.deleted
    && not b.deleted

-- Rivals that both have an end share no day.
abbrev pub Apart : LtaAgreement → LtaAgreement → Type 0
Apart a b =
    are_rivals a b ≡ true
    → (e f day : ℕ) → a.expiry_date ≡ some e
    → b.expiry_date ≡ some f
    → a.effective_date ≤ day
    → day ≤ e
    → b.effective_date ≤ day
    → f < day

abbrev pub ApartFrom : LtaAgreement → List LtaAgreement → Type 0
ApartFrom a [] = Unit
ApartFrom a (b ∷ rows) = Apart a b × ApartFrom a rows

abbrev pub AllApart : List LtaAgreement → Type 0
AllApart [] = Unit
AllApart (a ∷ rows) = ApartFrom a rows × AllApart rows

==_sym : (a b : ℕ) → (a == b) ≡ (b == a)
==_sym a b = ground arith

rivals_sym : (a b : LtaAgreement) → are_rivals a b ≡ true → are_rivals b a ≡ true
rivals_sym a b h =
    rw (==_sym a.id b.id)
      (rw (==_sym a.tenant_id b.tenant_id) (rw (==_sym a.cpl_id b.cpl_id) (ground arith)))

Apart-sym : (a b : LtaAgreement) → Apart a b → Apart b a
Apart-sym a b h rivals e f day he hf begun lasting behind = elim (Bool-cases (leb day f)) [
  | inl inside ↦
      let past : e < day = h (rivals_sym b a rivals) f e day hf he behind (ground arith) begun in
      ground arith
  | inr outside ↦ ground arith
]

-- Rows with another id are apart from a row.
abbrev pub Others : LtaAgreement → List LtaAgreement → Type 0
Others a [] = Unit
Others a (b ∷ rows) = ((b.id == a.id) ≡ false → Apart a b) × Others a rows

same_id_Apart : (a b : LtaAgreement) → (b.id == a.id) ≡ true → Apart a b
same_id_Apart a b same rivals = absurd (ground arith)

ApartFrom-update :
    (x a : LtaAgreement) (rows : List LtaAgreement)
    → Apart x a
    → ApartFrom x rows
    → ApartFrom x (update_where (λ b. b.id == a.id) (λ b. a) rows)
ApartFrom-update x a [] h more = tt
ApartFrom-update x a (b ∷ rows) h (first, more) = elim (Bool-cases (b.id == a.id)) [
  | inl same ↦ rw same (h, ApartFrom-update x a rows h more)
  | inr other ↦ rw other (first, ApartFrom-update x a rows h more)
]

own_update :
    (a : LtaAgreement) (rows : List LtaAgreement)
    → Others a rows
    → ApartFrom a (update_where (λ b. b.id == a.id) (λ b. a) rows)
own_update a [] h = tt
own_update a (b ∷ rows) (h, more) = elim (Bool-cases (b.id == a.id)) [
  | inl same ↦ rw same (same_id_Apart a a (==_refl a.id), own_update a rows more)
  | inr other ↦ rw other (h other, own_update a rows more)
]

pub AllApart-update :
    (a : LtaAgreement) (rows : List LtaAgreement)
    → AllApart rows
    → Others a rows
    → AllApart (update_where (λ b. b.id == a.id) (λ b. a) rows)
AllApart-update a [] all h = tt
AllApart-update a (b ∷ rows) (first, all) (h, more) = elim (Bool-cases (b.id == a.id)) [
  | inl same ↦ rw same (own_update a rows more, AllApart-update a rows all more)
  | inr other ↦
      rw other
        (ApartFrom-update b a rows (Apart-sym a b (h other)) first, AllApart-update a rows all more)
]

-- A row that is not active is apart from all.
pub ApartFrom-inactive :
    (a : LtaAgreement) (rows : List LtaAgreement) → is_active_lta a ≡ false → ApartFrom a rows
ApartFrom-inactive a [] h = tt
ApartFrom-inactive a (b ∷ rows) h = (λ rivals. absurd (ground arith), ApartFrom-inactive a rows h)

pub Others-inactive :
    (a : LtaAgreement) (rows : List LtaAgreement) → is_active_lta a ≡ false → Others a rows
Others-inactive a [] h = tt
Others-inactive a (b ∷ rows) h = (λ other rivals. absurd (ground arith), Others-inactive a rows h)

Others-ApartFrom : (a : LtaAgreement) (rows : List LtaAgreement) → ApartFrom a rows → Others a rows
Others-ApartFrom a [] h = tt
Others-ApartFrom a (b ∷ rows) (h, more) = (λ other. h, Others-ApartFrom a rows more)

Apart-find :
    (p : LtaAgreement → Bool) (x : LtaAgreement) (rows : List LtaAgreement) {a : LtaAgreement}
    → ApartFrom x rows
    → find p rows ≡ some a
    → Apart x a
Apart-find p x [] h found = absurd (cc)
Apart-find p x (b ∷ rows) {a} (h, more) found = elim (Bool-cases (p b)) [
  | inl hit ↦
      let same : some b ≡ some a = rw hit at found in let eq : b ≡ a = cc in subst (Apart x) eq h
  | inr miss ↦ Apart-find p x rows more (rw miss at found)
]

-- A row of the table is apart from the others.
pub Others-find :
    (p : LtaAgreement → Bool) (rows : List LtaAgreement) {a : LtaAgreement}
    → AllApart rows
    → find p rows ≡ some a
    → Others a rows
Others-find p [] all found = absurd (cc)
Others-find p (b ∷ rows) {a} (first, all) found = elim (Bool-cases (p b)) [
  | inl hit ↦
      let same : some b ≡ some a = rw hit at found in
      let eq : b ≡ a = cc in
      subst (λ c. Others c (b ∷ rows)) eq
        (λ other. absurd (cc (sym other ∙ ==_refl b.id)), Others-ApartFrom b rows first)
  | inr miss ↦
      let found' = rw miss at found in
      (λ other. Apart-sym b a (Apart-find p b rows first found'), Others-find p rows all found')
]

-- The same row with the same dates.
pub Others-kept :
    (dto : UpdateLtaAgreementDto) (a : LtaAgreement) (rows : List LtaAgreement)
    → dto.effective_date ≡ none
    → dto.expiry_date ≡ none
    → Others a rows
    → Others (updated_lta dto a) rows
Others-kept dto a [] h k others = tt
Others-kept dto a (b ∷ rows) h k (first, more) =
    (rw h (rw k first), Others-kept dto a rows h k more)

rival_clear :
    (tenant_id : Uuid) (a b : LtaAgreement)
    → a.tenant_id ≡ tenant_id
    → is_overlapping tenant_id a.cpl_id a.effective_date a.expiry_date (some a.id) b ≡ false
    → are_rivals (record a { status = LtaAgreementStatus.active }) b ≡ true
    → meets a.effective_date a.expiry_date b.effective_date b.expiry_date ≡ false
rival_clear tenant_id a b same clear rivals = ground (arith, same)

-- Where no agreement of the CPL overlaps, the row may become active.
pub Others-activated :
    (tenant_id : Uuid) (a : LtaAgreement) (rows : List LtaAgreement)
    → a.tenant_id ≡ tenant_id
    → any_lta
        (select (is_overlapping tenant_id a.cpl_id a.effective_date a.expiry_date (some a.id)) rows)
      ≡ false
    → Others (record a { status = LtaAgreementStatus.active }) rows
Others-activated tenant_id a [] same h = tt
Others-activated tenant_id a (b ∷ rows) same h =
    elim (Bool-cases
      (is_overlapping tenant_id a.cpl_id a.effective_date a.expiry_date (some a.id) b)) [
        | inl meeting ↦ absurd (cc (rw meeting at h))
        | inr clear ↦ (
          λ other rivals e f day he hf begun lasting behind.
              no_common_day a.effective_date e b.effective_date f day
                (rw (← he) (rw (← hf) (rival_clear tenant_id a b same clear rivals))) begun lasting
                behind,
          Others-activated tenant_id a rows same (rw clear at h),
        )
      ]
