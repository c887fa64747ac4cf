-- ===== src/Agreements/Service/Machine/Runs.antt =====
-- Sequences of calls of the agreement service.
use collmind_backend.Base.{
  ℕ, ◌+◌, ◌≤◌, ◌<◌, ◌≡◌, refl, ap, ◌∙◌, false, none, some, List, [], ◌∷◌, Uuid, arith, inl, inr,
  Bool-cases, if◌then◌else◌, eq_of_==, &&_parts, ◌==◌,
}
use collmind_backend.Entities.Agreement.{AgreementStatus}
use collmind_backend.Db.{Db, Result, ok, err}
use collmind_backend.Db.Ends.{Ends, returns, throws}
use collmind_backend.Agreements.Service.Machine.{
  Operation, Stage, Step, Command, call, stage_of, is_of, OthersKeep, AllKeep, call-Refines,
}

-- The requests are served one after the other. One that throws leaves what it wrote.
abbrev pub run : List Command → Db → Db
run [] db = db
run (c ∷ cs) db = run cs ((call c db).1)

-- Any number of transitions of the abstract machine.
pub data Reaches : Stage → Stage → Type 0 where
  here : {s : Stage} → Reaches s s
  step : {operation : Operation} {s t u : Stage} → Step operation s t → Reaches t u → Reaches s u

abbrev went_through : Result (Unit {0}) → ℕ
went_through (ok _) = 1
went_through (err _) = 0

-- How many of the calls of the life cycle on an agreement return.
abbrev pub passed : Uuid → Uuid → List Command → Db → ℕ
passed id tenant_id [] db = 0
passed id tenant_id (c ∷ cs) db =
    (if is_of id tenant_id c then went_through ((call c db).0) else 0)
    + passed id tenant_id cs ((call c db).1)

-- How far along its life an agreement is.
abbrev pub age : Stage → ℕ
age (some AgreementStatus.draft) = 0
age (some AgreementStatus.pending) = 1
age (some AgreementStatus.approved) = 2
age (some AgreementStatus.active) = 2
age _ = 3

age-Step : {operation : Operation} {s t : Stage} → Step operation s t → age s < age t
age-Step Step.submitted = omega arith
age-Step Step.approved = omega arith
age-Step Step.rejected = omega arith
age-Step Step.cancelled = omega arith
age-Step Step.stopped = omega arith
age-Step Step.deleted = omega arith

age_le : (s : Stage) → age s ≤ 3
age_le none = omega arith
age_le (some AgreementStatus.draft) = omega arith
age_le (some AgreementStatus.pending) = omega arith
age_le (some AgreementStatus.approved) = omega arith
age_le (some AgreementStatus.active) = omega arith
age_le (some AgreementStatus.closed) = omega arith
age_le (some AgreementStatus.rejected) = omega arith
age_le (some AgreementStatus.cancelled) = omega arith

-- One call, as one agreement sees it: a transition that counts, or nothing.
data Seen (s t : Stage) (n : ℕ) : Type 0 where
  same : t ≡ s → n ≡ 0 → Seen s t n
  moved : {operation : Operation} → Step operation s t → n ≡ 1 → Seen s t n

seen_own :
    (c : Command) (db : Db) (r : Result (Unit {0}) × Db)
    → Ends
        (λ _ db'.
          Step c.operation (stage_of c.id c.tenant_id db) (stage_of c.id c.tenant_id db')
          × OthersKeep c db db')
        (λ e db'. AllKeep db db')
        r
    → Seen (stage_of c.id c.tenant_id db) (stage_of c.id c.tenant_id (r.1)) (went_through (r.0))
seen_own c db r (returns (one, _)) = moved one refl
seen_own c db r (throws keeps) = same (keeps c.id c.tenant_id) refl

seen_other :
    (id tenant_id : Uuid) (c : Command) (db : Db) (r : Result (Unit {0}) × Db)
    → is_of id tenant_id c ≡ false
    → Ends
        (λ _ db'.
          Step c.operation (stage_of c.id c.tenant_id db) (stage_of c.id c.tenant_id db')
          × OthersKeep c db db')
        (λ e db'. AllKeep db db')
        r
    → stage_of id tenant_id (r.1) ≡ stage_of id tenant_id db
seen_other id tenant_id c db r other (returns (_, keeps)) = keeps id tenant_id other
seen_other id tenant_id c db r other (throws keeps) = keeps id tenant_id

module _ (id tenant_id : Uuid) where
  seen :
      (c : Command) (db : Db)
      → Seen
          (stage_of id tenant_id db)
          (stage_of id tenant_id ((call c db).1))
          (if is_of id tenant_id c then went_through ((call c db).0) else 0)
  seen c db = elim (Bool-cases (is_of id tenant_id c)) [
    | inl own ↦
        let (same_id, same_tenant) = &&_parts (id == c.id) (tenant_id == c.tenant_id) own in
        rw own (
          rw (eq_of_== id c.id same_id, eq_of_== tenant_id c.tenant_id same_tenant)
            (seen_own c db (call c db) (call-Refines c db)))
    | inr other ↦
        rw other (same (seen_other id tenant_id c db (call c db) other (call-Refines c db)) refl)
  ]

  -- Whatever calls are made, by any users and on any agreements, an agreement goes through
  -- transitions of the abstract machine.
  pub run_refines :
      (cs : List Command) (db : Db)
      → Reaches (stage_of id tenant_id db) (stage_of id tenant_id (run cs db))
  run_refines [] db = here
  run_refines (c ∷ cs) db = elim (seen c db) [
    | same kept _ ↦ rw kept at (run_refines cs ((call c db).1))
    | moved one _ ↦ step one (run_refines cs ((call c db).1))
  ]

  -- However many calls of `submit`, `approve`, `reject`, `cancel` and `delete` are made, at most
  -- three of those on one agreement return; from a pending
  -- agreement at most two, from an approved or active one at most one, and none from one that is
  -- closed, rejected, cancelled, deleted or missing.
  pub calls_bounded :
      (cs : List Command) (db : Db) → age (stage_of id tenant_id db) + passed id tenant_id cs db ≤ 3
  calls_bounded [] db = let low = age_le (stage_of id tenant_id db) in omega arith
  calls_bounded (c ∷ cs) db = elim (seen c db) [
    | same kept none_passed ↦
        let rest = calls_bounded cs ((call c db).1) in
        let as_old = ap age kept in rw none_passed (omega arith)
    | moved one passed_one ↦
        let rest = calls_bounded cs ((call c db).1) in
        let older = age-Step one in rw passed_one (omega arith)
  ]

  -- An agreement that is closed, rejected, cancelled, deleted or missing stays so, whatever calls
  -- are made.
  pub ended_absorbs :
      (cs : List Command) (db : Db)
      → age (stage_of id tenant_id db) ≡ 3
      → stage_of id tenant_id (run cs db) ≡ stage_of id tenant_id db
  ended_absorbs [] db ended = refl
  ended_absorbs (c ∷ cs) db ended = elim (seen c db) [
    | same kept _ ↦ ended_absorbs cs ((call c db).1) (ap age kept ∙ ended) ∙ kept
    | moved one _ ↦
        let older = age-Step one in
        let oldest = age_le (stage_of id tenant_id ((call c db).1)) in absurd (omega arith)
  ]
