-- ===== src/Agreements/Service/Machine.antt =====
-- The life cycle of an agreement as an abstract machine, and the service as an implementation of
-- it.
pub mod Runs
use mathlib.Core.Path.{subst}
use mathlib.Core.Option
use collmind_backend.Base.{
  ℕ, ◌+◌, ◌≤◌, ◌<◌, ◌≡◌, refl, ap, ◌∙◌, sym, Bool, true, false, ◌&&◌, Option, none, some, List, [],
  ◌∷◌, Uuid, Text, arith, ◌==◌, inl, inr, Bool-cases, Option-cases, if◌then◌else◌, eq_of_==,
  &&_parts,
}
use collmind_backend.Entities.Agreement.{
  Agreement, AgreementStatus, same_agreement_status, same_agreement_status_sound, is_running,
}
use collmind_backend.Db.{Db, Action, Result, ok, err, ◌>>◌, return, or_throw}
use collmind_backend.Db.Ends.{Ends, returns, throws, weaken, bind_rule}
use collmind_backend.Agreements.Repository.{
  find_agreement, with_agreement, find_agreement-same, find-with_agreement, find-with_agreement_ne,
  find-soft_delete, KeepsAgreement,
}
use collmind_backend.Agreements.Service.{
  get_agreement, submit_agreement, approve_agreement, reject_agreement, cancel_agreement,
  delete_agreement,
}
use collmind_backend.Agreements.Service.Outcome.{
  submit_agreement_outcome, reject_agreement_outcome, cancel_agreement_outcome,
  delete_agreement_outcome,
}
use collmind_backend.Agreements.Service.Approve.{approve_agreement_outcome}

pub data Operation : Type 0 where
  submit approve reject cancel delete : Operation

-- An agreement's status; a deleted or missing agreement has none.
abbrev pub Stage : Type 0
Stage = Option AgreementStatus

-- The transitions of the abstract machine.
pub data Step : Operation → Stage → Stage → Type 0 where
  submitted : Step Operation.submit (some AgreementStatus.draft) (some AgreementStatus.pending)
  approved : Step Operation.approve (some AgreementStatus.pending) (some AgreementStatus.approved)
  rejected : Step Operation.reject (some AgreementStatus.pending) (some AgreementStatus.rejected)
  cancelled : Step Operation.cancel (some AgreementStatus.approved) (some AgreementStatus.cancelled)
  stopped : Step Operation.cancel (some AgreementStatus.active) (some AgreementStatus.cancelled)
  deleted : Step Operation.delete (some AgreementStatus.draft) none

-- A request to the service.
pub record Command : Type 0 where
  pub operation : Operation
  pub id : Uuid
  pub tenant_id : Uuid
  pub user_id : Uuid
  pub comments : Option Text
  pub reason : Text

abbrev pub perform : Operation → Command → Action (Unit {0})
perform Operation.submit c = submit_agreement c.id c.tenant_id c.user_id >> return tt
perform Operation.approve c = approve_agreement c.id c.tenant_id c.user_id c.comments >> return tt
perform Operation.reject c = reject_agreement c.id c.tenant_id c.user_id c.reason >> return tt
perform Operation.cancel c = cancel_agreement c.id c.tenant_id c.user_id >> return tt
perform Operation.delete c = delete_agreement c.id c.tenant_id c.user_id

abbrev pub call : Command → Action (Unit {0})
call c = perform c.operation c

unfoldable pub stage_of : Uuid → Uuid → Db → Stage
stage_of id tenant_id db = Option.map (λ a. a.status) (find_agreement id tenant_id db)

abbrev pub is_of : Uuid → Uuid → Command → Bool
is_of id tenant_id c = (id == c.id) && (tenant_id == c.tenant_id)

stage-same :
    (id tenant_id : Uuid) (db db' : Db)
    → db'.agreements ≡ db.agreements
    → stage_of id tenant_id db' ≡ stage_of id tenant_id db
unfolding stage_of
stage-same id tenant_id db db' same = rw (find_agreement-same id tenant_id db db' same) refl

-- Every agreement but the command's keeps its stage.
abbrev pub OthersKeep : Command → Db → Db → Type 0
OthersKeep c db db' =
    (id tenant_id : Uuid)
    → is_of id tenant_id c ≡ false
    → stage_of id tenant_id db' ≡ stage_of id tenant_id db

abbrev pub AllKeep : Db → Db → Type 0
AllKeep db db' = (id tenant_id : Uuid) → stage_of id tenant_id db' ≡ stage_of id tenant_id db

-- What a call does to the stages.
abbrev pub Refines : Operation → Command → Db → Result (Unit {0}) × Db → Type 0
Refines operation c db r =
    Ends
      (λ _ db'.
        Step operation (stage_of c.id c.tenant_id db) (stage_of c.id c.tenant_id db')
        × OthersKeep c db db')
      (λ e db'. AllKeep db db') r

module _ (c : Command) (db : Db) (a : Agreement)
    (found : find_agreement c.id c.tenant_id db ≡ some a) where
  -- The row has moved to a new status.
  moves :
      (operation : Operation) (change : Agreement → Agreement) (db' : Db)
      → KeepsAgreement change
      → Step operation (some a.status) (some (change a).status)
      → db'.agreements ≡ (with_agreement c.id c.tenant_id change db).agreements
      → Step operation (stage_of c.id c.tenant_id db) (stage_of c.id c.tenant_id db')
        × OthersKeep c db db'
  unfolding stage_of
  moves operation change db' keeps step written =
      let after = with_agreement c.id c.tenant_id change db in
      let here =
        find_agreement-same c.id c.tenant_id after db' written
        ∙ find-with_agreement c.id c.tenant_id change db keeps found in
      (
        rw (found, here) step,
        λ id tenant_id other. ap (Option.map (λ b. b.status)) (
            find_agreement-same id tenant_id after db' written
            ∙ find-with_agreement_ne c.id c.tenant_id change db id tenant_id other
                (λ b. ((keeps b).0, (keeps b).1))),
      )

  removes :
      (operation : Operation) (db' : Db)
      → Step operation (some a.status) none
      → db' ≡ with_agreement c.id c.tenant_id (λ b. record b { deleted = true }) db
      → Step operation (stage_of c.id c.tenant_id db) (stage_of c.id c.tenant_id db')
        × OthersKeep c db db'
  unfolding stage_of
  removes operation db' step written =
      let change = λ (b : Agreement). record b { deleted = true } in
      rw written (
        rw (found, find-soft_delete c.id c.tenant_id db) step,
        λ id tenant_id other. ap (Option.map (λ b. b.status)) (
            find-with_agreement_ne c.id c.tenant_id change db id tenant_id other
              (λ b. (refl, refl))),
      )

  from :
      (operation : Operation) (s : AgreementStatus) (t : Stage)
      → same_agreement_status a.status s ≡ true
      → Step operation (some s) t
      → Step operation (some a.status) t
  from operation s t same step = rw (same_agreement_status_sound a.status s same) step

  -- Both statuses of a running agreement can be cancelled.
  from_running :
      (s : AgreementStatus)
      → is_running s ≡ true
      → Step Operation.cancel (some s) (some AgreementStatus.cancelled)
  from_running AgreementStatus.approved running = cancelled
  from_running AgreementStatus.active running = stopped
  from_running _ running = absurd (ground arith)

  present : (operation : Operation) → Refines operation c db (perform operation c db)
  present Operation.submit = bind_rule _ (
      weaken
        (λ b d (draft, (row, written), _).
          returns (moves _ _ d (λ b. (refl, refl, refl)) (from _ _ _ draft submitted) written))
        (λ e d same id tenant_id. stage-same id tenant_id db d (ap (λ d. d.agreements) same))
        (submit_agreement_outcome c.id c.tenant_id c.user_id db a found))
  present Operation.approve = bind_rule _ (
      weaken
        (λ b d done.
          returns
            (moves _ _ d (λ b. (refl, refl, refl)) (from _ _ _ (done.was) approved) (done.row.1)))
        (λ e d f id tenant_id. stage-same id tenant_id db d f.agreements)
        (approve_agreement_outcome c.id c.tenant_id c.user_id db a c.comments found))
  present Operation.reject = bind_rule _ (
      weaken
        (λ b d (pending, (row, written), _, _, _).
          returns (moves _ _ d (λ b. (refl, refl, refl)) (from _ _ _ pending rejected) written))
        (λ e d same id tenant_id. stage-same id tenant_id db d (ap (λ d. d.agreements) same))
        (reject_agreement_outcome c.id c.tenant_id c.user_id db a c.reason found))
  present Operation.cancel = bind_rule _ (
      weaken
        (λ b d (running, (row, written)).
          returns (moves _ _ d (λ b. (refl, refl, refl)) (from_running a.status running) written))
        (λ e d f id tenant_id. stage-same id tenant_id db d f.agreements)
        (cancel_agreement_outcome c.id c.tenant_id c.user_id db a found))
  present Operation.delete =
      weaken (λ _ d (draft, written). removes _ d (from _ _ _ draft deleted) written)
        (λ e d same id tenant_id. stage-same id tenant_id db d (ap (λ d. d.agreements) same))
        (delete_agreement_outcome c.id c.tenant_id c.user_id db a found)

-- A call on an agreement that the tenant does not have throws at once.
missing :
    (operation : Operation) (c : Command) (db : Db)
    → find_agreement c.id c.tenant_id db ≡ none
    → Refines operation c db (perform operation c db)
unfolding submit_agreement approve_agreement reject_agreement cancel_agreement delete_agreement
    get_agreement or_throw
missing Operation.submit c db absent = rw absent (throws (λ id tenant_id. refl))
missing Operation.approve c db absent = rw absent (throws (λ id tenant_id. refl))
missing Operation.reject c db absent = rw absent (throws (λ id tenant_id. refl))
missing Operation.cancel c db absent = rw absent (throws (λ id tenant_id. refl))
missing Operation.delete c db absent = rw absent (throws (λ id tenant_id. refl))

-- The service implements the abstract machine. A call that returns moves its agreement by the
-- machine's transition for that operation and leaves the status of every other agreement; a call
-- that throws leaves every status.
pub call-Refines : (c : Command) (db : Db) → Refines c.operation c db (call c db)
call-Refines c db = elim (Option-cases (find_agreement c.id c.tenant_id db)) [
  | inl absent ↦ missing c.operation c db absent
  | inr (a, found) ↦ present c db a found c.operation
]
