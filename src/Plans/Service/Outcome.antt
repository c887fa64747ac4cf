-- ===== src/Plans/Service/Outcome.antt =====
-- The approval and the rejection of a plan by the plan service.
use mathlib.Core.Path.{subst}
use collmind_backend.Base.{
  ℕ, ◌≡◌, ◌≢◌, refl, ap, ◌∙◌, Bool, true, false, Option, none, some, Uuid, Text, ℤ, arith,
}
use collmind_backend.Entities.Budget.{Envelope}
use collmind_backend.Entities.Approval.{ApprovalRequest}
use collmind_backend.Entities.Plan.{Plan, PlanStatus, same_status}
use collmind_backend.Db.{Db, Error, ok}
use collmind_backend.Db.Ends.{
  Ends, returns, throws, weaken, bind_rule, or_throw_rule, or_throw_found, throw_if_rule,
  try_wrap_rule,
}
use collmind_backend.Budget.Envelopes.{CreateEnvelopeDto, create_envelope, insert_envelope}
use collmind_backend.Budget.Service.Frame.{
  Frame, Frame-refl, Frame-trans, Framed, reserve_for_plan-Frame,
}
use collmind_backend.Approval.{approved_row, rejected_row}
use collmind_backend.Approval.Rows.{Decided, approve_outcome, reject_outcome}
use collmind_backend.Plans.Repository.{
  find_plan, KeepsPlan, update_plan, update_plan_lem, find-with_plan,
}
use collmind_backend.Plans.Submission.Frame.{find_plan-same}
use collmind_backend.Plans.Review.{approved_plan, rejected_plan}
use collmind_backend.Plans.Review.Request.{ClosedRequest, Closes-same}
use collmind_backend.Plans.Service.{find_by_id, approve, reject, ensure_envelope, auto_envelope}

create_envelope-Frame :
    (tenant_id : Uuid) (dto : CreateEnvelopeDto) (db : Db)
    → Framed db (create_envelope tenant_id dto db)
unfolding create_envelope insert_envelope
create_envelope-Frame tenant_id dto db =
    throw_if_rule _ _ _ _ (λ taken. Frame-refl db)
      λ free.
        throw_if_rule _ _ _ _ (λ taken. Frame-refl db)
          (λ saved. returns (record {
            plans = refl;
            requests = refl;
            histories = refl;
            agreements = refl;
            now = refl;
          }))

ensure_envelope-Frame :
    (o : Option Envelope) (auto : Bool) (plan : Plan) (tenant_id : Uuid) (amount : Option ℤ)
    (db : Db)
    → Framed db (ensure_envelope o auto plan tenant_id amount db)
unfolding ensure_envelope
ensure_envelope-Frame (some e) auto plan tenant_id amount db = returns (Frame-refl db)
ensure_envelope-Frame none true plan tenant_id amount db =
    bind_rule (λ _. λ d. (ok tt, d))
      (weaken (λ e d f. returns f) (λ e d f. f)
        (create_envelope-Frame tenant_id (auto_envelope plan amount) db))
ensure_envelope-Frame none false plan tenant_id amount db = throws (Frame-refl db)

module _ (id tenant_id user_id : Uuid) (db : Db) (plan : Plan) where
  -- The plan and its request after a decision of the plan service.
  abbrev pub Decides :
      (Plan → Plan) → (ApprovalRequest → ApprovalRequest → ApprovalRequest) → Plan → Db → Type 0
  Decides change close r db' =
      (same_status plan.status PlanStatus.pending_approval ≡ true)
      × (r ≡ change plan)
      × (find_plan id tenant_id db' ≡ some r)
      × ((request_id : Uuid) × (plan.approval_request_id ≡ some request_id)
          × ClosedRequest tenant_id (λ q. q.requested_by_id ≢ user_id) close request_id db db')

  finish :
      (E : Error → Db → Type 0) (change : ℕ → Plan → Plan)
      (close : ApprovalRequest → ApprovalRequest → ApprovalRequest) (request_id : Uuid) (d : Db)
      → ((n : ℕ) → KeepsPlan (change n))
      → find_plan id tenant_id db ≡ some plan
      → same_status plan.status PlanStatus.pending_approval ≡ true
      → plan.approval_request_id ≡ some request_id
      → d.plans ≡ db.plans
      → d.now ≡ db.now
      → ClosedRequest tenant_id (λ q. q.requested_by_id ≢ user_id) close request_id db d
      → Ends (Decides (change db.now) close) E (update_plan id tenant_id (change d.now) d)
  finish E change close request_id d keeps found pending named plans now closed =
      let here = find_plan-same id tenant_id db d plans ∙ found in
      rw (update_plan_lem id tenant_id (change d.now) (keeps d.now) d here) (
        returns (
          pending,
          ap (λ n. change n plan) now,
          find-with_plan id tenant_id (change d.now) (keeps d.now) d here,
          (
            request_id,
            named,
            Closes-same tenant_id (λ q. q.requested_by_id ≢ user_id) close (some request_id) db db d
                _ refl refl closed,
          ),
        ))

  -- What a decision on the request from a database with the same requests has closed.
  closed_by :
      (close : ApprovalRequest → ApprovalRequest → ApprovalRequest) (request_id : Uuid) (d d' : Db)
      (q : ApprovalRequest)
      → d.requests ≡ db.requests
      → Decided request_id tenant_id d (λ r. r.requested_by_id ≢ user_id) close q d'
      → ClosedRequest tenant_id (λ r. r.requested_by_id ≢ user_id) close request_id db d'
  closed_by close request_id d d' q same done =
      Closes-same tenant_id (λ r. r.requested_by_id ≢ user_id) close (some request_id) db d d' d'
        same refl
        (record {
          before = done.before;
          was_pending = done.was_pending;
          permitted = done.permitted;
          found = done.found;
          closed = done.read_back ∙ ap some done.changed;
        })

  -- The plan service rejects a pending plan that names a request, and the request with it, if
  -- someone else has made the request; or it throws and changes nothing.
  pub plan-reject_outcome :
      (reason : Text)
      → find_plan id tenant_id db ≡ some plan
      → Ends
          (Decides (rejected_plan db.now user_id reason) (rejected_row user_id db.now reason))
          (λ e db'. db' ≡ db)
          (reject id tenant_id user_id reason db)
  unfolding reject find_by_id
  plan-reject_outcome reason found = or_throw_found _ _ _ _ plan found (
      throw_if_rule _ _ _ _ (λ other. refl)
        λ pending.
          or_throw_rule _ _ _ _ (λ missing. refl)
            λ request_id named. bind_rule _ (
              weaken
                (λ q d closed.
                  finish (λ e db'. db' ≡ db) (λ n. rejected_plan n user_id reason)
                    (rejected_row user_id db.now reason) request_id d (λ n p. (refl, refl, refl))
                    found (ground arith) named (ap (λ x. x.plans) closed.written)
                    (ap (λ x. x.now) closed.written)
                    (closed_by (rejected_row user_id db.now reason) request_id db d q refl closed))
                (λ e d same. same) (reject_outcome request_id tenant_id db user_id reason)))

  -- The plan service approves a pending plan that names a request, and the request with it, if
  -- someone else has made the request; or it throws, and the plan's row is as it was.
  pub plan-approve_outcome :
      (comments : Option Text) (auto : Bool) (budget_amount : Option ℤ)
      → find_plan id tenant_id db ≡ some plan
      → Ends
          (Decides (approved_plan db.now user_id) (approved_row user_id db.now comments))
          (λ e db'. find_plan id tenant_id db' ≡ some plan)
          (approve id tenant_id user_id comments auto budget_amount db)
  unfolding approve find_by_id
  plan-approve_outcome comments auto budget_amount found =
      let still : (d : Db) → Frame db d → find_plan id tenant_id d ≡ some plan =
        λ d f. find_plan-same id tenant_id db d f.plans ∙ found in
      or_throw_found _ _ _ _ plan found (
        throw_if_rule _ _ _ _ (λ other. found)
          λ pending.
            or_throw_rule _ _ _ _ (λ missing. found)
              λ request_id named. bind_rule _ (
                weaken
                  (λ _ d1 f. try_wrap_rule _ _ _ _ (
                    weaken
                      (λ tx d2 g. bind_rule _ (
                        weaken
                          (λ q d3 closed.
                            finish (λ e db'. find_plan id tenant_id db' ≡ some plan)
                              (λ n. approved_plan n user_id) (approved_row user_id db.now comments)
                              request_id d3 (λ n p. (refl, refl, refl)) found (ground arith) named
                              (ap (λ x. x.plans) closed.written ∙ g.plans ∙ f.plans)
                              (ap (λ x. x.now) closed.written ∙ g.now ∙ f.now)
                              (subst
                                (λ n.
                                  ClosedRequest tenant_id (λ r. r.requested_by_id ≢ user_id)
                                    (approved_row user_id n comments) request_id db d3)
                                (g.now ∙ f.now)
                                (closed_by (approved_row user_id d2.now comments) request_id d2 d3 q
                                  (g.requests ∙ f.requests) closed)))
                          (λ e d3 same. rw same (still d2 (Frame-trans f g)))
                          (approve_outcome request_id tenant_id d2 user_id comments)))
                      (λ e d2 g. still d2 (Frame-trans f g))
                      (reserve_for_plan-Frame _ _ _ _ _ _ _ _ d1)))
                  (λ e d1 f. still d1 f)
                  (ensure_envelope-Frame _ auto plan tenant_id budget_amount db)))
