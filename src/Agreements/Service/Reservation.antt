-- ===== src/Agreements/Service/Reservation.antt =====
-- The budget of an agreement: what a refused approval leaves behind, and the way back by `cancel`.
pub mod Return
use collmind_backend.Base.{
  every, &&_parts, eq_of_==, ◌==◌, Option-cases, [], ◌≡◌, refl, sym, ap, ◌∙◌, true, false, Option,
  none, some, List, ◌∷◌, Uuid, Text, arith, int_laws, ℤ, pos, ◌-ℤ◌, exists, inl, inr, ==_refl,
}
use collmind_backend.Entities.Budget.{Envelope, Transaction, TxType, SourceType}
use collmind_backend.Entities.Approval.{ApprovalRequest, is_pending}
use collmind_backend.Entities.Agreement.{
  Agreement, AgreementStatus, same_agreement_status, is_running,
}
use collmind_backend.Db.{Db, Error, ok, err, own_request, or_throw, throw_if, try_wrap}
use collmind_backend.Db.Ends.{returned}
use collmind_backend.Approval
use collmind_backend.Approval.{find_request, find_by_id}
use collmind_backend.Budget.Repository.{
  find_envelope_by_dimensions, find_transaction_by_idempotency_key, same_key, available_amount,
  reserved_amount, consumed_amount,
}
use collmind_backend.Budget.Repository.Summary.{insert_transaction, stored, available-insert}
use collmind_backend.Budget.Service.{
  key, reserve_for_agreement, release_for_agreement, existing_posting,
}
use collmind_backend.Budget.Service.Agreement.{
  earlier, earlier_by_key, Reserved, reservation_in, reserve_for_agreement_outcome, release_of,
  release_for_agreement_free,
}
use collmind_backend.Budget.Service.Frame.{Reserved-Frame}
use collmind_backend.Agreements.Repository.{
  find_agreement, with_agreement, find_agreement-same, find-with_agreement, KeepsAgreement,
  update_status, update_agreement_lem, found_agreement_id,
}
use collmind_backend.Agreements.Service.{
  get_agreement, approve_agreement, approved_fields, reject_agreement, rejected_fields,
  submit_agreement, delete_agreement, cancel_agreement, cancelled_fields, with_channel,
  release_reservation,
}
use collmind_backend.Agreements.Service.Outcome.{moved, Moved, reject_agreement_outcome}
use collmind_backend.Agreements.Service.Approve.{ApprovedAt, approve_agreement_outcome}
use collmind_backend.Agreements.Service.Machine.{Command, Operation, perform, call, is_of, stage_of}
use collmind_backend.Agreements.Service.Machine.Runs.{run, ended_absorbs, age}
use collmind_backend.Plans.Review.Request.{find_request-same}

-- What is available is read from the transactions and the ledger alone.
pub available-same :
    (e : Envelope) (db db' : Db)
    → db'.transactions ≡ db.transactions
    → db'.ledger_entries ≡ db.ledger_entries
    → available_amount e db' ≡ available_amount e db
unfolding available_amount
available-same e db db' same same_ledger = rw (same, same_ledger) refl

-- A user who approves a request of their own is refused.
own_approval :
    (id tenant_id : Uuid) (comments : Option Text) (db : Db) (r : ApprovalRequest)
    → find_request id tenant_id db ≡ some r
    → is_pending r.status ≡ true
    → Approval.approve id tenant_id r.requested_by_id comments db
      ≡ (err (Error.forbidden own_request), db)
unfolding Approval.approve find_by_id or_throw throw_if
own_approval id tenant_id comments db r found pending =
    rw found (rw pending (rw (==_refl r.requested_by_id)))

-- No reservation of the agreement is posted, and none is kept under its key.
abbrev pub NoReservation : Uuid → Uuid → Db → Type 0
NoReservation agreement_id tenant_id db =
    (existing_posting tenant_id SourceType.agreement agreement_id TxType.reserve db ≡ none)
    × (find_transaction_by_idempotency_key tenant_id
          (key TxType.reserve SourceType.agreement agreement_id none) db
        ≡ none)

-- An approval that reserves and whose request then refuses the user.
refused :
    (id tenant_id : Uuid) (a : Agreement) (channel : Text) (r : ApprovalRequest)
    (comments : Option Text) (tx : Transaction) (db d1 : Db)
    → find_agreement id tenant_id db ≡ some a
    → same_agreement_status a.status AgreementStatus.pending ≡ true
    → a.channel_code ≡ some channel
    → a.approval_request_id ≡ some r.id
    → reserve_for_agreement a.id a.cap_total_amount channel a.period_month a.currency tenant_id
        r.requested_by_id db
      ≡ (ok tx, d1)
    → Approval.approve r.id tenant_id r.requested_by_id comments d1
      ≡ (err (Error.forbidden own_request), d1)
    → approve_agreement id tenant_id r.requested_by_id comments db
      ≡ (err (Error.forbidden own_request), d1)
unfolding approve_agreement get_agreement with_channel try_wrap or_throw throw_if
refused id tenant_id a channel r comments tx db d1 found pending in_channel named reserved refusal =
    rw found (rw pending (rw named (rw in_channel (rw reserved (rw refusal refl)))))

-- The stage of an agreement whose row has moved.
moved_stage :
    (id tenant_id : Uuid) (a : Agreement) (change : Agreement → Agreement) (db db' : Db)
    → find_agreement id tenant_id db ≡ some a
    → KeepsAgreement change
    → db'.agreements ≡ (with_agreement id tenant_id change db).agreements
    → stage_of id tenant_id db' ≡ some (change a).status
unfolding stage_of
moved_stage id tenant_id a change db db' found keeps written =
    rw
      (
        find_agreement-same id tenant_id (with_agreement id tenant_id change db) db' written,
        find-with_agreement id tenant_id change db keeps found,
      )
      refl

-- A rejection leaves the budget as it was, and the agreement rejected.
rejected_budget :
    (id tenant_id rejector : Uuid) (reason : Text) (a a' : Agreement) (db db' : Db) (f : Envelope)
    → find_agreement id tenant_id db ≡ some a
    → reject_agreement id tenant_id rejector reason db ≡ (ok a', db')
    → (stage_of id tenant_id db' ≡ some AgreementStatus.rejected)
      × (available_amount f db' ≡ available_amount f db)
rejected_budget id tenant_id rejector reason a a' db db' f found h =
    let (_, (_, written), _, same, same_ledger) =
      returned (reject_agreement_outcome id tenant_id rejector db a reason found) h in
    (
      moved_stage id tenant_id a
          (moved AgreementStatus.rejected (rejected_fields db.now rejector reason)) db db' found
          (λ b. (refl, refl, refl)) written,
      available-same f db db' same same_ledger,
    )

-- Each call of the life cycle is refused for a rejected agreement, and changes nothing.
refused_call :
    (operation : Operation) (c : Command) (d : Db) (b : Agreement)
    → find_agreement c.id c.tenant_id d ≡ some b
    → b.status ≡ AgreementStatus.rejected
    → (perform operation c d).1 ≡ d
unfolding submit_agreement approve_agreement reject_agreement cancel_agreement delete_agreement
    get_agreement or_throw throw_if
refused_call Operation.submit c d b found rejected = rw found (rw rejected refl)
refused_call Operation.approve c d b found rejected = rw found (rw rejected refl)
refused_call Operation.reject c d b found rejected = rw found (rw rejected refl)
refused_call Operation.cancel c d b found rejected = rw found (rw rejected refl)
refused_call Operation.delete c d b found rejected = rw found (rw rejected refl)

row_at :
    (id tenant_id : Uuid) (d : Db) (s : AgreementStatus)
    → stage_of id tenant_id d ≡ some s
    → (b : Agreement) × (find_agreement id tenant_id d ≡ some b) × (b.status ≡ s)
unfolding stage_of
row_at id tenant_id d s stage = elim (Option-cases (find_agreement id tenant_id d)) [
  | inl missing ↦ absurd (let k = rw missing at stage in cc)
  | inr (b, found) ↦ (b, found, let k = rw found at stage in cc)
]

-- Calls on a rejected agreement leave the database as it was.
calls_refused :
    (id tenant_id : Uuid) (cs : List Command) (d : Db)
    → stage_of id tenant_id d ≡ some AgreementStatus.rejected
    → every (is_of id tenant_id) cs ≡ true
    → run cs d ≡ d
calls_refused id tenant_id [] d stage own = refl
calls_refused id tenant_id (c ∷ cs) d stage own =
    let (mine, rest) = &&_parts (is_of id tenant_id c) (every (is_of id tenant_id) cs) own in
    let (same_id, same_tenant) = &&_parts (id == c.id) (tenant_id == c.tenant_id) mine in
    let (b, found, rejected) = row_at id tenant_id d AgreementStatus.rejected stage in
    let kept : (call c d).1 ≡ d =
      refused_call c.operation c d b
        (rw (← eq_of_== id c.id same_id, ← eq_of_== tenant_id c.tenant_id same_tenant) found)
        rejected in
    ap (run cs) kept ∙ calls_refused id tenant_id cs d stage rest

module _ (id tenant_id : Uuid) (a : Agreement) (channel : Text) (db : Db) where
  -- The posting that an approval asks for.
  abbrev pub wanted : Uuid → Envelope → Transaction
  wanted user_id =
      reservation_in a.id a.cap_total_amount channel a.period_month a.currency tenant_id user_id

  takes_cap :
      (user_id : Uuid) (e f : Envelope)
      → f.id ≡ e.id
      → available_amount f (insert_transaction (wanted user_id e) db)
        ≡ available_amount f db -ℤ a.cap_total_amount
  takes_cap user_id e f own = grind (int_laws, available-insert f (wanted user_id e) db)

  -- A first reservation is one new row.
  pub first_one :
      (user_id : Uuid) (tx : Transaction) (d1 : Db)
      → NoReservation a.id tenant_id db
      → Reserved a.id a.cap_total_amount channel a.period_month a.currency tenant_id user_id tx db
          d1
      → (e : Envelope) × (find_envelope_by_dimensions tenant_id channel a.period_month none db
          ≡ some e)
        × (tx ≡ stored (wanted user_id e) db)
        × (d1 ≡ insert_transaction (wanted user_id e) db)
  first_one user_id tx d1 (first, fresh) done = elim done [
    | inl (same, inl found) ↦ absurd (cc)
    | inl (same, inr found) ↦ absurd (cc)
    | inr (_, (e, covered, made, stored_one)) ↦ (e, covered.found, made, stored_one)
  ]

  pub first_takes :
      (user_id : Uuid) (tx : Transaction) (d1 : Db) (f : Envelope)
      → NoReservation a.id tenant_id db
      → Reserved a.id a.cap_total_amount channel a.period_month a.currency tenant_id user_id tx db
          d1
      → f.id ≡ tx.envelope_id
      → available_amount f d1 ≡ available_amount f db -ℤ a.cap_total_amount
  first_takes user_id tx d1 f first done own =
      let (e, _, made, stored_one) = first_one user_id tx d1 first done in
      rw stored_one (takes_cap user_id e f (own ∙ ap (λ t. t.envelope_id) made))

  -- The requester approves, and another user then rejects: the approval is refused, but only after
  -- the budget was reserved, and the rejection does not release it. The envelope of the reservation
  -- has the cap of the agreement less. The agreement is rejected and stays so whatever calls of the
  -- life cycle are made on any agreements, and after any such calls on it, `cancel` among them, the
  -- envelope still has the cap less. Assumed is that the reservation
  -- is the agreement's first and goes through, and that the rejection does.
  pub refused_approval_leaks :
      (r : ApprovalRequest) (comments : Option Text) (tx : Transaction) (d1 : Db) (rejector : Uuid)
      (reason : Text) (a' : Agreement) (d2 : Db) (f : Envelope)
      → find_agreement id tenant_id db ≡ some a
      → same_agreement_status a.status AgreementStatus.pending ≡ true
      → a.channel_code ≡ some channel
      → a.approval_request_id ≡ some r.id
      → find_request r.id tenant_id db ≡ some r
      → is_pending r.status ≡ true
      → NoReservation a.id tenant_id db
      → reserve_for_agreement a.id a.cap_total_amount channel a.period_month a.currency tenant_id
          r.requested_by_id db
        ≡ (ok tx, d1)
      → reject_agreement id tenant_id rejector reason d1 ≡ (ok a', d2)
      → f.id ≡ tx.envelope_id
      → (approve_agreement id tenant_id r.requested_by_id comments db
          ≡ (err (Error.forbidden own_request), d1))
        × (available_amount f d2 ≡ available_amount f db -ℤ a.cap_total_amount)
        × ((cs : List Command) → stage_of id tenant_id (run cs d2) ≡ some AgreementStatus.rejected)
        × ((cs : List Command)
            → every (is_of id tenant_id) cs ≡ true
            → available_amount f (run cs d2) ≡ available_amount f db -ℤ a.cap_total_amount)
  refused_approval_leaks r comments tx d1 rejector reason a' d2 f found pending in_channel named
        queued open_request first reserved rejected own =
      let done =
        returned
          (reserve_for_agreement_outcome a.id a.cap_total_amount channel a.period_month a.currency
            tenant_id r.requested_by_id db)
          reserved in
      let frame =
        Reserved-Frame a.id a.cap_total_amount channel a.period_month a.currency tenant_id
          r.requested_by_id tx db d1 done in
      let (stage, kept) =
        rejected_budget id tenant_id rejector reason a a' d1 d2 f
          (find_agreement-same id tenant_id db d1 frame.agreements ∙ found) rejected in
      (
        refused id tenant_id a channel r comments tx db d1 found pending in_channel named reserved (
            own_approval r.id tenant_id comments d1 r
              (find_request-same r.id tenant_id db d1 frame.requests ∙ queued) open_request),
        kept ∙ first_takes r.requested_by_id tx d1 f first done own,
        λ cs. ended_absorbs id tenant_id cs d2 (ap age stage) ∙ stage,
        λ cs on_it.
            ap (available_amount f) (calls_refused id tenant_id cs d2 stage on_it)
            ∙ kept
            ∙ first_takes r.requested_by_id tx d1 f first done own,
      )
