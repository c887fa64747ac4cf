-- ===== src/Agreements/Service/Approve.antt =====
-- What `approve` leaves behind, on every way it ends.
use mathlib.Core.Path.{subst}
use collmind_backend.Base.{ℕ, ◌≡◌, refl, sym, ap, true, Option, none, some, Uuid, Text, arith}
use collmind_backend.Entities.Budget.{Transaction}
use collmind_backend.Entities.Agreement.{Agreement, AgreementStatus, same_agreement_status}
use collmind_backend.Db.{Db, or_throw}
use collmind_backend.Db.Ends.{
  Ends, returns, throws, weaken, bind_rule, or_throw_rule, or_throw_found, throw_if_rule,
  try_wrap_rule,
}
use collmind_backend.Budget.Service.Frame.{Frame, Frame-refl, Frame-trans, Frame-eq, Reserved-Frame}
use collmind_backend.Budget.Service.Agreement.{Reserved, reserve_for_agreement_outcome}
use collmind_backend.Budget.Service.{reserve_for_agreement}
use collmind_backend.Approval.{approved_row}
use collmind_backend.Approval.Rows.{with_row, approve_outcome}
use collmind_backend.Agreements.Repository.{find_agreement, found_agreement_id}
use collmind_backend.Agreements.Service.{
  get_agreement, approve_agreement, approved_fields, with_channel,
}
use collmind_backend.Agreements.Service.Outcome.{Moved, Closed, update_status_rule, Decided-Closed}

module _ (id tenant_id user_id : Uuid) (db : Db) (a : Agreement) where
  pub record ApprovedAt (now : ℕ) (comments : Option Text) (a' : Agreement) (db' : Db)
      : Type 0 where
    pub was : same_agreement_status a.status AgreementStatus.pending ≡ true
    pub row :
        Moved id tenant_id user_id db a AgreementStatus.approved
          (approved_fields now user_id)
          a'
          db'
    pub request : Closed id tenant_id user_id db a (approved_row user_id now comments) db'
    pub channel : Text
    pub in_channel : a.channel_code ≡ some channel
    pub reservation : Transaction
    pub between : Db
    pub reserved :
        Reserved a.id a.cap_total_amount channel a.period_month a.currency tenant_id user_id
          reservation db between
    pub kept : db'.transactions ≡ between.transactions
    pub ledger_kept : db'.ledger_entries ≡ between.ledger_entries
    pub envelopes_kept : db'.envelopes ≡ between.envelopes

  abbrev pub Approved : Option Text → Agreement → Db → Type 0
  Approved = ApprovedAt db.now

  at_now :
      {comments : Option Text} {a' : Agreement} {db' : Db} (now : ℕ)
      → now ≡ db.now
      → ApprovedAt now comments a' db'
      → Approved comments a' db'
  at_now {comments} {a'} {db'} now same = subst (λ n. ApprovedAt n comments a' db') same

  -- A reservation, with the tables that it leaves alone.
  reserve_outcome :
      (channel : Text)
      → Ends
          (λ tx db'.
            Frame db db'
            × Reserved a.id a.cap_total_amount channel a.period_month a.currency tenant_id user_id
                tx db db')
          (λ e db'. Frame db db')
          (reserve_for_agreement a.id a.cap_total_amount channel a.period_month a.currency tenant_id
            user_id db)
  reserve_outcome channel =
      weaken
        (λ tx db' done. (
          Reserved-Frame a.id a.cap_total_amount channel a.period_month a.currency tenant_id user_id
              tx db db' done,
          done,
        ))
        (λ e db' same. Frame-eq same)
        (reserve_for_agreement_outcome a.id a.cap_total_amount channel a.period_month a.currency
          tenant_id user_id db)

  -- The row that is read again is the same, so the channel is the one that it had.
  with_channel_outcome :
      (channel : Option Text)
      → find_agreement id tenant_id db ≡ some a
      → a.channel_code ≡ channel
      → Ends
          (λ (loaded, code) db'. (db' ≡ db) × (loaded ≡ a) × (a.channel_code ≡ some code))
          (λ e db'. db' ≡ db)
          (with_channel channel a tenant_id db)
  unfolding with_channel or_throw
  with_channel_outcome (some code) found has = returns (refl, refl, has)
  with_channel_outcome none found has =
      rw (found_agreement_id id tenant_id db found) (rw found (rw has (throws refl)))

  -- An approval of an agreement that the tenant has returns only for a pending agreement, whose
  -- pending request someone else has made. It leaves the agreement approved, the request with the
  -- row of that approval, and the cap of the agreement reserved, by an earlier reservation or by a
  -- new one. A new one is in an envelope whose available amount is not before the cap as a text,
  -- which does not say that it is as much. An approval that throws leaves the agreements, the requests and the plans as they
  -- were.
  pub approve_agreement_outcome :
      (comments : Option Text)
      → find_agreement id tenant_id db ≡ some a
      → Ends
          (Approved comments)
          (λ e db'. Frame db db')
          (approve_agreement id tenant_id user_id comments db)
  unfolding approve_agreement get_agreement
  approve_agreement_outcome comments found = or_throw_found _ _ _ db a found (
      throw_if_rule _ _ _ _ (λ other. Frame-refl db)
        λ pending.
          or_throw_rule _ _ _ _ (λ missing. Frame-refl db)
            λ request_id named. bind_rule _ (
              weaken
                (λ (loaded, code) d0 (same, is_a, in_channel).
                  rw (same, is_a)
                    (try_wrap_rule _ _
                      (reserve_for_agreement a.id a.cap_total_amount code a.period_month a.currency
                        tenant_id user_id)
                      db
                      (weaken
                        (λ tx d1 (f, reserved). bind_rule _ (
                          weaken
                            (λ r d2 d. rw (d.written) (
                              update_status_rule id tenant_id user_id db a AgreementStatus.approved
                                (approved_fields d1.now user_id)
                                (with_row request_id tenant_id
                                  (approved_row user_id d1.now comments d.before) d1)
                                (λ b. (refl, refl, refl)) found (f.agreements)
                                (λ row. at_now d1.now f.now (record {
                                  was = ground arith;
                                  row = row;
                                  request =
                                      Decided-Closed id tenant_id user_id db a _ request_id r d1 d2
                                        _ named f.requests d
                                        (sym (ap (λ e. e.requests) (d.written)));
                                  channel = code;
                                  in_channel = in_channel;
                                  reservation = tx;
                                  between = d1;
                                  reserved = reserved;
                                  kept = refl;
                                  ledger_kept = refl;
                                  envelopes_kept = refl;
                                }))))
                            (λ e d2 same. Frame-trans f (Frame-eq same))
                            (approve_outcome request_id tenant_id d1 user_id comments)))
                        (λ e d1 f. f) (reserve_outcome code))))
                (λ e d0 same. Frame-eq same) (with_channel_outcome a.channel_code found refl)))
