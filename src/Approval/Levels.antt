-- ===== src/Approval/Levels.antt =====
-- The levels of a request, approved in turn: after as many approvals as there are levels, and not
-- before, the request is approved.
use mathlib.Core.Path.{subst}
use collmind_backend.Base.{
  ℕ, zero, suc, ◌+◌, ◌≤◌, ◌<◌, ◌≡◌, refl, ◌≢◌, ap, Uuid, Text, true, false, Option, none, some,
  List, [], ◌∷◌, arith, ◌==◌, length, inl, inr, Bool-cases, ◌⊎◌,
}
use collmind_backend.Entities.Approval.{
  ApprovalRequest, RequestStatus, is_pending, Level, LevelStatus,
}
use collmind_backend.Db.{Db, Action, ok, return, ◌>>◌, or_throw, throw_if}
use collmind_backend.Approval.{
  find_request, find_by_id, approve, approved_row, approve_level, all_approved,
}
use collmind_backend.Approval.Rows.{with_row, update_request_lem, find-with_row}

-- The first `k` levels are approved and the others pending.
abbrev pub IsStaged : ℕ → List Level → Type 0
IsStaged zero [] = Unit
IsStaged zero (l ∷ ls) = (l.status ≡ LevelStatus.pending) × IsStaged zero ls
IsStaged (suc k) [] = ⊥
IsStaged (suc k) (l ∷ ls) = (l.status ≡ LevelStatus.approved) × IsStaged k ls

module _ (approver_id : Uuid) (now : ℕ) (comments : Option Text) where
  approve_level-cons :
      (k : ℕ) (l : Level) (ls : List Level)
      → approve_level approver_id now comments (suc (suc k)) (l ∷ ls)
        ≡ l ∷ approve_level approver_id now comments (suc k) ls
  approve_level-cons k l ls = ground arith

  length-approve_level :
      (k : ℕ) (ls : List Level)
      → length (approve_level approver_id now comments (suc k) ls) ≡ length ls
  length-approve_level k [] = refl
  length-approve_level zero (l ∷ ls) = refl
  length-approve_level (suc k) (l ∷ ls) =
      rw (approve_level-cons k l ls) (ap suc (length-approve_level k ls))

  approve_level-IsStaged :
      (k : ℕ) (ls : List Level)
      → IsStaged k ls
      → k < length ls
      → IsStaged (suc k) (approve_level approver_id now comments (suc k) ls)
  approve_level-IsStaged k [] h lt = elim lt [ ]
  approve_level-IsStaged zero (l ∷ ls) h lt = (refl, h.1)
  approve_level-IsStaged (suc k) (l ∷ ls) h lt =
      rw (approve_level-cons k l ls) (h.0, approve_level-IsStaged k ls h.1 (omega arith))

-- All levels are approved exactly when the stage is the number of levels.
all_approved-IsStaged :
    (k : ℕ) (ls : List Level) → IsStaged k ls → all_approved ls ≡ (k == length ls)
all_approved-IsStaged zero [] h = refl
all_approved-IsStaged zero (l ∷ ls) h = ground arith
all_approved-IsStaged (suc k) [] h = absurd h
all_approved-IsStaged (suc k) (l ∷ ls) h = ground (arith, all_approved-IsStaged k ls h.1)

-- The request waits for its level `k + 1`.
pub record Waits (k : ℕ) (r : ApprovalRequest) : Type 0 where
  pub pending : r.status ≡ RequestStatus.pending
  pub current : r.current_level ≡ suc k
  pub more : k < length r.approval_levels
  pub staged : IsStaged k r.approval_levels

-- After `k` approvals of a request with `n` levels: it waits for the next level, or it is approved
-- and so are all its levels.
abbrev pub Reached : ℕ → ℕ → ApprovalRequest → Type 0
Reached k n r =
    (length r.approval_levels ≡ n)
    × ((k < n) × Waits k r
        ⊎ (k ≡ n) × (r.status ≡ RequestStatus.approved) × (all_approved r.approval_levels ≡ true))

approved_row-Reached :
    (approver_id : Uuid) (now : ℕ) (comments : Option Text) (k : ℕ) (r : ApprovalRequest)
    → Waits k r
    → Reached (suc k) (length r.approval_levels) (approved_row approver_id now comments r r)
unfolding approved_row
approved_row-Reached approver_id now comments k r w =
    let ls = approve_level approver_id now comments r.current_level r.approval_levels in
    let same : length ls ≡ length r.approval_levels =
      rw w.current (length-approve_level approver_id now comments k r.approval_levels) in
    let staged : IsStaged (suc k) ls =
      rw w.current
        (approve_level-IsStaged approver_id now comments k r.approval_levels w.staged w.more) in
    let full = all_approved-IsStaged (suc k) ls staged in
    elim (Bool-cases (all_approved ls)) [
      | inl done ↦ (same, inr (ground (arith, w.more), rw done refl, done))
      | inr open_level ↦ (
        same,
        inl (
          ground (arith, w.more),
          record {
            pending = rw open_level refl;
            current = ground (arith, w.more, w.current);
            more = ground (arith, w.more);
            staged = staged;
          },
        ),
      )
    ]

-- Approvals in turn by a list of users.
pub approve_each : Uuid → Uuid → List Uuid → Action (Unit {0})
approve_each id tenant_id [] = return tt
approve_each id tenant_id (u ∷ us) = approve id tenant_id u none >> approve_each id tenant_id us

abbrev pub NoneIs : Uuid → List Uuid → Type 0
NoneIs requester [] = Unit
NoneIs requester (u ∷ us) = (requester ≢ u) × NoneIs requester us

-- A pending request is approved by anyone but its requester.
pub approve_lem :
    (id tenant_id approver_id : Uuid) (comments : Option Text) (db : Db) {r : ApprovalRequest}
    → find_request id tenant_id db ≡ some r
    → is_pending r.status ≡ true
    → r.requested_by_id ≢ approver_id
    → approve id tenant_id approver_id comments db ≡ (
      ok (approved_row approver_id db.now comments r r),
      with_row id tenant_id (approved_row approver_id db.now comments r) db,
    )
unfolding approve find_by_id or_throw throw_if
approve_lem id tenant_id approver_id comments db {r} found pending other =
    let apart : (r.requested_by_id == approver_id) ≡ false = ground arith in
    rw found (
      rw pending (
        rw apart (
          update_request_lem id tenant_id (approved_row approver_id db.now comments r)
            (λ row. unfold approved_row in (refl, refl, refl)) db found)))

-- Users other than the requester approve a request that waits for level `k + 1`, at most as many
-- as levels are left: every approval goes through, and the request stands at level
-- `k + length users`: it waits for the next one, or is approved if that was the last.
pub approve_each-Reached :
    (id tenant_id : Uuid) (users : List Uuid) (k n : ℕ) (db : Db) (r : ApprovalRequest)
    → find_request id tenant_id db ≡ some r
    → Reached k n r
    → NoneIs r.requested_by_id users
    → k + length users ≤ n
    → (r' : ApprovalRequest) × (db' : Db) × (approve_each id tenant_id users db ≡ (ok tt, db'))
      × (find_request id tenant_id db' ≡ some r')
      × Reached (k + length users) n r'
unfolding approve_each
approve_each-Reached id tenant_id [] k n db r found at others le =
    (r, db, refl, found, subst (λ m. Reached m n r) (omega arith) at)
approve_each-Reached id tenant_id (u ∷ us) k n db r found (same, inr (full, _, _)) others le =
    absurd (omega arith)
approve_each-Reached id tenant_id (u ∷ us) k n db r found (same, inl (lt, w)) others le =
    let row = approved_row u db.now none r in
    let db₁ = with_row id tenant_id row db in
    let step = approve_lem id tenant_id u none db found (rw w.pending refl) others.0 in
    let next : Reached (suc k) n (row r) = rw (← same) (approved_row-Reached u db.now none k r w) in
    let (r', db', ran, found', reached) =
      approve_each-Reached id tenant_id us (suc k) n db₁ (row r)
        (find-with_row id tenant_id row (λ s. unfold approved_row in (refl, refl, refl)) db found)
        next (unfold approved_row in others.1) (omega arith) in
    (r', db', rw step ran, found', subst (λ m. Reached m n r') (omega arith) reached)
