-- ===== src/Organizations/Pending.antt =====
-- The status of an invitation as the code computes it and as the query asks for it, and the pending
-- invitations of one address (domain/organizations/invitations.py).
use signalscope.Shared.{
  ℕ, ◌≤◌, ◌≡◌, inl, inr, true, false, ◌&&◌, none, List, [], ◌∷◌, arith, Result, ok, err, Bool-cases,
  is_some,
}
use signalscope.Shared.Text.{Text, text_eq→eq}
use signalscope.Shared.Rows.{find, update, count}
use signalscope.Shared.Rows.Counts.{count_of_none, count-update-le, count-le}
use signalscope.Organizations.Model.{User}
use signalscope.Organizations.Invitations.{
  InvitationRole, Invitation, InvitationStatus, pending, accepted, revoked, expired, is_status,
  invitation_status, is_open, status_condition, InvitationTables, InvitationError, is_pending_for,
  has_id,
}

-- For a row that the check constraint of the table allows, one that is not both accepted and
-- revoked, the condition of the query holds exactly if the code computes that status.
status_condition-eq :
    (s : InvitationStatus) (now : ℕ) (i : Invitation)
    → is_some i.accepted_at && is_some i.revoked_at ≡ false
    → status_condition s now i ≡ is_status (invitation_status i now) s
unfolding status_condition invitation_status is_open
status_condition-eq pending now i h = ground arith
status_condition-eq accepted now i h = ground arith
status_condition-eq revoked now i h = ground arith
status_condition-eq expired now i h = ground arith

-- What the service does, with the times at which it reads its clock.
pub data InvitationOp : Type 0 where
  create : User → ℕ → Text → InvitationRole → ℕ → ℕ → Text → ℕ → InvitationOp
  revoke : User → ℕ → ℕ → ℕ → ℕ → InvitationOp
  accept : User → Text → ℕ → ℕ → InvitationOp

abbrev pub time_of : InvitationOp → ℕ
time_of (create actor o email r invitation_days id token now) = now
time_of (revoke actor o i now later) = now
time_of (accept actor token now later) = now

-- The operations come in the order of their times, none before `t`.
abbrev pub InOrder : ℕ → List InvitationOp → Type 0
InOrder t [] = Unit
InOrder t (op ∷ ops) = (t ≤ time_of op) × InOrder (time_of op) ops

abbrev pub last_time : ℕ → List InvitationOp → ℕ
last_time t [] = t
last_time t (op ∷ ops) = last_time (time_of op) ops

-- At no time from `t` on does an address have two invitations to one organization that are pending.
abbrev pub OnePending : ℕ → List Invitation → Type 0
OnePending t rows =
    (o : ℕ) (email : Text) (now : ℕ) → t ≤ now → count (is_pending_for o email now) rows ≤ 1

abbrev pub or_rolled_back :
    InvitationTables → Result InvitationError InvitationTables → InvitationTables
or_rolled_back db (ok db') = db'
or_rolled_back db (err e) = db

pub OnePending-later :
    (t u : ℕ) (rows : List Invitation) → t ≤ u → OnePending t rows → OnePending u rows
OnePending-later t u rows le h o email now after = h o email now (omega arith)

-- A row that is pending was pending before.
pending_before :
    (o : ℕ) (email : Text) (t now : ℕ)
    → t ≤ now
    → (i : Invitation) → is_pending_for o email now i ≡ true
    → is_pending_for o email t i ≡ true
unfolding status_condition
pending_before o email t now le i h = ground arith

-- Rows that an update closes are pending no longer, and no others become so.
module _ (f : Invitation → Invitation)
    (closes : (o : ℕ) (email : Text) (now : ℕ) (i : Invitation)
      → is_pending_for o email now (f i) ≡ true
      → is_pending_for o email now i ≡ true) where
  pub OnePending-update :
      (t i : ℕ) (rows : List Invitation)
      → OnePending t rows
      → OnePending t (update (has_id i) f rows)
  OnePending-update t i rows h o email now after = omega (
    arith,
    count-update-le (has_id i) (is_pending_for o email now) f rows (closes o email now),
    h o email now after,
  )

pub OnePending-new :
    (t : ℕ) (i : Invitation) (rows : List Invitation)
    → find (is_pending_for i.organization_id i.normalized_email t) rows ≡ none
    → OnePending t rows
    → OnePending t (i ∷ rows)
unfolding count
OnePending-new t i rows absent h o email now after =
    elim (Bool-cases (is_pending_for o email now i)) [
      | inr n ↦ rw n (h o email now after)
      | inl y ↦
          let same_o : i.organization_id ≡ o = ground arith in
          let same_email : i.normalized_email ≡ email =
            text_eq→eq i.normalized_email email (ground arith) in
          let none_now : count (is_pending_for o email t) rows ≡ 0 =
            count_of_none (is_pending_for o email t) rows (rw (same_o, same_email) at absent) in
          rw y (
            omega (
              arith,
              none_now,
              count-le (is_pending_for o email now) (is_pending_for o email t) rows
                  (pending_before o email t now after),
            ))
    ]
