-- ===== src/Organizations/Joining.antt =====
-- What the operations on invitations test and write, and sequences of them
-- (domain/organizations/invitations.py).
use signalscope.Shared.{
  ℕ, ◌≤◌, ◌≡◌, ◌⊎◌, refl, inl, inr, true, false, none, some, List, [], ◌∷◌, arith, Result, ok, err,
  Bool-cases, Option-cases, Result-cases, is_some,
}
use signalscope.Shared.Text.{Text, text_eq, text_eq→eq}
use signalscope.Shared.Rows.{find, update}
use signalscope.Shared.Rows.Laws.{find-update, if_fits}
use signalscope.Organizations.Model.{User, is_owner, Membership, get_membership}
use signalscope.Users.Email.{normalize_email}
use signalscope.Organizations.Invitations.{
  InvitationRole, Invitation, pending, is_status, invitation_status, status_condition, is_open,
  InvitationTables, InvitationError, not_found, invalid_invitation, is_pending_for, has_id,
  has_hash, revoke_at, accept_at, new_invitation, create_invitation, revoke_invitation,
  accept_invitation, resolve_token, lock_organization, check_inviter, email_or_error,
  membership_role, record_invitation,
}
use signalscope.Organizations.Pending.{
  InvitationOp, create, revoke, accept, time_of, InOrder, last_time, OnePending, or_rolled_back,
  OnePending-later, OnePending-update, OnePending-new,
}

-- A revocation that returns leaves the rows as they are, or revokes one that nobody has accepted.
pub revoked_rows :
    (actor : User) (o i now later : ℕ) (db : InvitationTables) {db' : InvitationTables}
    → revoke_invitation actor o i now later db ≡ ok db'
    → (db'.invitations ≡ db.invitations)
      ⊎ ((r : Invitation) × (find (has_id i) db.invitations ≡ some r)
          × (is_some r.accepted_at ≡ false)
          × (db'.invitations ≡ update (has_id r.id) (revoke_at later) db.invitations))
unfolding revoke_invitation lock_organization check_inviter invitation_status
revoked_rows actor o i now later db h = elim (Option-cases (find (has_id i) db.invitations)) [
  | inl e ↦ absurd (ground arith)
  | inr (r, e) ↦ elim (Option-cases r.accepted_at) [
    | inr (t, y) ↦ absurd (ground arith)
    | inl n ↦ elim (Option-cases r.revoked_at) [
      | inr (t, y) ↦ inl (ground arith)
      | inl m ↦ inr (r, e, ground arith, ground arith)
    ]
  ]
]

module _ (nfkc casefold : Text → Text) (hash_token : Text → Text) where
  pub created_rows :
      (actor : User) (o : ℕ) (email : Text) (r : InvitationRole) (d id : ℕ) (token : Text) (now : ℕ)
      (db : InvitationTables) {db' : InvitationTables}
      → create_invitation nfkc casefold hash_token actor o email r d id token now db ≡ ok db'
      → (normalized : Text) × (find (is_pending_for o normalized now) db.invitations ≡ none)
        × (find (has_hash (hash_token token)) db.invitations ≡ none)
        × (db'.invitations
            ≡ new_invitation id o normalized r (hash_token token) d now actor ∷ db.invitations)
  unfolding create_invitation lock_organization check_inviter
  created_rows actor o email r d id token now db h =
      elim (Result-cases (email_or_error (normalize_email nfkc casefold email))) [
        | inr (x, e) ↦ absurd (ground arith)
        | inl (t, e) ↦ (t, ground arith, ground arith, ground arith)
      ]

  pub accepted_rows :
      (actor : User) (token : Text) (now later : ℕ) (db : InvitationTables) {db' : InvitationTables}
      → accept_invitation nfkc casefold hash_token actor token now later db ≡ ok db'
      → (i : Invitation) × (find (has_hash (hash_token token)) db.invitations ≡ some i)
        × (is_status (invitation_status i now) pending ≡ true)
        × (text_eq i.normalized_email actor.normalized_email ≡ true)
        × (get_membership i.organization_id actor.id db.base.members ≡ none)
        × (db'.base.members
            ≡ record {
              organization_id = i.organization_id;
              user_id = actor.id;
              role = membership_role i.role;
            }
              ∷ db.base.members)
        × (db'.invitations ≡ update (has_id i.id) (accept_at later) db.invitations)
  unfolding accept_invitation resolve_token record_invitation
  accepted_rows actor token now later db h =
      elim (Option-cases (find (has_hash (hash_token token)) db.invitations)) [
        | inl e ↦ absurd (ground arith)
        | inr (i, e) ↦ (i, e, ground arith, ground arith, ground arith, ground arith, ground arith)
      ]

  abbrev pub apply_invitation :
      InvitationOp → InvitationTables → Result InvitationError InvitationTables
  apply_invitation (create actor o email r d id token now) db =
      create_invitation nfkc casefold hash_token actor o email r d id token now db
  apply_invitation (revoke actor o i now later) db = revoke_invitation actor o i now later db
  apply_invitation (accept actor token now later) db =
      accept_invitation nfkc casefold hash_token actor token now later db

  unfoldable pub apply_invitations : List InvitationOp → InvitationTables → InvitationTables
  apply_invitations [] db = db
  apply_invitations (op ∷ ops) db =
      apply_invitations ops (or_rolled_back db (apply_invitation op db))

  apply-OnePending :
      (op : InvitationOp) (t : ℕ) (db : InvitationTables) {db' : InvitationTables}
      → t ≤ time_of op
      → apply_invitation op db ≡ ok db'
      → OnePending t db.invitations
      → OnePending (time_of op) db'.invitations
  unfolding new_invitation
  apply-OnePending (create actor o email r d id token now) t db le h one =
      let (normalized, absent, _, e) = created_rows actor o email r d id token now db h in
      rw e (
        OnePending-new now (new_invitation id o normalized r (hash_token token) d now actor)
          db.invitations absent (OnePending-later t now db.invitations le one))
  apply-OnePending (revoke actor o i now later) t db le h one =
      elim (revoked_rows actor o i now later db h) [
        | inl e ↦ rw e (OnePending-later t now db.invitations le one)
        | inr (r, _, _, e) ↦ rw e (
            OnePending-update (revoke_at later)
              (λ o' email now' i'.
                unfold revoke_at status_condition is_open in λ y. absurd (ground arith))
              now r.id db.invitations (OnePending-later t now db.invitations le one))
      ]
  apply-OnePending (accept actor token now later) t db le h one =
      let (i, _, _, _, _, _, e) = accepted_rows actor token now later db h in
      rw e (
        OnePending-update (accept_at later)
          (λ o' email now' i'.
            unfold accept_at status_condition is_open in λ y. absurd (ground arith))
          now i.id db.invitations (OnePending-later t now db.invitations le one))

  -- Where no address has two pending invitations to one organization to begin with, whatever the service
  -- is asked in the order of its clock: from the last call on no address has two that are pending, at
  -- that time or at any later one.
  pub never_two_pending :
      (ops : List InvitationOp) (t : ℕ) (db : InvitationTables)
      → InOrder t ops
      → OnePending t db.invitations
      → OnePending (last_time t ops) (apply_invitations ops db).invitations
  unfolding apply_invitations
  never_two_pending [] t db order one = one
  never_two_pending (op ∷ ops) t db order one = elim (Result-cases (apply_invitation op db)) [
    | inl (db', e) ↦
        rw (apply_invitations, e)
          (never_two_pending ops (time_of op) db' order.1 (apply-OnePending op t db order.0 e one))
    | inr (x, e) ↦
        rw (apply_invitations, e)
          (never_two_pending ops (time_of op) db order.1
            (OnePending-later t (time_of op) db.invitations order.0 one))
  ]

  -- The first row with the token's hash has been accepted.
  abbrev pub IsUsed : Text → List Invitation → Type 0
  IsUsed token rows =
      (i : Invitation) × (find (has_hash (hash_token token)) rows ≡ some i)
      × (is_some i.accepted_at ≡ true)

  -- Updates of rows that keep the hash and the accepted time.
  IsUsed-update :
      (token : Text) (id : ℕ) (f : Invitation → Invitation) (rows : List Invitation)
      → ((i : Invitation) → (f i).token_hash ≡ i.token_hash)
      → ((i : Invitation) → is_some i.accepted_at ≡ true → is_some (f i).accepted_at ≡ true)
      → IsUsed token rows
      → IsUsed token (update (has_id id) f rows)
  IsUsed-update token id f rows keeps stays (i, found, used) = (
    if_fits (has_id id) f i,
    find-update (has_hash (hash_token token)) (has_id id) f (λ r. rw (keeps r) refl) rows found,
    elim (Bool-cases (has_id id i)) [ inl y ↦ rw y (stays i used) | inr n ↦ rw n used ],
  )

  apply-IsUsed :
      (op : InvitationOp) (token : Text) (db : InvitationTables) {db' : InvitationTables}
      → apply_invitation op db ≡ ok db'
      → IsUsed token db.invitations
      → IsUsed token db'.invitations
  unfolding find new_invitation
  apply-IsUsed (create actor o email r d id t now) token db h (i, found, used) =
      let (normalized, _, fresh, e) = created_rows actor o email r d id t now db h in
      rw e (elim (Bool-cases (text_eq (hash_token t) (hash_token token))) [
        | inr n ↦ (i, rw n found, used)
        | inl y ↦
            let same : hash_token t ≡ hash_token token =
              text_eq→eq (hash_token t) (hash_token token) y in
            absurd (let none_here = rw same at fresh in ground (arith, none_here, found))
      ])
  apply-IsUsed (revoke actor o i now later) token db h used =
      elim (revoked_rows actor o i now later db h) [
        | inl e ↦ rw e used
        | inr (r, _, _, e) ↦ rw e (
            IsUsed-update token r.id (revoke_at later) db.invitations
              (λ i. unfold revoke_at in refl) (λ i y. unfold revoke_at in y) used)
      ]
  apply-IsUsed (accept actor t now later) token db h used =
      let (i, _, _, _, _, _, e) = accepted_rows actor t now later db h in
      rw e (
        IsUsed-update token i.id (accept_at later) db.invitations (λ i. unfold accept_at in refl)
          (λ i y. unfold accept_at in refl) used)

  apply_invitations-IsUsed :
      (ops : List InvitationOp) (token : Text) (db : InvitationTables)
      → IsUsed token db.invitations
      → IsUsed token (apply_invitations ops db).invitations
  unfolding apply_invitations
  apply_invitations-IsUsed [] token db used = used
  apply_invitations-IsUsed (op ∷ ops) token db used = elim (Result-cases (apply_invitation op db)) [
    | inl (db', e) ↦
        rw (apply_invitations, e)
          (apply_invitations-IsUsed ops token db' (apply-IsUsed op token db e used))
    | inr (x, e) ↦ rw (apply_invitations, e) (apply_invitations-IsUsed ops token db used)
  ]

  used_is_refused :
      (actor : User) (token : Text) (now later : ℕ) (db : InvitationTables)
      → IsUsed token db.invitations
      → accept_invitation nfkc casefold hash_token actor token now later db
        ≡ err (not_found invalid_invitation)
  unfolding accept_invitation resolve_token invitation_status
  used_is_refused actor token now later db (i, found, used) = ground arith

  -- After a token was accepted, every later attempt to accept it, by any user, at any time and
  -- whatever the service did in between, is told that there is no such invitation.
  pub token_works_once :
      (actor again : User) (token : Text) (now later now' later' : ℕ) (ops : List InvitationOp)
      (db : InvitationTables) {db' : InvitationTables}
      → accept_invitation nfkc casefold hash_token actor token now later db ≡ ok db'
      → accept_invitation nfkc casefold hash_token again token now' later'
          (apply_invitations ops db')
        ≡ err (not_found invalid_invitation)
  token_works_once actor again token now later now' later' ops db {db'} h =
      let (i, found, _, _, _, _, e) = accepted_rows actor token now later db h in
      used_is_refused again token now' later' (apply_invitations ops db') (
        apply_invitations-IsUsed ops token db' (
          rw e (
            if_fits (has_id i.id) (accept_at later) i,
            find-update (has_hash (hash_token token)) (has_id i.id) (accept_at later)
                (λ r. unfold accept_at in refl) db.invitations found,
            unfold accept_at in ground arith,
          )))

  -- An acceptance that succeeds makes the actor, who was none before, a member with the role of a
  -- pending invitation for the actor's own email, and that role is never owner.
  pub accepting_joins :
      (actor : User) (token : Text) (now later : ℕ) (db : InvitationTables) {db' : InvitationTables}
      → accept_invitation nfkc casefold hash_token actor token now later db ≡ ok db'
      → (i : Invitation) × (find (has_hash (hash_token token)) db.invitations ≡ some i)
        × (status_condition pending now i ≡ true)
        × (i.normalized_email ≡ actor.normalized_email)
        × (get_membership i.organization_id actor.id db.base.members ≡ none)
        × (m : Membership) × (get_membership i.organization_id actor.id db'.base.members ≡ some m)
        × (m.role ≡ membership_role i.role)
        × (is_owner m.role ≡ false)
  unfolding status_condition invitation_status is_open get_membership find
  accepting_joins actor token now later db h =
      let (i, found, waits, mine, absent, joined, _) = accepted_rows actor token now later db h in
      (
        i,
        found,
        ground arith,
        text_eq→eq i.normalized_email actor.normalized_email mine,
        absent,
        record {
          organization_id = i.organization_id;
          user_id = actor.id;
          role = membership_role i.role;
        },
        simp joined (ground arith),
        refl,
        ground arith,
      )
