-- ===== src/Organizations/Invitations.antt =====
-- domain/organizations/invitations.py and invitation.py. The hash of a token and the tables of
-- Unicode are arguments; a new row's id and token, which the source draws at random, too.
use signalscope.Shared.{
  ℕ, ◌+◌, ◌*◌, Bool, true, false, not, ◌&&◌, ◌||◌, Option, none, some, List, [], ◌∷◌, ◌==◌, String,
  leb, ltb, Result, ok, err, ◌>>=◌, ◌>>◌, raise_if, some_or_raise, is_some, if◌then◌else◌,
}
use signalscope.Shared.Text.{Text, text_eq}
use signalscope.Shared.Rows.{find, select, update, order_by}
use signalscope.Audit.{
  AuditAction, invitation_created, invitation_revoked, invitation_accepted, role, text,
  record_event,
}
use signalscope.Users.Email.{EmailError, normalize_email}
use signalscope.Organizations.Model.{
  User, OrganizationRole, owner, admin, member, viewer, Membership, get_membership, role_of,
}
use signalscope.Organizations.Members.{
  OrganizationTables, get_user, has_organization, organization_not_found, role_name,
}

pub data InvitationRole : Type 0 where
  admin_role member_role viewer_role : InvitationRole

-- OrganizationRole(invitation.role.value)
abbrev pub membership_role : InvitationRole → OrganizationRole
membership_role admin_role = admin
membership_role member_role = member
membership_role viewer_role = viewer

-- `role in ADMIN_INVITABLE_ROLES`
abbrev pub is_admin_invitable : InvitationRole → Bool
is_admin_invitable admin_role = false
is_admin_invitable _ = true

pub data InvitationStatus : Type 0 where
  pending accepted revoked expired : InvitationStatus

pub record Invitation : Type 0 where
  pub id : ℕ
  pub organization_id : ℕ
  pub normalized_email : Text
  pub role : InvitationRole
  pub token_hash : Text
  pub expires_at : ℕ
  pub accepted_at : Option ℕ
  pub revoked_at : Option ℕ
  pub invited_by_user_id : ℕ
  pub created_at : ℕ

abbrev pub is_status : InvitationStatus → InvitationStatus → Bool
is_status pending pending = true
is_status accepted accepted = true
is_status revoked revoked = true
is_status expired expired = true
is_status _ _ = false

unfoldable pub invitation_status : Invitation → ℕ → InvitationStatus
invitation_status i now =
    if is_some i.accepted_at
    then accepted
    else if is_some i.revoked_at
    then revoked
    else if leb i.expires_at now
    then expired
    else pending

-- The columns of a row that nobody has accepted or revoked.
unfoldable pub is_open : Invitation → Bool
is_open i = not (is_some i.accepted_at) && not (is_some i.revoked_at)

unfoldable pub status_condition : InvitationStatus → ℕ → Invitation → Bool
status_condition accepted now i = is_some i.accepted_at
status_condition revoked now i = is_some i.revoked_at
status_condition expired now i = is_open i && leb i.expires_at now
status_condition pending now i = is_open i && ltb now i.expires_at

pub data InvitationError : Type 0 where
  bad_email unique_violation : InvitationError
  not_found conflict forbidden : String → InvitationError

pub record InvitationTables : Type 0 where
  pub base : OrganizationTables
  pub invitations : List Invitation

abbrev pub invalid_invitation : String
invalid_invitation = "Invitation was not found or can no longer be used."

abbrev pub invitation_role_name : InvitationRole → String
invitation_role_name r = role_name (membership_role r)

-- `_lock_organization`, and `_check_organization`
unfoldable pub lock_organization : User → ℕ → OrganizationTables → Result InvitationError (Unit {0})
lock_organization actor o db =
    raise_if
      (not (has_organization o db)
        || (not actor.is_system_admin && not (is_some (role_of actor.id o db.members))))
      (not_found organization_not_found)

abbrev pub is_invitable_or_none : Option InvitationRole → Bool
is_invitable_or_none none = true
is_invitable_or_none (some r) = is_admin_invitable r

unfoldable pub may_invite : Option OrganizationRole → Option InvitationRole → Bool
may_invite (some owner) r = true
may_invite (some admin) r = is_invitable_or_none r
may_invite _ r = false

unfoldable pub check_inviter :
    User → ℕ → Option InvitationRole → OrganizationTables → Result InvitationError (Unit {0})
check_inviter actor o r db =
    raise_if (not (actor.is_system_admin || may_invite (role_of actor.id o db.members) r))
      (forbidden "You do not have permission to manage these invitations.")

-- `_record`
unfoldable pub record_invitation :
    AuditAction → User → Invitation → OrganizationTables → OrganizationTables
record_invitation action actor i db = record db {
  audit =
      record_event action (some actor.id) "organization_invitation" (some i.id)
        (some i.organization_id) ((role, text (invitation_role_name i.role)) ∷ []) db.audit;
}

abbrev pub has_email : Text → Option User → Bool
has_email email none = false
has_email email (some u) = text_eq u.normalized_email email

-- The join of memberships with users
abbrev pub is_member_with : ℕ → Text → OrganizationTables → Membership → Bool
is_member_with o email db m = m.organization_id == o && has_email email (get_user m.user_id db)

abbrev pub is_pending_for : ℕ → Text → ℕ → Invitation → Bool
is_pending_for o email now i =
    i.organization_id == o && text_eq i.normalized_email email && status_condition pending now i

abbrev pub has_id : ℕ → Invitation → Bool
has_id i inv = inv.id == i

abbrev pub has_hash : Text → Invitation → Bool
has_hash h inv = text_eq inv.token_hash h

-- timedelta(days=d), with times in seconds
abbrev pub days : ℕ → ℕ
days d = d * 86400

unfoldable pub revoke_at : ℕ → Invitation → Invitation
revoke_at now i = record i { revoked_at = some now }

unfoldable pub accept_at : ℕ → Invitation → Invitation
accept_at now i = record i { accepted_at = some now }

abbrev pub email_or_error : Result EmailError Text → Result InvitationError Text
email_or_error (ok t) = ok t
email_or_error (err _) = err bad_email

unfoldable pub new_invitation : ℕ → ℕ → Text → InvitationRole → Text → ℕ → ℕ → User → Invitation
new_invitation id o email r token_hash invitation_days now actor = record {
  id = id;
  organization_id = o;
  normalized_email = email;
  role = r;
  token_hash = token_hash;
  expires_at = now + days invitation_days;
  accepted_at = none;
  revoked_at = none;
  invited_by_user_id = actor.id;
  created_at = now;
}

abbrev pub add_invitation : User → Invitation → InvitationTables → InvitationTables
add_invitation actor i db = record {
  base = record_invitation invitation_created actor i db.base;
  invitations = i ∷ db.invitations;
}

unfoldable pub list_invitations :
    User
    → ℕ
    → Option InvitationStatus
    → ℕ
    → InvitationTables
    → Result InvitationError (List Invitation)
list_invitations actor o status now db = do
  lock_organization actor o db.base
  check_inviter actor o none db.base
  ok (order_by newer (select (λ i. i.organization_id == o && fits i status) db.invitations))
  where
    newer : Invitation → Invitation → Bool
    newer a b = ltb b.created_at a.created_at || (a.created_at == b.created_at && ltb a.id b.id)

    fits : Invitation → Option InvitationStatus → Bool
    fits i none = true
    fits i (some s) = status_condition s now i

-- A pending row is revoked, a revoked one is left as it is.
abbrev pub revoke_by_status :
    InvitationStatus
    → User
    → Invitation
    → ℕ
    → InvitationTables
    → Result InvitationError InvitationTables
revoke_by_status pending actor i later db = ok (record {
  base = record_invitation invitation_revoked actor i db.base;
  invitations = update (has_id i.id) (revoke_at later) db.invitations;
})
revoke_by_status revoked actor i later db = ok db
revoke_by_status accepted actor i later db =
    err (conflict "The invitation is accepted and cannot be revoked.")
revoke_by_status expired actor i later db =
    err (conflict "The invitation is expired and cannot be revoked.")

-- The clock is read twice: for the status and for the time of the change.
unfoldable pub revoke_invitation :
    User → ℕ → ℕ → ℕ → ℕ → InvitationTables → Result InvitationError InvitationTables
revoke_invitation actor o invitation_id now later db = do
  lock_organization actor o db.base
  i ←
      some_or_raise (find (has_id invitation_id) db.invitations)
        (not_found "Invitation was not found.")
  raise_if (not (i.organization_id == o)) (not_found "Invitation was not found.")
  check_inviter actor o (some i.role) db.base
  revoke_by_status (invitation_status i now) actor i later db

module _ (nfkc casefold : Text → Text) (hash_token : Text → Text) where
  unfoldable pub create_invitation :
      User
      → ℕ
      → Text
      → InvitationRole
      → ℕ
      → ℕ
      → Text
      → ℕ
      → InvitationTables
      → Result InvitationError InvitationTables
  create_invitation actor o email r invitation_days id token now db = do
    normalized ← email_or_error (normalize_email nfkc casefold email)
    lock_organization actor o db.base
    check_inviter actor o (some r) db.base
    raise_if (is_some (find (is_member_with o normalized db.base) db.base.members))
        (conflict "The user is already a member.")
    raise_if (is_some (find (is_pending_for o normalized now) db.invitations))
        (conflict "An invitation for this email is already pending.")
    raise_if
        (is_some (find (has_id id) db.invitations)
          || is_some (find (has_hash (hash_token token)) db.invitations))
        unique_violation
    ok (
        add_invitation actor
          (new_invitation id o normalized r (hash_token token) invitation_days now actor) db)

  unfoldable pub resolve_token : Text → ℕ → List Invitation → Result InvitationError Invitation
  resolve_token token now rows = do
    i ← some_or_raise (find (has_hash (hash_token token)) rows) (not_found invalid_invitation)
    raise_if (not (is_status (invitation_status i now) pending)) (not_found invalid_invitation)
    ok i

  unfoldable pub accept_invitation :
      User → Text → ℕ → ℕ → InvitationTables → Result InvitationError InvitationTables
  accept_invitation actor token now later db = do
    i ← resolve_token token now db.invitations
    raise_if (not (text_eq i.normalized_email actor.normalized_email))
        (forbidden "This invitation is for a different email address.")
    raise_if (is_some (get_membership i.organization_id actor.id db.base.members))
        (conflict "You are already a member of this organization.")
    ok (record {
      base = record_invitation invitation_accepted actor i (record db.base {
        members =
            record {
              organization_id = i.organization_id;
              user_id = actor.id;
              role = membership_role i.role;
            }
            ∷ db.base.members;
      });
      invitations = update (has_id i.id) (accept_at later) db.invitations;
    })
