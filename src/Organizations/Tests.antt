-- ===== src/Organizations/Tests.antt =====
-- The theorems on organizations, in one with an owner, an admin and somebody who is invited.
use signalscope.Shared.{ℕ, ◌≤◌, ◌≡◌, refl, true, false, none, some, List, [], ◌∷◌, arith, ok, err}
use signalscope.Shared.Text.{Text, codes, text_eq}
use signalscope.Shared.Rows.{find, count}
use signalscope.Organizations.Model.{
  User, owner, admin, member, viewer, is_owner, Membership, get_membership, role_of,
}
use signalscope.Organizations.Members.{
  OrganizationTables, lock, check_manager, manages, owners, keep_an_owner, is_inactive, get_user,
  has_organization, add_member, change_member_role, remove_member, with_role,
}
use signalscope.Organizations.Owners.{
  HasKeys, MemberOp, add, change, remove, apply, apply_all, always_an_owner,
}
use signalscope.Organizations.Privilege.{privileged, admins_cannot_escalate}
use signalscope.Organizations.Invitations.{
  Invitation, InvitationTables, member_role, pending, invitation_status, status_condition, has_hash,
  not_found, invalid_invitation, accept_invitation, resolve_token, membership_role,
}
use signalscope.Organizations.Pending.{InvitationOp, create, revoke, accept, OnePending}
use signalscope.Organizations.Joining.{
  apply_invitations, never_two_pending, token_works_once, accepting_joins,
}

abbrev user : ℕ → Text → User
user i email = record {
  id = i;
  email = email;
  normalized_email = email;
  is_active = true;
  is_system_admin = false;
}

abbrev ada : User
ada = user 1 (codes "ada@example.org")

abbrev bob : User
bob = user 2 (codes "bob@example.org")

abbrev eve : User
eve = user 3 (codes "eve@example.org")

abbrev team : OrganizationTables
team = record {
  organizations = 7 ∷ [];
  users = ada ∷ bob ∷ eve ∷ [];
  members =
      record { organization_id = 7; user_id = 1; role = owner }
      ∷ record { organization_id = 7; user_id = 2; role = admin }
      ∷ [];
  audit = [];
}

keyed : HasKeys team.members
unfolding count
keyed o u = ground arith

-- The last owner asks to be removed and to be an admin, and then leaves after somebody else became owner.
abbrev changes : List MemberOp
changes =
    remove ada 7 1
    ∷ change ada 7 1 admin
    ∷ add ada 7 3 member
    ∷ change ada 7 3 owner
    ∷ remove ada 7 1
    ∷ []

always_an_owner_example : 1 ≤ owners 7 (apply_all changes team).members
always_an_owner_example = always_an_owner changes team 7 keyed (unfold owners count in ground arith)

abbrev with_eve : OrganizationTables
with_eve = record {
  organizations = team.organizations;
  users = team.users;
  members = record { organization_id = 7; user_id = 3; role = viewer } ∷ team.members;
  audit =
      record {
        action = signalscope.Audit.member_added;
        actor_user_id = some 2;
        resource_type = "organization";
        resource_id = some 7;
        organization_id = some 7;
        details =
            (signalscope.Audit.user_id, signalscope.Audit.number 3)
            ∷ (signalscope.Audit.role, signalscope.Audit.text "viewer")
            ∷ [];
      }
      ∷ [];
}

bob_adds_eve : apply (add bob 7 3 viewer) team ≡ ok with_eve
unfolding add_member lock check_manager manages is_inactive get_user has_organization role_of
    get_membership find signalscope.Organizations.Members.record_change
    signalscope.Audit.record_event
bob_adds_eve = refl

admins_cannot_escalate_example : privileged 7 with_eve.members ≡ privileged 7 team.members
admins_cannot_escalate_example =
    admins_cannot_escalate (add bob 7 3 viewer) team 7 bob_adds_eve keyed refl
      (unfold role_of get_membership find in refl)

-- Eve is invited with the token "secret"; the hash here is the text itself.
abbrev invitation : Invitation
invitation = record {
  id = 50;
  organization_id = 7;
  normalized_email = codes "eve@example.org";
  role = member_role;
  token_hash = codes "secret";
  expires_at = 1000;
  accepted_at = none;
  revoked_at = none;
  invited_by_user_id = 1;
  created_at = 10;
}

abbrev invited : InvitationTables
invited = record { base = team; invitations = invitation ∷ [] }

abbrev same_text : Text → Text
same_text t = t

one : OnePending 20 invited.invitations
unfolding count
one o email now after = ground arith

abbrev calls : List InvitationOp
calls =
    create ada 7 (codes "eve@example.org") member_role 7 51 (codes "other") 30
    ∷ revoke ada 7 50 40 41
    ∷ create ada 7 (codes "Eve@example.org") member_role 7 52 (codes "third") 50
    ∷ accept eve (codes "third") 60 61
    ∷ []

never_two_pending_example :
    OnePending 60 (apply_invitations same_text same_text same_text calls invited).invitations
never_two_pending_example =
    never_two_pending same_text same_text same_text calls 20 invited (ground arith) one

eve_accepts :
    (db' : InvitationTables) × (accept_invitation same_text same_text same_text eve
        (codes "secret")
        100
        101
        invited
      ≡ ok db')
unfolding accept_invitation resolve_token text_eq find invitation_status get_membership
eve_accepts = (_, refl)

token_works_once_example :
    accept_invitation same_text same_text same_text eve
      (codes "secret")
      200
      201
      (apply_invitations same_text same_text same_text calls eve_accepts.0)
    ≡ err (not_found invalid_invitation)
token_works_once_example =
    token_works_once same_text same_text same_text eve eve (codes "secret") 100 101 200 201 calls
      invited eve_accepts.1

accepting_joins_example :
    (i : Invitation) × (find (has_hash (codes "secret")) invited.invitations ≡ some i)
    × (status_condition pending 100 i ≡ true)
    × (i.normalized_email ≡ eve.normalized_email)
    × (get_membership i.organization_id 3 team.members ≡ none)
    × (m : Membership) × (get_membership i.organization_id 3 eve_accepts.0.base.members ≡ some m)
    × (m.role ≡ membership_role i.role)
    × (is_owner m.role ≡ false)
accepting_joins_example =
    accepting_joins same_text same_text same_text eve (codes "secret") 100 101 invited eve_accepts.1
