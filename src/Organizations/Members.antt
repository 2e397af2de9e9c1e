-- ===== src/Organizations/Members.antt =====
-- domain/organizations/service.py: membership changes. Each operation is one transaction: an error
-- rolls it back, and the row locks make the operations on one organization come one after another.
use signalscope.Shared.{
  ℕ, Bool, true, false, not, ◌&&◌, ◌||◌, Option, none, some, List, [], ◌∷◌, ◌==◌, String, leb,
  Result, ok, ◌>>=◌, ◌>>◌, raise_if, some_or_raise, is_some, if◌then◌else◌,
}
use signalscope.Shared.Rows.{find, update, delete, count}
use signalscope.Audit.{
  AuditAction, member_added, member_role_changed, member_removed, DetailKey, user_id, role,
  old_role, new_role, DetailValue, number, text, AuditLog, record_event,
}
use signalscope.Organizations.Model.{
  User, OrganizationRole, owner, admin, member, viewer, is_owner, Membership, has_key,
  get_membership, role_of,
}

pub data OrganizationError : Type 0 where
  not_found conflict forbidden : String → OrganizationError

abbrev pub organization_not_found : String
organization_not_found = "Organization was not found."

abbrev pub last_owner_error : String
last_owner_error = "An organization must keep at least one owner."

pub record OrganizationTables : Type 0 where
  pub organizations : List ℕ
  pub users : List User
  pub members : List Membership
  pub audit : AuditLog

abbrev pub role_name : OrganizationRole → String
role_name owner = "owner"
role_name admin = "admin"
role_name member = "member"
role_name viewer = "viewer"

-- `role in ADMIN_MANAGED_ROLES`
abbrev pub is_admin_managed : OrganizationRole → Bool
is_admin_managed member = true
is_admin_managed viewer = true
is_admin_managed _ = false

-- A role that is not None must be one that admins manage.
abbrev pub is_managed_or_none : Option OrganizationRole → Bool
is_managed_or_none none = true
is_managed_or_none (some r) = is_admin_managed r

unfoldable pub has_organization : ℕ → OrganizationTables → Bool
has_organization i db = is_some (find (λ o. o == i) db.organizations)

unfoldable pub get_user : ℕ → OrganizationTables → Option User
get_user i db = find (λ (u : User). u.id == i) db.users

-- `_lock`, and the test of `get`
unfoldable pub lock : User → ℕ → OrganizationTables → Result OrganizationError (Unit {0})
lock actor organization_id db =
    raise_if
      (not (has_organization organization_id db)
        || (not actor.is_system_admin
            && not (is_some (role_of actor.id organization_id db.members))))
      (not_found organization_not_found)

unfoldable pub manages :
    Option OrganizationRole → Option OrganizationRole → Option OrganizationRole → Bool
manages (some owner) current new = true
manages (some admin) current new = is_managed_or_none current && is_managed_or_none new
manages _ current new = false

-- `_check_manager`
unfoldable pub check_manager :
    User
    → ℕ
    → Option OrganizationRole
    → Option OrganizationRole
    → OrganizationTables
    → Result OrganizationError (Unit {0})
check_manager actor organization_id current new db =
    raise_if
      (not (
        actor.is_system_admin || manages (role_of actor.id organization_id db.members) current new))
      (forbidden "You do not have permission to manage these members.")

abbrev pub is_owner_of : ℕ → Membership → Bool
is_owner_of organization_id m = m.organization_id == organization_id && is_owner m.role

-- The count of owners in `_keep_an_owner`
unfoldable pub owners : ℕ → List Membership → ℕ
owners organization_id = count (is_owner_of organization_id)

unfoldable pub keep_an_owner : ℕ → OrganizationTables → Result OrganizationError (Unit {0})
keep_an_owner organization_id db =
    raise_if (leb (owners organization_id db.members) 1) (conflict last_owner_error)

-- `_record`
unfoldable pub record_change :
    AuditAction → User → ℕ → List (DetailKey × DetailValue) → AuditLog → AuditLog
record_change action actor organization_id =
    record_event action (some actor.id) "organization" (some organization_id) (some organization_id)

unfoldable pub is_inactive : Option User → Bool
is_inactive none = true
is_inactive (some u) = not u.is_active

-- The primary key of a membership makes a second one a unique violation.
unfoldable pub add_member :
    User
    → ℕ
    → ℕ
    → OrganizationRole
    → OrganizationTables
    → Result OrganizationError OrganizationTables
add_member actor organization_id member_id r db = do
  lock actor organization_id db
  check_manager actor organization_id none (some r) db
  raise_if (is_inactive (get_user member_id db)) (not_found "User was not found.")
  raise_if (is_some (get_membership organization_id member_id db.members))
      (conflict "The user is already a member.")
  ok (record db {
    members =
        record { organization_id = organization_id; user_id = member_id; role = r } ∷ db.members;
    audit =
        record_change member_added actor organization_id
          ((user_id, number member_id) ∷ (role, text (role_name r)) ∷ []) db.audit;
  })

unfoldable pub with_role : OrganizationRole → Membership → Membership
with_role r m = record m { role = r }

unfoldable pub change_member_role :
    User
    → ℕ
    → ℕ
    → OrganizationRole
    → OrganizationTables
    → Result OrganizationError OrganizationTables
change_member_role actor organization_id member_id r db = do
  lock actor organization_id db
  m ←
      some_or_raise (get_membership organization_id member_id db.members)
        (not_found "Member was not found.")
  check_manager actor organization_id (some m.role) (some r) db
  (if is_owner m.role && not (is_owner r) then keep_an_owner organization_id db else ok tt)
  ok (record db {
    members = update (has_key organization_id member_id) (with_role r) db.members;
    audit =
        record_change member_role_changed actor organization_id
          ((user_id, number member_id)
            ∷ (old_role, text (role_name m.role))
            ∷ (new_role, text (role_name r))
            ∷ [])
          db.audit;
  })

unfoldable pub remove_member :
    User → ℕ → ℕ → OrganizationTables → Result OrganizationError OrganizationTables
remove_member actor organization_id member_id db = do
  lock actor organization_id db
  m ←
      some_or_raise (get_membership organization_id member_id db.members)
        (not_found "Member was not found.")
  check_manager actor organization_id (some m.role) none db
  (if is_owner m.role then keep_an_owner organization_id db else ok tt)
  ok (record db {
    members = delete (has_key organization_id member_id) db.members;
    audit =
        record_change member_removed actor organization_id
          ((user_id, number member_id) ∷ (role, text (role_name m.role)) ∷ []) db.audit;
  })
