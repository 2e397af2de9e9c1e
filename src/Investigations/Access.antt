-- ===== src/Investigations/Access.antt =====
-- domain/investigations/access.py, collaborator.py, and the columns of model.py that it reads.
use signalscope.Shared.{
  ℕ, Bool, true, false, not, ◌&&◌, ◌||◌, Option, none, some, List, ◌==◌, String, Result, ◌>>◌,
  raise_if, is_some, if◌then◌else◌,
}
use signalscope.Shared.Text.{Text}
use signalscope.Shared.Rows.{find}
use signalscope.Organizations.Model.{
  User, OrganizationRole, owner, admin, Membership, has_key, get_membership, role_of_row,
}

pub data CollaboratorRole : Type 0 where
  owner_role editor_role viewer_role : CollaboratorRole

-- The primary key is (investigation_id, user_id).
pub record Collaborator : Type 0 where
  pub investigation_id : ℕ
  pub user_id : ℕ
  pub role : CollaboratorRole

-- One that is closed is read only until it is opened again.
pub data InvestigationStatus : Type 0 where
  open_status closed_status : InvestigationStatus

pub record Investigation : Type 0 where
  pub id : ℕ
  pub title : Text
  pub description : Option Text
  pub status : InvestigationStatus
  pub organization_id : Option ℕ
  pub created_by_user_id : Option ℕ
  pub created_at : ℕ

pub data InvestigationPermission : Type 0 where
  view edit delete_it manage_members : InvestigationPermission

pub data InvestigationError : Type 0 where
  not_found conflict invalid_input : String → InvestigationError
  forbidden database_error : InvestigationError

abbrev pub investigation_not_found : String
investigation_not_found = "Investigation was not found."

-- A set of permissions, as its membership test.
abbrev pub Permissions : Type 0
Permissions = InvestigationPermission → Bool

abbrev pub all_permissions : Permissions
all_permissions p = true

abbrev pub no_permissions : Permissions
no_permissions p = false

unfoldable pub is_full_access : OrganizationRole → Bool
is_full_access owner = true
is_full_access admin = true
is_full_access _ = false

unfoldable pub collaborator_permissions : CollaboratorRole → Permissions
collaborator_permissions owner_role p = true
collaborator_permissions editor_role view = true
collaborator_permissions editor_role edit = true
collaborator_permissions editor_role _ = false
collaborator_permissions viewer_role view = true
collaborator_permissions viewer_role _ = false

abbrev pub by_collaboration : Option CollaboratorRole → Permissions
by_collaboration none = no_permissions
by_collaboration (some r) = collaborator_permissions r

abbrev pub by_roles : Option ℕ → Option OrganizationRole → Option CollaboratorRole → Permissions
by_roles (some o) (some r) collaborator p =
    if is_full_access r then true else by_collaboration collaborator p
by_roles _ _ collaborator p = false

unfoldable pub permissions_for :
    Bool → Option ℕ → Option OrganizationRole → Option CollaboratorRole → Permissions
permissions_for true organization_id organization_role collaborator_role = all_permissions
permissions_for false organization_id organization_role collaborator_role =
    by_roles organization_id organization_role collaborator_role

abbrev pub has_collaborator_key : ℕ → ℕ → Collaborator → Bool
has_collaborator_key investigation_id user_id c =
    c.investigation_id == investigation_id && c.user_id == user_id

unfoldable pub get_collaborator : ℕ → ℕ → List Collaborator → Option Collaborator
get_collaborator investigation_id user_id = find (has_collaborator_key investigation_id user_id)

abbrev pub collaborator_role_of : Option Collaborator → Option CollaboratorRole
collaborator_role_of none = none
collaborator_role_of (some c) = some c.role

-- `Investigation.organization_id.in_(…)`, where a query selects the organizations of the user's
-- memberships that pass a test: never true of NULL.
abbrev pub in_organizations : (OrganizationRole → Bool) → ℕ → List Membership → Option ℕ → Bool
in_organizations test user_id members none = false
in_organizations test user_id members (some o) =
    is_some (find (λ m. has_key o user_id m && test m.role) members)

abbrev pub any_role : OrganizationRole → Bool
any_role r = true

module _ (members : List Membership) (collaborators : List Collaborator) where
  unfoldable pub visible_to : User → Investigation → Bool
  visible_to actor i =
      actor.is_system_admin
      || in_organizations is_full_access actor.id members i.organization_id
      || (in_organizations any_role actor.id members i.organization_id
          && is_some (get_collaborator i.id actor.id collaborators))

  -- The rows are read for an investigation that has an organization, and not for a system admin.
  unfoldable pub signed_in_permissions : User → Investigation → Option ℕ → Permissions
  signed_in_permissions actor i none = permissions_for actor.is_system_admin none none none
  signed_in_permissions actor i (some o) =
      if actor.is_system_admin
      then permissions_for true (some o) none none
      else permissions_for false (some o) (role_of_row (get_membership o actor.id members))
          (collaborator_role_of (get_collaborator i.id actor.id collaborators))

  unfoldable pub permissions : Option User → Investigation → Permissions
  permissions none i = all_permissions
  permissions (some actor) i = signed_in_permissions actor i i.organization_id

  unfoldable pub require_permission :
      Option User → Investigation → InvestigationPermission → Result InvestigationError (Unit {0})
  require_permission actor i p = do
    raise_if (not (permissions actor i view)) (not_found investigation_not_found)
    raise_if (not (permissions actor i p)) forbidden
