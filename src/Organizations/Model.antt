-- ===== src/Organizations/Model.antt =====
-- Users, organizations and memberships (domain/users/model.py, domain/organizations/model.py,
-- domain/organizations/membership.py), with the columns that the rules read.
use signalscope.Shared.{ℕ, Bool, true, false, ◌&&◌, Option, none, some, List, ◌==◌}
use signalscope.Shared.Text.{Text}
use signalscope.Shared.Rows.{find}

pub record User : Type 0 where
  pub id : ℕ
  pub email : Text
  pub normalized_email : Text
  pub is_active : Bool
  pub is_system_admin : Bool

pub data OrganizationRole : Type 0 where
  owner admin member viewer : OrganizationRole

abbrev pub is_owner : OrganizationRole → Bool
is_owner owner = true
is_owner _ = false

-- The primary key is (organization_id, user_id).
pub record Membership : Type 0 where
  pub organization_id : ℕ
  pub user_id : ℕ
  pub role : OrganizationRole

abbrev pub has_key : ℕ → ℕ → Membership → Bool
has_key organization_id user_id m = m.organization_id == organization_id && m.user_id == user_id

-- session.get(OrganizationMembership, (organization_id, user_id))
unfoldable pub get_membership : ℕ → ℕ → List Membership → Option Membership
get_membership organization_id user_id = find (has_key organization_id user_id)

-- The role of a membership row, if there is one.
abbrev pub role_of_row : Option Membership → Option OrganizationRole
role_of_row none = none
role_of_row (some m) = some m.role

-- OrganizationService.role_of
unfoldable pub role_of : ℕ → ℕ → List Membership → Option OrganizationRole
role_of user_id organization_id members =
    role_of_row (get_membership organization_id user_id members)
