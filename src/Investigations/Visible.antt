-- ===== src/Investigations/Visible.antt =====
-- The query for visible investigations beside the check of a single one (domain/investigations/access.py).
use signalscope.Shared.{
  ℕ, ◌≤◌, ◌≡◌, ◌↔◌, refl, inl, inr, Bool, true, false, ◌&&◌, ◌||◌, Option, none, some, List, arith,
  ok, err, is_some, if◌then◌else◌, Bool-cases,
}
use signalscope.Shared.Rows.{find, count}
use signalscope.Shared.Rows.Kept.{find-key-and}
use signalscope.Shared.Rows.Laws.{tested}
use signalscope.Organizations.Model.{
  User, OrganizationRole, Membership, has_key, get_membership, role_of_row,
}
use signalscope.Investigations.Access.{
  CollaboratorRole, Collaborator, Investigation, InvestigationPermission, view, not_found,
  forbidden, investigation_not_found, is_full_access, collaborator_permissions, permissions_for,
  get_collaborator, collaborator_role_of, any_role, in_organizations, visible_to,
  signed_in_permissions, permissions, require_permission,
}

-- (organization_id, user_id) is a primary key.
abbrev pub HasKeys : List Membership → Type 0
HasKeys members = (o u : ℕ) → count (has_key o u) members ≤ 1

-- Every role of a collaborator lets its holder view.
all_view : (r : CollaboratorRole) → collaborator_permissions r view ≡ true
unfolding collaborator_permissions
all_view r = ground arith

-- Who may do anything with an investigation may view it.
pub may_view :
    (b : Bool) (o : Option ℕ) (r : Option OrganizationRole) (c : Option CollaboratorRole)
    (p : InvestigationPermission)
    → permissions_for b o r c p ≡ true
    → permissions_for b o r c view ≡ true
unfolding permissions_for collaborator_permissions
may_view b o r c p h = ground arith

module _ (members : List Membership) (collaborators : List Collaborator) where
  -- The filter in terms of the rows with the keys, and the permission in terms of them.
  by_rows :
      (admin : Bool) (o : ℕ) (m : Option Membership) (c : Option Collaborator)
      → admin
          || tested (λ k. is_full_access k.role) m
          || (tested (λ k. any_role k.role) m && is_some c)
        ≡ (if admin
              then permissions_for true (some o) none none
              else permissions_for false (some o) (role_of_row m) (collaborator_role_of c))
            view
  unfolding permissions_for
  by_rows admin o none c = ground arith
  by_rows admin o (some m) none = ground arith
  by_rows admin o (some m) (some c) = ground (arith, all_view c.role)

  by_organization :
      (actor : User) (i : Investigation) (o : Option ℕ)
      → HasKeys members
      → actor.is_system_admin
          || in_organizations is_full_access actor.id members o
          || (in_organizations any_role actor.id members o
              && is_some (get_collaborator i.id actor.id collaborators))
        ≡ signed_in_permissions members collaborators actor i o view
  unfolding signed_in_permissions permissions_for get_membership
  by_organization actor i none keys = ground arith
  by_organization actor i (some o) keys =
      rw
        (
          find-key-and (has_key o actor.id) (λ m. is_full_access m.role) members (keys o actor.id),
          find-key-and (has_key o actor.id) (λ m. any_role m.role) members (keys o actor.id),
        )
        (by_rows actor.is_system_admin o (find (has_key o actor.id) members)
          (get_collaborator i.id actor.id collaborators))

  -- With the primary key of memberships, the filter of the list of investigations lets one through
  -- exactly if the signed-in user has the permission to view it.
  pub visible_to-permissions :
      (actor : User) (i : Investigation)
      → HasKeys members
      → visible_to members collaborators actor i
        ≡ permissions members collaborators (some actor) i view
  unfolding visible_to permissions
  visible_to-permissions actor i keys = by_organization actor i i.organization_id keys

  signed_viewing :
      (u : User) (i : Investigation) (o : Option ℕ) (p : InvestigationPermission)
      → signed_in_permissions members collaborators u i o p ≡ true
      → signed_in_permissions members collaborators u i o view ≡ true
  unfolding signed_in_permissions
  signed_viewing u i none p h = may_view u.is_system_admin none none none p h
  signed_viewing u i (some o) p h = elim (Bool-cases u.is_system_admin) [
    | inl y ↦ rw y (unfold permissions_for in refl)
    | inr n ↦ rw n (
        may_view false (some o) (role_of_row (get_membership o u.id members))
          (collaborator_role_of (get_collaborator i.id u.id collaborators)) p (rw n at h))
  ]

  viewing :
      (actor : Option User) (i : Investigation) (p : InvestigationPermission)
      → permissions members collaborators actor i p ≡ true
      → permissions members collaborators actor i view ≡ true
  unfolding permissions
  viewing none i p h = refl
  viewing (some u) i p h = signed_viewing u i i.organization_id p h

  -- A check of a permission raises not found exactly if the user may not even view the investigation,
  -- forbidden exactly if the user may view it but lacks the permission, and passes otherwise.
  require_permission-cases :
      (actor : Option User) (i : Investigation) (p : InvestigationPermission)
      → let may = permissions members collaborators actor i in
        (require_permission members collaborators actor i p
            ≡ err (not_found investigation_not_found)
          ↔ (may view ≡ false))
        × (require_permission members collaborators actor i p ≡ err forbidden
            ↔ ((may view ≡ true) × (may p ≡ false)))
        × (require_permission members collaborators actor i p ≡ ok tt ↔ (may p ≡ true))
  unfolding require_permission
  require_permission-cases actor i p =
      let up : permissions members collaborators actor i p ≡ true
          → permissions members collaborators actor i view ≡ true =
        viewing actor i p in
      (ground arith, ground arith, ground (arith, up))
