-- ===== src/Organizations/Privilege.antt =====
-- The owners and admins of an organization, and who changes them (domain/organizations/service.py).
use signalscope.Shared.{
  ℕ, ◌≡◌, Bool, true, false, not, ◌&&◌, Option, none, some, List, arith, ◌==◌, All-map, ok,
}
use signalscope.Shared.Rows.{count}
use signalscope.Shared.Rows.Counts.{count-update_same, count-delete_same}
use signalscope.Organizations.Model.{User, OrganizationRole, owner, Membership, has_key, role_of}
use signalscope.Organizations.Members.{
  OrganizationTables, manages, is_admin_managed, is_managed_or_none, with_role,
}
use signalscope.Organizations.Changes.{added, changed, removed}
use signalscope.Organizations.Owners.{HasKeys, speaks, MemberOp, add, change, remove, apply}

abbrev pub is_privileged_in : ℕ → Membership → Bool
is_privileged_in o m = m.organization_id == o && not (is_admin_managed m.role)

-- The owners and admins of an organization.
unfoldable pub privileged : ℕ → List Membership → ℕ
privileged o = count (is_privileged_in o)

-- The user whom an operation acts for, and the organization that it names.
abbrev pub actor_of : MemberOp → User
actor_of (add actor o u r) = actor
actor_of (change actor o u r) = actor
actor_of (remove actor o u) = actor

abbrev pub organization_of : MemberOp → ℕ
organization_of (add actor o u r) = o
organization_of (change actor o u r) = o
organization_of (remove actor o u) = o

abbrev pub is_owner_role : Option OrganizationRole → Bool
is_owner_role (some owner) = true
is_owner_role _ = false

-- A manager who is no owner has only managed roles at hand.
managed_only :
    (own current new : Option OrganizationRole)
    → is_owner_role own ≡ false
    → manages own current new ≡ true
    → (is_managed_or_none current ≡ true) × (is_managed_or_none new ≡ true)
unfolding manages
managed_only own current new n h = ground arith

-- A change that succeeds for an actor who is neither a system admin nor an owner of the organization
-- leaves the number of owners and admins of every organization as it was, where the primary key of
-- memberships holds.
pub admins_cannot_escalate :
    (op : MemberOp) (db : OrganizationTables) {db' : OrganizationTables} (o : ℕ)
    → apply op db ≡ ok db'
    → HasKeys db.members
    → (actor_of op).is_system_admin ≡ false
    → is_owner_role (role_of (actor_of op).id (organization_of op) db.members) ≡ false
    → privileged o db'.members ≡ privileged o db.members
unfolding privileged
admins_cannot_escalate (add actor k u r) db o h keys plain no_owner =
    let (may, _, e) = added actor k u r db h in
    let (_, low) =
      managed_only (role_of actor.id k db.members) none (some r) no_owner (rw plain at may) in
    rw e (unfold count in ground arith)
admins_cannot_escalate (change actor k u r) db o h keys plain no_owner =
    let (m, found, may, _, e) = changed actor k u r db h in
    let (was, low) =
      managed_only (role_of actor.id k db.members) (some m.role) (some r) no_owner
        (rw plain at may) in
    rw e (
      count-update_same (has_key k u) (is_privileged_in o) (with_role r) db.members (
        All-map (λ s f y. unfold with_role in ground (arith, f y)) db.members
          (speaks k u db.members keys found (is_privileged_in o) (ground arith))))
admins_cannot_escalate (remove actor k u) db o h keys plain no_owner =
    let (m, found, may, _, e) = removed actor k u db h in
    let (was, _) =
      managed_only (role_of actor.id k db.members) (some m.role) none no_owner (rw plain at may) in
    rw e (
      count-delete_same (has_key k u) (is_privileged_in o) db.members
        (speaks k u db.members keys found (is_privileged_in o) (ground arith)))
