-- ===== src/Organizations/Changes.antt =====
-- What a membership change that returned has tested, and what it has written.
use signalscope.Shared.{
  ℕ, ◌≤◌, ◌≡◌, true, not, ◌&&◌, ◌||◌, Option, none, some, ◌∷◌, arith, ok, inl, inr, Option-cases,
}
use signalscope.Shared.Rows.{update, delete}
use signalscope.Organizations.Model.{
  User, OrganizationRole, is_owner, Membership, has_key, get_membership, role_of,
}
use signalscope.Organizations.Members.{
  OrganizationTables, lock, check_manager, manages, owners, keep_an_owner, add_member,
  change_member_role, remove_member, with_role,
}

-- The manager's test of an operation.
abbrev pub MayManage :
    User → ℕ → Option OrganizationRole → Option OrganizationRole → OrganizationTables → Type 0
MayManage actor o current new db =
    actor.is_system_admin || manages (role_of actor.id o db.members) current new ≡ true

module _ (actor : User) (o u : ℕ) (r : OrganizationRole) (db : OrganizationTables)
    {db' : OrganizationTables} where
  -- A member was added by one who may, and was none before.
  pub added :
      add_member actor o u r db ≡ ok db'
      → MayManage actor o none (some r) db
        × (get_membership o u db.members ≡ none)
        × (db'.members ≡ record { organization_id = o; user_id = u; role = r } ∷ db.members)
  unfolding add_member lock check_manager
  added h = (ground arith, ground arith, ground arith)

  pub changed :
      change_member_role actor o u r db ≡ ok db'
      → (m : Membership) × (get_membership o u db.members ≡ some m)
        × MayManage actor o (some m.role) (some r) db
        × (is_owner m.role && not (is_owner r) ≡ true → 2 ≤ owners o db.members)
        × (db'.members ≡ update (has_key o u) (with_role r) db.members)
  unfolding change_member_role lock check_manager keep_an_owner
  changed h = elim (Option-cases (get_membership o u db.members)) [
    | inl e ↦ absurd (ground arith)
    | inr (m, e) ↦ (m, e, ground arith, (λ own. ground arith), ground arith)
  ]

module _ (actor : User) (o u : ℕ) (db : OrganizationTables) {db' : OrganizationTables} where
  pub removed :
      remove_member actor o u db ≡ ok db'
      → (m : Membership) × (get_membership o u db.members ≡ some m)
        × MayManage actor o (some m.role) none db
        × (is_owner m.role ≡ true → 2 ≤ owners o db.members)
        × (db'.members ≡ delete (has_key o u) db.members)
  unfolding remove_member lock check_manager keep_an_owner
  removed h = elim (Option-cases (get_membership o u db.members)) [
    | inl e ↦ absurd (ground arith)
    | inr (m, e) ↦ (m, e, ground arith, (λ own. ground arith), ground arith)
  ]
