-- ===== src/Investigations/Members.antt =====
-- domain/investigations/members.py. Each operation is one transaction on the row of the
-- investigation, which it locks, and an error rolls it back.
use signalscope.Shared.{
  ℕ, Bool, true, false, not, ◌&&◌, ◌||◌, Option, none, some, List, [], ◌∷◌, ◌==◌, String, leb,
  Result, ok, ◌>>=◌, ◌>>◌, raise_if, some_or_raise, is_some, if◌then◌else◌,
}
use signalscope.Shared.Rows.{find, update, delete, count}
use signalscope.Audit.{
  AuditAction, collaborator_added, collaborator_role_changed, collaborator_removed, DetailKey,
  user_id, role, old_role, new_role, DetailValue, number, text, AuditLog, record_event,
}
use signalscope.Organizations.Model.{User, Membership, get_membership}
use signalscope.Investigations.Access.{
  CollaboratorRole, owner_role, editor_role, viewer_role, Collaborator, Investigation,
  manage_members, InvestigationError, not_found, conflict, investigation_not_found,
  has_collaborator_key, get_collaborator, require_permission,
}

pub record InvestigationTables : Type 0 where
  pub users : List User
  pub members : List Membership
  pub investigations : List Investigation
  pub collaborators : List Collaborator
  pub audit : AuditLog

abbrev pub is_owner : CollaboratorRole → Bool
is_owner owner_role = true
is_owner _ = false

abbrev pub role_name : CollaboratorRole → String
role_name owner_role = "owner"
role_name editor_role = "editor"
role_name viewer_role = "viewer"

unfoldable pub record_collaboration :
    AuditAction → User → Investigation → List (DetailKey × DetailValue) → AuditLog → AuditLog
record_collaboration action actor i =
    record_event action (some actor.id) "investigation" (some i.id) i.organization_id

-- `_lock`
unfoldable pub lock_investigation :
    User → ℕ → InvestigationTables → Result InvestigationError Investigation
lock_investigation actor investigation_id db = do
  i ←
      some_or_raise (find (λ (i : Investigation). i.id == investigation_id) db.investigations)
        (not_found investigation_not_found)
  require_permission db.members db.collaborators (some actor) i manage_members
  ok i

abbrev pub is_owner_of : ℕ → Collaborator → Bool
is_owner_of investigation_id c = c.investigation_id == investigation_id && is_owner c.role

-- The count in `_keep_an_owner`
unfoldable pub investigation_owners : ℕ → List Collaborator → ℕ
investigation_owners investigation_id = count (is_owner_of investigation_id)

unfoldable pub keep_an_owner : ℕ → InvestigationTables → Result InvestigationError (Unit {0})
keep_an_owner investigation_id db =
    raise_if (leb (investigation_owners investigation_id db.collaborators) 1)
      (conflict "An investigation must keep at least one owner.")

abbrev pub member_of : Option ℕ → ℕ → List Membership → Option Membership
member_of none i members = none
member_of (some o) i members = get_membership o i members

abbrev pub is_absent_or_inactive : Option User → Bool
is_absent_or_inactive none = true
is_absent_or_inactive (some u) = not u.is_active

-- The primary key of a collaborator makes a second one a unique violation.
unfoldable pub add_collaborator :
    User
    → ℕ
    → ℕ
    → CollaboratorRole
    → InvestigationTables
    → Result InvestigationError InvestigationTables
add_collaborator actor investigation_id collaborator_id r db = do
  i ← lock_investigation actor investigation_id db
  raise_if
      (is_absent_or_inactive (find (λ (u : User). u.id == collaborator_id) db.users)
        || not (is_some (member_of i.organization_id collaborator_id db.members)))
      (not_found "User was not found in the investigation's organization.")
  raise_if (is_some (get_collaborator investigation_id collaborator_id db.collaborators))
      (conflict "The user is already a collaborator.")
  ok (record db {
    collaborators =
        record { investigation_id = investigation_id; user_id = collaborator_id; role = r }
        ∷ db.collaborators;
    audit =
        record_collaboration collaborator_added actor i
          ((user_id, number collaborator_id) ∷ (role, text (role_name r)) ∷ []) db.audit;
  })

unfoldable pub with_role : CollaboratorRole → Collaborator → Collaborator
with_role r c = record c { role = r }

unfoldable pub change_collaborator_role :
    User
    → ℕ
    → ℕ
    → CollaboratorRole
    → InvestigationTables
    → Result InvestigationError InvestigationTables
change_collaborator_role actor investigation_id collaborator_id r db = do
  i ← lock_investigation actor investigation_id db
  c ←
      some_or_raise (get_collaborator investigation_id collaborator_id db.collaborators)
        (not_found "Collaborator was not found.")
  (if is_owner c.role && not (is_owner r) then keep_an_owner investigation_id db else ok tt)
  ok (record db {
    collaborators =
        update (has_collaborator_key investigation_id collaborator_id) (with_role r)
          db.collaborators;
    audit =
        record_collaboration collaborator_role_changed actor i
          ((user_id, number collaborator_id)
            ∷ (old_role, text (role_name c.role))
            ∷ (new_role, text (role_name r))
            ∷ [])
          db.audit;
  })

unfoldable pub remove_collaborator :
    User → ℕ → ℕ → InvestigationTables → Result InvestigationError InvestigationTables
remove_collaborator actor investigation_id collaborator_id db = do
  i ← lock_investigation actor investigation_id db
  c ←
      some_or_raise (get_collaborator investigation_id collaborator_id db.collaborators)
        (not_found "Collaborator was not found.")
  (if is_owner c.role then keep_an_owner investigation_id db else ok tt)
  ok (record db {
    collaborators = delete (has_collaborator_key investigation_id collaborator_id) db.collaborators;
    audit =
        record_collaboration collaborator_removed actor i
          ((user_id, number collaborator_id) ∷ (role, text (role_name c.role)) ∷ []) db.audit;
  })
