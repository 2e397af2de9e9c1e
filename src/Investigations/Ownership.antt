-- ===== src/Investigations/Ownership.antt =====
-- Changes of collaborators (domain/investigations/members.py): what they test and write, and the owners
-- of an investigation.
use signalscope.Shared.{
  ℕ, ◌≤◌, ◌≡◌, refl, inl, inr, true, false, not, ◌&&◌, none, some, List, [], ◌∷◌, arith, ◌==◌,
  All-of, Result, ok, err, Bool-cases, Option-cases, Result-cases,
}
use signalscope.Shared.Rows.{find, update, delete, count}
use signalscope.Shared.Rows.Laws.{find-In}
use signalscope.Shared.Rows.Counts.{count_of_none, count-update_same, count-delete-le}
use signalscope.Shared.Rows.Kept.{kept-update, kept-delete}
use signalscope.Organizations.Model.{User}
use signalscope.Investigations.Access.{
  CollaboratorRole, Collaborator, Investigation, manage_members, InvestigationError,
  has_collaborator_key, get_collaborator, permissions, require_permission,
}
use signalscope.Investigations.Members.{
  InvestigationTables, is_owner, lock_investigation, is_owner_of, investigation_owners,
  keep_an_owner, add_collaborator, with_role, change_collaborator_role, remove_collaborator,
}

-- (investigation_id, user_id) is a primary key.
abbrev pub HasKeys : List Collaborator → Type 0
HasKeys collaborators = (i u : ℕ) → count (has_collaborator_key i u) collaborators ≤ 1

-- The actor has the permission to manage the collaborators of the investigation.
abbrev pub MayManage : User → ℕ → InvestigationTables → Type 0
MayManage actor i db =
    (row : Investigation) × (find (λ (r : Investigation). r.id == i) db.investigations ≡ some row)
    × (permissions db.members db.collaborators (some actor) row manage_members ≡ true)

locked :
    (actor : User) (i : ℕ) (db : InvestigationTables) {row : Investigation}
    → lock_investigation actor i db ≡ ok row
    → MayManage actor i db
unfolding lock_investigation require_permission
locked actor i db h =
    elim (Option-cases (find (λ (r : Investigation). r.id == i) db.investigations)) [
      | inl e ↦ absurd (ground arith)
      | inr (row, e) ↦ (row, e, ground arith)
    ]

module _ (actor : User) (i u : ℕ) (db : InvestigationTables) {db' : InvestigationTables} where
  added :
      (r : CollaboratorRole)
      → add_collaborator actor i u r db ≡ ok db'
      → MayManage actor i db
        × (get_collaborator i u db.collaborators ≡ none)
        × (db'.collaborators
            ≡ record { investigation_id = i; user_id = u; role = r } ∷ db.collaborators)
  unfolding add_collaborator
  added r h = elim (Result-cases (lock_investigation actor i db)) [
    | inr (x, e) ↦ absurd (ground arith)
    | inl (row, e) ↦ (locked actor i db e, ground arith, ground arith)
  ]

  changed :
      (r : CollaboratorRole)
      → change_collaborator_role actor i u r db ≡ ok db'
      → MayManage actor i db
        × (c : Collaborator) × (get_collaborator i u db.collaborators ≡ some c)
        × (is_owner c.role && not (is_owner r) ≡ true → 2 ≤ investigation_owners i db.collaborators)
        × (db'.collaborators ≡ update (has_collaborator_key i u) (with_role r) db.collaborators)
  unfolding change_collaborator_role keep_an_owner
  changed r h = elim (Result-cases (lock_investigation actor i db)) [
    | inr (x, e) ↦ absurd (ground arith)
    | inl (row, e) ↦ elim (Option-cases (get_collaborator i u db.collaborators)) [
      | inl f ↦ absurd (ground arith)
      | inr (c, f) ↦ (locked actor i db e, c, f, (λ own. ground arith), ground arith)
    ]
  ]

  removed :
      remove_collaborator actor i u db ≡ ok db'
      → MayManage actor i db
        × (c : Collaborator) × (get_collaborator i u db.collaborators ≡ some c)
        × (is_owner c.role ≡ true → 2 ≤ investigation_owners i db.collaborators)
        × (db'.collaborators ≡ delete (has_collaborator_key i u) db.collaborators)
  unfolding remove_collaborator keep_an_owner
  removed h = elim (Result-cases (lock_investigation actor i db)) [
    | inr (x, e) ↦ absurd (ground arith)
    | inl (row, e) ↦ elim (Option-cases (get_collaborator i u db.collaborators)) [
      | inl f ↦ absurd (ground arith)
      | inr (c, f) ↦ (locked actor i db e, c, f, (λ own. ground arith), ground arith)
    ]
  ]

pub data CollaboratorOp : Type 0 where
  add change : User → ℕ → ℕ → CollaboratorRole → CollaboratorOp
  remove : User → ℕ → ℕ → CollaboratorOp

abbrev pub apply :
    CollaboratorOp → InvestigationTables → Result InvestigationError InvestigationTables
apply (add actor i u r) db = add_collaborator actor i u r db
apply (change actor i u r) db = change_collaborator_role actor i u r db
apply (remove actor i u) db = remove_collaborator actor i u db

abbrev pub or_kept :
    InvestigationTables → Result InvestigationError InvestigationTables → InvestigationTables
or_kept db (ok db') = db'
or_kept db (err e) = db

unfoldable pub apply_all : List CollaboratorOp → InvestigationTables → InvestigationTables
apply_all [] db = db
apply_all (op ∷ ops) db = apply_all ops (or_kept db (apply op db))

new-HasKeys :
    (i u : ℕ) (r : CollaboratorRole) (collaborators : List Collaborator)
    → get_collaborator i u collaborators ≡ none
    → HasKeys collaborators
    → HasKeys (record { investigation_id = i; user_id = u; role = r } ∷ collaborators)
unfolding count get_collaborator
new-HasKeys i u r collaborators absent keys k v = elim (Bool-cases (i == k && u == v)) [
  | inr n ↦ rw n (keys k v)
  | inl y ↦
      let same : i ≡ k = ground arith in
      let same' : u ≡ v = ground arith in
      let alone = count_of_none (has_collaborator_key i u) collaborators absent in
      rw y (omega (arith, rw (same, same') at alone))
]

apply-HasKeys :
    (op : CollaboratorOp) (db : InvestigationTables) {db' : InvestigationTables}
    → apply op db ≡ ok db'
    → HasKeys db.collaborators
    → HasKeys db'.collaborators
apply-HasKeys (add actor i u r) db h keys =
    let (_, absent, e) = added actor i u db r h in
    rw e (new-HasKeys i u r db.collaborators absent keys)
apply-HasKeys (change actor i u r) db h keys =
    let (_, c, _, _, e) = changed actor i u db r h in
    rw e λ k v.
      rw
        (count-update_same (has_collaborator_key i u) (has_collaborator_key k v) (with_role r)
          db.collaborators (All-of (λ s _. unfold with_role in refl) db.collaborators))
        (keys k v)
apply-HasKeys (remove actor i u) db h keys =
    let (_, c, _, _, e) = removed actor i u db h in
    rw e λ k v. omega (
      arith,
      count-delete-le (has_collaborator_key i u) (has_collaborator_key k v) db.collaborators,
      keys k v,
    )

-- The guard of an investigation, as a guard of any: the row that was found is one of `i`.
module _ (k i u : ℕ) (c : Collaborator) (collaborators : List Collaborator)
    (found : get_collaborator i u collaborators ≡ some c) where
  same_investigation : is_owner_of k c ≡ true → (i ≡ k) × (is_owner c.role ≡ true)
  unfolding get_collaborator
  same_investigation own =
      let (fits, _) = find-In (has_collaborator_key i u) collaborators found in
      (ground arith, ground arith)

  change-guard :
      (r : CollaboratorRole)
      → (is_owner c.role && not (is_owner r) ≡ true → 2 ≤ investigation_owners i collaborators)
      → is_owner_of k c ≡ true
      → is_owner_of k (with_role r c) ≡ false
      → 2 ≤ count (is_owner_of k) collaborators
  unfolding with_role investigation_owners
  change-guard r guard own lost =
      let (same, is) = same_investigation own in rw (← same) (guard (ground arith))

  remove-guard :
      (is_owner c.role ≡ true → 2 ≤ investigation_owners i collaborators)
      → is_owner_of k c ≡ true
      → 2 ≤ count (is_owner_of k) collaborators
  unfolding investigation_owners
  remove-guard guard own = let (same, is) = same_investigation own in rw (← same) (guard is)

apply-owners :
    (op : CollaboratorOp) (db : InvestigationTables) {db' : InvestigationTables} (k : ℕ)
    → apply op db ≡ ok db'
    → HasKeys db.collaborators
    → 1 ≤ investigation_owners k db.collaborators
    → 1 ≤ investigation_owners k db'.collaborators
unfolding investigation_owners get_collaborator
apply-owners (add actor i u r) db k h keys own =
    let (_, _, e) = added actor i u db r h in rw e (unfold count in ground arith)
apply-owners (change actor i u r) db k h keys own =
    let (_, c, found, guard, e) = changed actor i u db r h in
    rw e (
      kept-update (has_collaborator_key i u) (is_owner_of k) db.collaborators (keys i u) found own
        (with_role r) (change-guard k i u c db.collaborators found r guard))
apply-owners (remove actor i u) db k h keys own =
    let (_, c, found, guard, e) = removed actor i u db h in
    rw e (
      kept-delete (has_collaborator_key i u) (is_owner_of k) db.collaborators (keys i u) found own
        (remove-guard k i u c db.collaborators found guard))

-- Whatever changes of collaborators are asked for, by whomever and in whatever order, an
-- investigation that has an owner keeps one, where the primary key of collaborators holds.
pub investigation_keeps_owner :
    (ops : List CollaboratorOp) (db : InvestigationTables) (k : ℕ)
    → HasKeys db.collaborators
    → 1 ≤ investigation_owners k db.collaborators
    → 1 ≤ investigation_owners k (apply_all ops db).collaborators
unfolding apply_all
investigation_keeps_owner [] db k keys own = own
investigation_keeps_owner (op ∷ ops) db k keys own = elim (Result-cases (apply op db)) [
  | inl (db', e) ↦
      rw (apply_all, e)
        (investigation_keeps_owner ops db' k (apply-HasKeys op db e keys)
          (apply-owners op db k e keys own))
  | inr (x, e) ↦ rw (apply_all, e) (investigation_keeps_owner ops db k keys own)
]

abbrev pub actor_of : CollaboratorOp → User
actor_of (add actor i u r) = actor
actor_of (change actor i u r) = actor
actor_of (remove actor i u) = actor

abbrev pub investigation_of : CollaboratorOp → ℕ
investigation_of (add actor i u r) = i
investigation_of (change actor i u r) = i
investigation_of (remove actor i u) = i

-- A change of collaborators that succeeds was asked for by a user who has the permission to manage
-- the collaborators of the investigation.
only_managers_change :
    (op : CollaboratorOp) (db : InvestigationTables) {db' : InvestigationTables}
    → apply op db ≡ ok db'
    → MayManage (actor_of op) (investigation_of op) db
only_managers_change (add actor i u r) db h = (added actor i u db r h).0
only_managers_change (change actor i u r) db h = (changed actor i u db r h).0
only_managers_change (remove actor i u) db h = (removed actor i u db h).0
