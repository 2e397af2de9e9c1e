-- ===== src/Restore/Users.antt =====
-- domain/organizations/restore_user_mapping.py: which users of an archive map to which existing ones.
-- `uuid_of` is the parser of UUIDs, which has no value where Python raises a ValueError; a mapping is
-- looked up by the text of an ID, which stands for the ID. A key that a row lacks has no string.
use signalscope.Shared.{
  ℕ, Bool, false, not, Option, none, some, List, [], ◌∷◌, ◌++◌, ◌==◌, ltb, Result, ok, err, ◌>>=◌,
  ◌>>◌, raise_if, is_some, if◌then◌else◌,
}
use signalscope.Shared.Text.{Text}
use signalscope.Shared.Rows.{find}
use signalscope.Organizations.Model.{User}

pub data FieldValue : Type 0 where
  string : Text → FieldValue
  not_string : FieldValue

pub data ArchiveKey : Type 0 where
  created_by_user_id user_id actor_user_id role : ArchiveKey

abbrev pub ArchiveRow : Type 0
ArchiveRow = ArchiveKey → FieldValue

-- The sections of an archive that point at users
pub record Archive : Type 0 where
  pub organization : List ArchiveRow
  pub memberships : List ArchiveRow
  pub investigations : List ArchiveRow
  pub investigation_collaborators : List ArchiveRow
  pub security_audit : List ArchiveRow

pub data MappingError : Type 0 where
  malformed_uuid : MappingError
  same_user : MappingError
  no_active_user : ℕ → MappingError

pub record UserMappingSuggestion : Type 0 where
  pub archived_user_id : ℕ
  pub role : Option Text
  pub suggested_user_id : Option ℕ
  pub suggested_email : Option Text
  pub suggested_active : Bool

-- `sorted` of a set, kept in order and without repetition
unfoldable pub add_sorted : ℕ → List ℕ → List ℕ
add_sorted i [] = i ∷ []
add_sorted i (j ∷ ids) =
    if ltb i j then i ∷ j ∷ ids else if i == j then j ∷ ids else j ∷ add_sorted i ids

-- The active state of a user that may be missing
abbrev pub is_active_user : Option User → Bool
is_active_user none = false
is_active_user (some u) = u.is_active

abbrev pub user_with_id : ℕ → User → Bool
user_with_id i u = u.id == i

unfoldable pub sorted_set : List ℕ → List ℕ
sorted_set [] = []
sorted_set (i ∷ ids) = add_sorted i (sorted_set ids)

abbrev pub role_in : List (ℕ × Text) → ℕ → Option Text
role_in roles i = elim (find (λ (r : ℕ × Text). r.0 == i) roles) [ none ↦ none | some r ↦ some r.1 ]

abbrev pub suggestion : List (ℕ × Text) → ℕ → Option User → UserMappingSuggestion
suggestion roles i none = record {
  archived_user_id = i;
  role = role_in roles i;
  suggested_user_id = none;
  suggested_email = none;
  suggested_active = false;
}
suggestion roles i (some u) = record {
  archived_user_id = i;
  role = role_in roles i;
  suggested_user_id = some u.id;
  suggested_email = some u.email;
  suggested_active = u.is_active;
}

unfoldable pub suggestions : List User → List (ℕ × Text) → List ℕ → List UserMappingSuggestion
suggestions users roles [] = []
suggestions users roles (i ∷ ids) =
    suggestion roles i (find (user_with_id i) users) ∷ suggestions users roles ids

abbrev pub target_of : (ℕ → Option ℕ) → ℕ → ℕ
target_of mappings i = elim (mappings i) [ none ↦ i | some t ↦ t ]

-- The loop of `resolve`; the pairs made so far hold the used targets, the latest first.
unfoldable pub resolve_each :
    List User → (ℕ → Option ℕ) → List ℕ → List (ℕ × ℕ) → Result MappingError (List (ℕ × ℕ))
resolve_each users mappings [] resolved = ok resolved
resolve_each users mappings (i ∷ ids) resolved = do
  raise_if (is_some (find (λ (p : ℕ × ℕ). p.1 == target_of mappings i) resolved)) same_user
  raise_if (not (is_active_user (find (user_with_id (target_of mappings i)) users)))
      (no_active_user i)
  resolve_each users mappings ids ((i, target_of mappings i) ∷ resolved)

module _ (uuid_of : Text → Option ℕ) where
  abbrev pub value_id : FieldValue → Result MappingError (List ℕ)
  value_id not_string = ok []
  value_id (string t) = elim (uuid_of t) [ none ↦ err malformed_uuid | some i ↦ ok (i ∷ []) ]

  -- The IDs of one section
  unfoldable pub section_ids : ArchiveKey → List ArchiveRow → Result MappingError (List ℕ)
  section_ids key [] = ok []
  section_ids key (row ∷ rows) = do
    ids ← value_id (row key)
    rest ← section_ids key rows
    ok (ids ++ rest)

  -- `USER_REFERENCES`
  unfoldable pub referenced_user_ids : Archive → Result MappingError (List ℕ)
  referenced_user_ids archive = do
    a ← section_ids created_by_user_id archive.organization
    b ← section_ids user_id archive.memberships
    c ← section_ids created_by_user_id archive.investigations
    d ← section_ids user_id archive.investigation_collaborators
    e ← section_ids actor_user_id archive.security_audit
    ok (sorted_set (a ++ (b ++ (c ++ (d ++ e)))))

  abbrev pub add_role : FieldValue → FieldValue → List (ℕ × Text) → List (ℕ × Text)
  add_role (string u) (string r) roles = elim (uuid_of u) [ none ↦ roles | some i ↦ (i, r) ∷ roles ]
  add_role _ _ roles = roles

  -- `_membership_roles`: a later row stands before an earlier one.
  unfoldable pub membership_roles : List ArchiveRow → List (ℕ × Text) → List (ℕ × Text)
  membership_roles [] roles = roles
  membership_roles (row ∷ rows) roles =
      membership_roles rows (add_role (row user_id) (row role) roles)

  unfoldable pub plan :
      List User → Archive → Result MappingError (List UserMappingSuggestion × List ℕ)
  plan users archive = do
    required ← referenced_user_ids archive
    ok (suggestions users (membership_roles archive.memberships []) required, required)

  unfoldable pub resolve : List User → (ℕ → Option ℕ) → Archive → Result MappingError (List (ℕ × ℕ))
  resolve users mappings archive = do
    ids ← referenced_user_ids archive
    resolve_each users mappings ids []
