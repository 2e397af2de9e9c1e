-- ===== src/Investigations/Service.antt =====
-- domain/investigations/service.py. Each operation is one transaction, and an error rolls it back. The
-- actor is `none` when authentication is disabled and for local commands. IDs that the database makes
-- and the clock are arguments.
use signalscope.Shared.{
  ℕ, Bool, true, false, not, ◌&&◌, ◌||◌, Option, none, some, List, [], ◌∷◌, ◌==◌, leb, ltb, Result,
  ok, err, ◌>>=◌, ◌>>◌, raise_if, some_or_raise, is_some, if◌then◌else◌, length, take, drop,
}
use signalscope.Shared.Text.{Text}
use signalscope.Shared.Rows.{find, select, update, order_by, count}
use signalscope.Tenancy.Scope.{sql_same}
use signalscope.Organizations.Model.{User, Membership, get_membership}
use signalscope.Investigations.Access.{
  owner_role, Collaborator, Investigation, InvestigationStatus, open_status, closed_status,
  InvestigationPermission, edit, InvestigationError, not_found, conflict, invalid_input,
  database_error, investigation_not_found, visible_to, require_permission,
}
use signalscope.Investigations.Items.{
  InvestigationItemType, source_item, document_item, event_item, event_cluster_item, entity_item,
  claim_item, research_session_item, InvestigationItem,
}

pub record ServiceTables : Type 0 where
  pub organizations : List ℕ
  pub members : List Membership
  pub investigations : List Investigation
  pub collaborators : List Collaborator
  pub items : List InvestigationItem

abbrev pub has_id : ℕ → Investigation → Bool
has_id i row = row.id == i

abbrev pub is_closed : InvestigationStatus → Bool
is_closed open_status = false
is_closed closed_status = true

abbrev pub same_status : InvestigationStatus → InvestigationStatus → Bool
same_status open_status open_status = true
same_status closed_status closed_status = true
same_status _ _ = false

abbrev pub same_type : InvestigationItemType → InvestigationItemType → Bool
same_type source_item source_item = true
same_type document_item document_item = true
same_type event_item event_item = true
same_type event_cluster_item event_cluster_item = true
same_type entity_item entity_item = true
same_type claim_item claim_item = true
same_type research_session_item research_session_item = true
same_type _ _ = false

abbrev pub organization_exists : ℕ → List ℕ → Bool
organization_exists o organizations = is_some (find (λ i. i == o) organizations)

-- The foreign key of organization_id
abbrev pub refers : Option ℕ → List ℕ → Bool
refers none organizations = true
refers (some o) organizations = organization_exists o organizations

-- `btrim(title) = ''`
unfoldable pub is_blank : Text → Bool
is_blank [] = true
is_blank (c ∷ cs) = c == 32 && is_blank cs

-- What the columns take: String(200), and the check on the title.
unfoldable pub is_storable_title : Text → Bool
is_storable_title title = leb (length title) 200 && not (is_blank title)

abbrev pub fits_title : Option Text → Bool
fits_title none = true
fits_title (some title) = is_storable_title title

abbrev pub fits_label : Option Text → Bool
fits_label none = true
fits_label (some label) = leb (length label) 200

abbrev pub id_of_user : Option User → Option ℕ
id_of_user none = none
id_of_user (some actor) = some actor.id

-- `_check_organization`, which a signed in actor alone meets
unfoldable pub check_organization :
    Option User → Option ℕ → ServiceTables → Result InvestigationError (Unit {0})
check_organization none organization_id db = ok tt
check_organization (some actor) none db = err (invalid_input "organization_id is required.")
check_organization (some actor) (some o) db =
    raise_if
      (not (organization_exists o db.organizations)
        || (not (is_some (get_membership o actor.id db.members)) && not actor.is_system_admin))
      (not_found "Organization was not found.")

unfoldable pub with_owner : Option User → ℕ → List Collaborator → List Collaborator
with_owner none i collaborators = collaborators
with_owner (some actor) i collaborators =
    record { investigation_id = i; user_id = actor.id; role = owner_role } ∷ collaborators

unfoldable pub new_investigation :
    Option User → ℕ → ℕ → Text → Option Text → Option ℕ → Investigation
new_investigation actor new_id now title description organization_id = record {
  id = new_id;
  title = title;
  description = description;
  status = open_status;
  organization_id = organization_id;
  created_by_user_id = id_of_user actor;
  created_at = now;
}

unfoldable pub create :
    Option User
    → ℕ
    → ℕ
    → Text
    → Option Text
    → Option ℕ
    → ServiceTables
    → Result InvestigationError (Investigation × ServiceTables)
create actor new_id now title description organization_id db = do
  check_organization actor organization_id db
  raise_if
      (is_some (find (has_id new_id) db.investigations)
        || not (refers organization_id db.organizations)
        || not (is_storable_title title))
      database_error
  ok (
    new_investigation actor new_id now title description organization_id,
    record db {
      investigations =
          new_investigation actor new_id now title description organization_id ∷ db.investigations;
      collaborators = with_owner actor new_id db.collaborators;
    },
  )

-- `get`, and `_locked`
unfoldable pub get :
    Option User
    → ℕ
    → InvestigationPermission
    → ServiceTables
    → Result InvestigationError Investigation
get actor i p db = do
  row ← some_or_raise (find (has_id i) db.investigations) (not_found investigation_not_found)
  require_permission db.members db.collaborators actor row p
  ok row

-- `_open`
unfoldable pub get_open :
    Option User
    → ℕ
    → InvestigationPermission
    → ServiceTables
    → Result InvestigationError Investigation
get_open actor i p db = do
  row ← get actor i p db
  raise_if (is_closed row.status) (conflict "Investigation is closed. Reopen it to change it.")
  ok row

abbrev pub has_status : Option InvestigationStatus → Investigation → Bool
has_status none row = true
has_status (some s) row = same_status row.status s

abbrev pub in_organization : Option ℕ → Investigation → Bool
in_organization none row = true
in_organization (some o) row = sql_same row.organization_id (some o)

abbrev pub seen_by : Option User → ServiceTables → Investigation → Bool
seen_by none db row = true
seen_by (some actor) db row = visible_to db.members db.collaborators actor row

-- The conditions of `list_page`
unfoldable pub is_listed :
    Option User → Option InvestigationStatus → Option ℕ → ServiceTables → Investigation → Bool
is_listed actor status organization_id db row =
    has_status status row && (in_organization organization_id row && seen_by actor db row)

-- ORDER BY created_at DESC, id
unfoldable pub is_newer : Investigation → Investigation → Bool
is_newer a b = ltb b.created_at a.created_at || (a.created_at == b.created_at && ltb a.id b.id)

unfoldable pub list_page :
    Option User
    → Option InvestigationStatus
    → ℕ
    → ℕ
    → Option ℕ
    → ServiceTables
    → List Investigation × ℕ
list_page actor status limit offset organization_id db =
    let listed = is_listed actor status organization_id db in
    (
      take limit (drop offset (order_by is_newer (select listed db.investigations))),
      count listed db.investigations,
    )

-- The fields given to `update`
pub record InvestigationChange : Type 0 where
  pub title : Option Text
  pub description : Option Text
  pub clear_description : Bool
  pub status : Option InvestigationStatus

abbrev pub or_old {ℓ} : {A : Type ℓ} → Option A → A → A
or_old none old = old
or_old (some new) old = new

unfoldable pub changes_details : InvestigationChange → Bool
changes_details c = is_some c.title || (is_some c.description || c.clear_description)

unfoldable pub changed : InvestigationChange → Investigation → Investigation
changed c row = record row {
  title = or_old c.title row.title;
  description =
      if is_some c.description || c.clear_description then c.description else row.description;
  status = or_old c.status row.status;
}

unfoldable pub update_investigation :
    Option User
    → ℕ
    → InvestigationChange
    → ServiceTables
    → Result InvestigationError (Investigation × ServiceTables)
update_investigation actor i c db = do
  row ← get actor i edit db
  raise_if (changes_details c && is_closed (or_old c.status row.status))
      (conflict "Investigation is closed. Reopen it to change it.")
  raise_if (not (fits_title c.title)) database_error
  ok (
    changed c row,
    record db { investigations = update (has_id i) (λ _. changed c row) db.investigations },
  )

-- `close` and `reopen`
abbrev pub status_change : InvestigationStatus → InvestigationChange
status_change s = record {
  title = none;
  description = none;
  clear_description = false;
  status = some s;
}
