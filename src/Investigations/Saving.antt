-- ===== src/Investigations/Saving.antt =====
-- domain/investigations/service.py: the items of an investigation, and its deletion.
use signalscope.Shared.{
  ℕ, Bool, true, false, not, ◌&&◌, ◌||◌, Option, none, some, List, ◌∷◌, ◌==◌, String, ltb, Result,
  ok, err, ◌>>=◌, ◌>>◌, raise_if, some_or_raise, is_some,
}
use signalscope.Shared.Text.{Text}
use signalscope.Shared.Rows.{find, select, delete, order_by}
use signalscope.Tenancy.Scope.{owned_by}
use signalscope.Organizations.Model.{User}
use signalscope.Investigations.Access.{
  Collaborator, view, edit, delete_it, InvestigationError, not_found, conflict, database_error,
}
use signalscope.Investigations.Items.{
  InvestigationItemType, source_item, document_item, event_item, event_cluster_item, entity_item,
  claim_item, research_session_item, InvestigationItem, Records, read_snapshot, reference_in_scope,
}
use signalscope.Investigations.Service.{ServiceTables, has_id, same_type, fits_label, get, get_open}

-- The foreign keys of items and collaborators are ON DELETE CASCADE.
unfoldable pub delete_investigation :
    Option User → ℕ → ServiceTables → Result InvestigationError ServiceTables
delete_investigation actor i db = do
  row ← get_open actor i delete_it db
  ok (record db {
    investigations = delete (has_id i) db.investigations;
    collaborators = delete (λ (c : Collaborator). c.investigation_id == i) db.collaborators;
    items = delete (λ (t : InvestigationItem). t.investigation_id == i) db.items;
  })

-- "The {item_type} to save was not found."
abbrev pub to_save_not_found : InvestigationItemType → String
to_save_not_found source_item = "The source to save was not found."
to_save_not_found document_item = "The document to save was not found."
to_save_not_found event_item = "The event to save was not found."
to_save_not_found event_cluster_item = "The event cluster to save was not found."
to_save_not_found entity_item = "The entity to save was not found."
to_save_not_found claim_item = "The claim to save was not found."
to_save_not_found research_session_item = "The research session to save was not found."

-- UniqueConstraint("investigation_id", "item_type", "reference_id")
abbrev pub is_reference : ℕ → InvestigationItemType → ℕ → InvestigationItem → Bool
is_reference i type reference t =
    t.investigation_id == i && (same_type t.item_type type && t.reference_id == reference)

abbrev pub is_out_of_scope : Option User → Records → InvestigationItemType → ℕ → Option ℕ → Bool
is_out_of_scope none r type reference organization_id = false
is_out_of_scope (some actor) r type reference organization_id =
    not (reference_in_scope r type reference (owned_by organization_id))

unfoldable pub add_item :
    Option User
    → ℕ
    → ℕ
    → ℕ
    → InvestigationItemType
    → ℕ
    → Option Text
    → Records
    → ServiceTables
    → Result InvestigationError (InvestigationItem × ServiceTables)
add_item actor new_id now i type reference label r db = do
  row ← get_open actor i edit db
  raise_if (is_out_of_scope actor r type reference row.organization_id)
      (not_found (to_save_not_found type))
  snapshot ← some_or_raise (read_snapshot r type reference) (not_found (to_save_not_found type))
  raise_if (not (fits_label label)) database_error
  raise_if
      (is_some (find (λ (t : InvestigationItem). t.id == new_id) db.items)
        || is_some (find (is_reference i type reference) db.items))
      (conflict "This item is already saved in the investigation.")
  (let item : InvestigationItem = record {
    id = new_id;
    investigation_id = i;
    item_type = type;
    reference_id = reference;
    label = label;
    snapshot = snapshot;
    created_at = now;
  } in
      ok (item, record db { items = item ∷ db.items }))

-- The item that was saved before, or a new one
abbrev pub save_or_find :
    Option InvestigationItem
    → ServiceTables
    → Result InvestigationError (InvestigationItem × ServiceTables)
    → Result InvestigationError (InvestigationItem × Bool × ServiceTables)
save_or_find (some existing) db added = ok (existing, false, db)
save_or_find none db (ok (item, db')) = ok (item, true, db')
save_or_find none db (err e) = err e

unfoldable pub save_research_session :
    Option User
    → ℕ
    → ℕ
    → ℕ
    → ℕ
    → Records
    → ServiceTables
    → Result InvestigationError (InvestigationItem × Bool × ServiceTables)
save_research_session actor new_id now i session r db = do
  row ← get_open actor i edit db
  save_or_find (find (is_reference i research_session_item session) db.items) db
      (add_item actor new_id now i research_session_item session none r db)

abbrev pub belongs_to : ℕ → Option InvestigationItem → Bool
belongs_to i none = false
belongs_to i (some t) = t.investigation_id == i

unfoldable pub remove_item :
    Option User → ℕ → ℕ → ServiceTables → Result InvestigationError ServiceTables
remove_item actor i item_id db = do
  row ← get_open actor i edit db
  raise_if (not (belongs_to i (find (λ (t : InvestigationItem). t.id == item_id) db.items)))
      (not_found "Investigation item was not found.")
  ok (record db { items = delete (λ (t : InvestigationItem). t.id == item_id) db.items })

-- ORDER BY created_at, id
unfoldable pub is_older : InvestigationItem → InvestigationItem → Bool
is_older a b = ltb a.created_at b.created_at || (a.created_at == b.created_at && ltb a.id b.id)

unfoldable pub list_items :
    Option User → ℕ → ServiceTables → Result InvestigationError (List InvestigationItem)
list_items actor i db = do
  row ← get actor i view db
  ok (order_by is_older (select (λ (t : InvestigationItem). t.investigation_id == i) db.items))
