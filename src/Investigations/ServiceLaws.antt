-- ===== src/Investigations/ServiceLaws.antt =====
-- What the operations on investigations test and write.
use signalscope.Shared.{
  ℕ, ◌≡◌, ◌⊎◌, inl, inr, Bool, true, false, ◌&&◌, Option, none, some, ◌∷◌, ◌==◌, arith, ok,
  Bool-cases, Option-cases, Result-cases,
}
use signalscope.Shared.Text.{Text}
use signalscope.Shared.Rows.{find, update, delete}
use signalscope.Organizations.Model.{User}
use signalscope.Investigations.Access.{
  Collaborator, Investigation, InvestigationPermission, edit, delete_it, permissions,
  require_permission,
}
use signalscope.Investigations.Items.{
  InvestigationItemType, research_session_item, Snapshot, InvestigationItem, Records, read_snapshot,
}
use signalscope.Investigations.Service.{
  ServiceTables, has_id, is_closed, get, get_open, check_organization, with_owner,
  new_investigation, create, InvestigationChange, or_old, changes_details, changed,
  update_investigation,
}
use signalscope.Investigations.Saving.{
  delete_investigation, is_reference, is_out_of_scope, add_item, save_research_session, remove_item,
}

module _ (actor : Option User) (i : ℕ) (p : InvestigationPermission) (db : ServiceTables)
    {row : Investigation} where
  pub got :
      get actor i p db ≡ ok row
      → (find (has_id i) db.investigations ≡ some row)
        × (permissions db.members db.collaborators actor row p ≡ true)
  unfolding get require_permission
  got h = elim (Option-cases (find (has_id i) db.investigations)) [
    | inl e ↦ absurd (ground arith)
    | inr (r, e) ↦ (ground arith, ground arith)
  ]

  pub opened :
      get_open actor i p db ≡ ok row
      → (find (has_id i) db.investigations ≡ some row)
        × (permissions db.members db.collaborators actor row p ≡ true)
        × (is_closed row.status ≡ false)
  unfolding get_open
  opened h = elim (Result-cases (get actor i p db)) [
    | inr (x, e) ↦ absurd (ground arith)
    | inl (r, e) ↦
        let same : r ≡ row = ground arith in let (f, g) = got (rw same at e) in (f, g, ground arith)
  ]

module _ (actor : Option User) (db : ServiceTables) where
  pub created :
      (new_id now : ℕ) (title : Text) (description : Option Text) (o : Option ℕ)
      {a : Investigation × ServiceTables}
      → create actor new_id now title description o db ≡ ok a
      → let row = new_investigation actor new_id now title description o in
        (check_organization actor o db ≡ ok tt)
        × (find (has_id new_id) db.investigations ≡ none)
        × (a ≡ (
          row,
          record db {
            investigations = row ∷ db.investigations;
            collaborators = with_owner actor new_id db.collaborators;
          },
        ))
  unfolding create
  created new_id now title description o h = elim (Result-cases (check_organization actor o db)) [
    | inr (x, e) ↦ absurd (ground arith)
    | inl (t, e) ↦ elim (Option-cases (find (has_id new_id) db.investigations)) [
      | inr (r, f) ↦ absurd (ground arith)
      | inl f ↦ (e, f, ground arith)
    ]
  ]

  pub updated :
      (i : ℕ) (c : InvestigationChange) {a : Investigation × ServiceTables}
      → update_investigation actor i c db ≡ ok a
      → (row : Investigation) × (find (has_id i) db.investigations ≡ some row)
        × (permissions db.members db.collaborators actor row edit ≡ true)
        × (changes_details c && is_closed (or_old c.status row.status) ≡ false)
        × (a ≡ (
          changed c row,
          record db { investigations = update (has_id i) (λ _. changed c row) db.investigations },
        ))
  unfolding update_investigation
  updated i c h = elim (Result-cases (get actor i edit db)) [
    | inr (x, e) ↦ absurd (ground arith)
    | inl (row, e) ↦ let (f, g) = got actor i edit db e in (row, f, g, ground arith, ground arith)
  ]

  pub deleted :
      (i : ℕ) {db' : ServiceTables}
      → delete_investigation actor i db ≡ ok db'
      → (row : Investigation) × (get_open actor i delete_it db ≡ ok row)
        × (db' ≡ record db {
          investigations = delete (has_id i) db.investigations;
          collaborators = delete (λ (c : Collaborator). c.investigation_id == i) db.collaborators;
          items = delete (λ (t : InvestigationItem). t.investigation_id == i) db.items;
        })
  unfolding delete_investigation
  deleted i h = elim (Result-cases (get_open actor i delete_it db)) [
    | inr (x, e) ↦ absurd (ground arith)
    | inl (row, e) ↦ (row, e, ground arith)
  ]

  pub added :
      (new_id now i : ℕ) (type : InvestigationItemType) (reference : ℕ) (label : Option Text)
      (r : Records) {a : InvestigationItem × ServiceTables}
      → add_item actor new_id now i type reference label r db ≡ ok a
      → (row : Investigation) × (get_open actor i edit db ≡ ok row)
        × (is_out_of_scope actor r type reference row.organization_id ≡ false)
        × (find (λ (t : InvestigationItem). t.id == new_id) db.items ≡ none)
        × (find (is_reference i type reference) db.items ≡ none)
        × (snapshot : Snapshot) × (read_snapshot r type reference ≡ some snapshot)
        × (a.0 ≡ record {
          id = new_id;
          investigation_id = i;
          item_type = type;
          reference_id = reference;
          label = label;
          snapshot = snapshot;
          created_at = now;
        })
        × (a.1 ≡ record db { items = a.0 ∷ db.items })
  unfolding add_item
  added new_id now i type reference label r h = elim (Result-cases (get_open actor i edit db)) [
    | inr (x, e) ↦ absurd (ground arith)
    | inl (row, e) ↦
        elim (Bool-cases (is_out_of_scope actor r type reference row.organization_id)) [
          | inl out ↦ absurd (ground arith)
          | inr within ↦ elim (Option-cases (read_snapshot r type reference)) [
            | inl g ↦ absurd (ground arith)
            | inr (s, g) ↦
                let free : find (λ (t : InvestigationItem). t.id == new_id) db.items ≡ none =
                  ground arith in
                let new : find (is_reference i type reference) db.items ≡ none = ground arith in
                (row, e, within, free, new, s, g, ground arith, ground arith)
          ]
        ]
  ]

  pub saving_opens :
      (new_id now i session : ℕ) (r : Records) {a : InvestigationItem × Bool × ServiceTables}
      → save_research_session actor new_id now i session r db ≡ ok a
      → (row : Investigation) × (get_open actor i edit db ≡ ok row)
  unfolding save_research_session
  saving_opens new_id now i session r h = elim (Result-cases (get_open actor i edit db)) [
    | inr (x, e) ↦ absurd (ground arith)
    | inl (row, e) ↦ (row, e)
  ]

  pub saved :
      (new_id now i session : ℕ) (r : Records) {a : InvestigationItem × Bool × ServiceTables}
      → save_research_session actor new_id now i session r db ≡ ok a
      → ((find (is_reference i research_session_item session) db.items ≡ some a.0)
          × (a.1 ≡ false)
          × (a.2 ≡ db))
        ⊎ ((a.1 ≡ true)
            × (add_item actor new_id now i research_session_item session none r db ≡ ok (a.0, a.2)))
  unfolding save_research_session
  saved new_id now i session r h = elim (Result-cases (get_open actor i edit db)) [
    | inr (x, e) ↦ absurd (ground arith)
    | inl (row, e) ↦
        elim (Option-cases (find (is_reference i research_session_item session) db.items)) [
          | inr (t, f) ↦ inl (ground arith, ground arith, ground arith)
          | inl f ↦
              elim (Result-cases
                (add_item actor new_id now i research_session_item session none r db)) [
                  | inr (x, g) ↦ absurd (ground arith)
                  | inl (b, g) ↦ inr (ground arith, ground arith)
                ]
        ]
  ]

  pub removed :
      (i item : ℕ) {db' : ServiceTables}
      → remove_item actor i item db ≡ ok db'
      → (row : Investigation) × (get_open actor i edit db ≡ ok row)
        × (t : InvestigationItem) × (find (λ (s : InvestigationItem). s.id == item) db.items
            ≡ some t)
        × (t.investigation_id ≡ i)
        × (db' ≡ record db { items = delete (λ (s : InvestigationItem). s.id == item) db.items })
  unfolding remove_item
  removed i item h = elim (Result-cases (get_open actor i edit db)) [
    | inr (x, e) ↦ absurd (ground arith)
    | inl (row, e) ↦ elim (Option-cases (find (λ (s : InvestigationItem). s.id == item) db.items)) [
      | inl f ↦ absurd (ground arith)
      | inr (t, f) ↦ (row, e, t, f, ground arith, ground arith)
    ]
  ]
