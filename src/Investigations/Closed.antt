-- ===== src/Investigations/Closed.antt =====
-- Operations on investigations and items in any order, and an investigation that is closed.
use signalscope.Shared.{
  ℕ, ◌≡◌, ◌∙◌, refl, inl, inr, Bool, true, false, ◌&&◌, ◌||◌, Option, none, some, List, [], ◌∷◌,
  ◌==◌, arith, All, All-of, ok, is_some, if◌then◌else◌, Bool-cases,
}
use signalscope.Shared.Text.{Text}
use signalscope.Shared.Rows.{find, select}
use signalscope.Shared.Rows.Laws.{Unique, find-In, find-none}
use signalscope.Shared.Rows.Keys.{Unique-delete, with_found_key}
use signalscope.Shared.Rows.Elsewhere.{
  find-delete_elsewhere, find-update_elsewhere, select-delete_elsewhere, find-update_to,
}
use signalscope.Organizations.Model.{User}
use signalscope.Investigations.Access.{
  Investigation, InvestigationStatus, open_status, closed_status, InvestigationPermission, edit,
  delete_it,
}
use signalscope.Investigations.Items.{
  InvestigationItemType, InvestigationItem, Records, research_session_item,
}
use signalscope.Investigations.Service.{
  ServiceTables, has_id, is_closed, create, InvestigationChange, or_old, changes_details, changed,
  update_investigation, get_open, new_investigation,
}
use signalscope.Investigations.Saving.{
  delete_investigation, add_item, save_research_session, remove_item,
}
use signalscope.Investigations.ServiceLaws.{
  opened, created, updated, deleted, added, saved, removed,
}
use signalscope.Investigations.Operations.{
  ServiceOp, create_op, update_op, delete_op, add_op, save_op, remove_op, after_keeps, run_op,
  run_ops, asks_open, reopens, items_of,
}

-- The investigation is there, closed, with these items, and the IDs of items are unique.
abbrev pub IsShut : ℕ → Investigation → List InvestigationItem → ServiceTables → Type 0
IsShut i row items db =
    (find (has_id i) db.investigations ≡ some row)
    × (select (items_of i) db.items ≡ items)
    × Unique (λ (t : InvestigationItem). t.id) db.items

module _ (i : ℕ) (row : Investigation) (items : List InvestigationItem)
    (closed : is_closed row.status ≡ true) where
  -- The investigation is not one that was found open.
  is_other :
      (actor : Option User) (j : ℕ) (p : InvestigationPermission) (db : ServiceTables)
      {r : Investigation}
      → IsShut i row items db
      → get_open actor j p db ≡ ok r
      → (j == i) ≡ false
  is_other actor j p db {r} (f, g, u) e = elim (Bool-cases (j == i)) [
    | inr n ↦ n
    | inl y ↦
        let (h, may, o) = opened actor j p db e in
        let same : j ≡ i = ground arith in
        let again : r ≡ row = ground (arith, rw same at h) in absurd (ground (arith, rw again at o))
  ]

  created_keeps :
      (actor : Option User) (new_id now : ℕ) (title : Text) (description : Option Text)
      (o : Option ℕ) (db : ServiceTables)
      → IsShut i row items db
      → IsShut i row items (run_op (create_op actor new_id now title description o) db)
  unfolding run_op
  created_keeps actor new_id now title description o db shut =
      after_keeps (IsShut i row items) (λ a. a.1) (create actor new_id now title description o db)
        db
        (λ a e.
          let (c, free, q) = created actor db new_id now title description o e in
          let other : (new_id == i) ≡ false = elim (Bool-cases (new_id == i)) [
            | inr n ↦ n
            | inl y ↦
                let same : new_id ≡ i = ground arith in absurd (ground (arith, rw same at free))
          ] in
          rw q (unfold find new_investigation in rw other shut.0, shut.1, shut.2))
        shut

  same_status :
      (asked : Option InvestigationStatus) (s : InvestigationStatus)
      → is_closed s ≡ true
      → asks_open asked ≡ false
      → or_old asked s ≡ s
  same_status none s y asks = refl
  same_status (some closed_status) closed_status y asks = refl
  same_status (some closed_status) open_status y asks = absurd (ground arith)
  same_status (some open_status) s y asks = absurd (ground arith)

  -- With no detail to change, nothing changes but the status.
  no_details :
      (title description : Option Text) (clear : Bool) (t : Text) (d : Option Text)
      → is_some title || (is_some description || clear) ≡ false
      → (or_old title t ≡ t) × ((if is_some description || clear then description else d) ≡ d)
  no_details title description clear t d h = ground arith

  unchanged :
      (c : InvestigationChange)
      → asks_open c.status ≡ false
      → changes_details c && is_closed (or_old c.status row.status) ≡ false
      → changed c row ≡ row
  unfolding changed changes_details
  unchanged c asks h =
      let same = same_status c.status row.status closed asks in
      let none_given = rw (same, closed) at h in
      let (t, d) =
        no_details c.title c.description c.clear_description row.title row.description
          (ground arith) in
      rw (same, t, d) refl

  updated_keeps :
      (actor : Option User) (j : ℕ) (c : InvestigationChange) (db : ServiceTables)
      → reopens i (update_op actor j c) ≡ false
      → IsShut i row items db
      → IsShut i row items (run_op (update_op actor j c) db)
  unfolding run_op
  updated_keeps actor j c db asks shut =
      after_keeps (IsShut i row items) (λ a. a.1) (update_investigation actor j c db) db
        (λ a e.
          let (r, f, may, details, q) = updated actor db j c e in
          rw q (elim (Bool-cases (j == i)) [
            | inl y ↦
                let same : j ≡ i = ground arith in
                let again : r ≡ row = ground (arith, rw same at f) in
                let kept : changed c r ≡ row =
                  rw again (unchanged c (ground arith) (rw again at details)) in
                (
                  rw (same, kept)
                      (find-update_to (has_id i) row db.investigations row shut.0
                        (find-In (has_id i) db.investigations shut.0).0),
                  shut.1,
                  shut.2,
                )
            | inr n ↦
                let found : (r.id == j) ≡ true = (find-In (has_id j) db.investigations f).0 in
                (
                  find-update_elsewhere (has_id j) (has_id i) (λ _. changed c r) db.investigations
                        (λ s y. (ground arith, unfold changed in ground arith))
                      ∙ shut.0,
                  shut.1,
                  shut.2,
                )
          ]))
        shut

  deleted_keeps :
      (actor : Option User) (j : ℕ) (db : ServiceTables)
      → IsShut i row items db
      → IsShut i row items (run_op (delete_op actor j) db)
  unfolding run_op
  deleted_keeps actor j db shut =
      after_keeps (IsShut i row items) (λ a. a) (delete_investigation actor j db) db
        (λ a e.
          let (r, f, q) = deleted actor db j e in
          let other = is_other actor j delete_it db shut f in
          let apart : (k : ℕ) → (k == j) ≡ true → (k == i) ≡ false = λ k y. ground arith in
          rw q (
            find-delete_elsewhere (has_id j) (has_id i) db.investigations
                  (All-of (λ s. apart s.id) db.investigations)
                ∙ shut.0,
            select-delete_elsewhere (items_of j) (items_of i) db.items
                  (All-of (λ s. apart s.investigation_id) db.items)
                ∙ shut.1,
            Unique-delete (λ t. t.id) (items_of j) db.items shut.2,
          ))
        shut

  add_item-IsShut :
      (actor : Option User) (new_id now j : ℕ) (type : InvestigationItemType) (reference : ℕ)
      (label : Option Text) (r : Records) (db : ServiceTables)
      (a : InvestigationItem × ServiceTables)
      → add_item actor new_id now j type reference label r db ≡ ok a
      → IsShut i row items db
      → IsShut i row items a.1
  unfolding select
  add_item-IsShut actor new_id now j type reference label r db a e shut =
      let (s, f, within, free, new, snap, g, q, t) =
        added actor db new_id now j type reference label r e in
      let other = is_other actor j edit db shut f in
      rw (t, q)
        (
          shut.0,
          rw other shut.1,
          (find-none (λ (x : InvestigationItem). x.id == new_id) db.items free, shut.2),
        )

  added_keeps :
      (actor : Option User) (new_id now j : ℕ) (type : InvestigationItemType) (reference : ℕ)
      (label : Option Text) (r : Records) (db : ServiceTables)
      → IsShut i row items db
      → IsShut i row items (run_op (add_op actor new_id now j type reference label r) db)
  unfolding run_op
  added_keeps actor new_id now j type reference label r db shut =
      after_keeps (IsShut i row items) (λ a. a.1)
        (add_item actor new_id now j type reference label r db) db
        (λ a e. add_item-IsShut actor new_id now j type reference label r db a e shut) shut

  saved_keeps :
      (actor : Option User) (new_id now j session : ℕ) (r : Records) (db : ServiceTables)
      → IsShut i row items db
      → IsShut i row items (run_op (save_op actor new_id now j session r) db)
  unfolding run_op
  saved_keeps actor new_id now j session r db shut =
      after_keeps (IsShut i row items) (λ a. a.2)
        (save_research_session actor new_id now j session r db) db
        (λ a e. elim (saved actor db new_id now j session r e) [
          | inl (f, b, q) ↦ rw q shut
          | inr (b, f) ↦
              add_item-IsShut actor new_id now j research_session_item session none r db (a.0, a.2)
                f shut
        ])
        shut

  removed_keeps :
      (actor : Option User) (j item : ℕ) (db : ServiceTables)
      → IsShut i row items db
      → IsShut i row items (run_op (remove_op actor j item) db)
  unfolding run_op
  removed_keeps actor j item db shut =
      after_keeps (IsShut i row items) (λ a. a) (remove_item actor j item db) db
        (λ a e.
          let (r, f, t, g, of, q) = removed actor db j item e in
          let other = is_other actor j edit db shut f in
          let has_item : InvestigationItem → Bool = λ s. s.id == item in
          rw q (
            shut.0,
            select-delete_elsewhere has_item (items_of i) db.items (
                  with_found_key (λ s. s.id) (λ s. items_of i s ≡ false) item db.items t shut.2 g
                    (rw of other))
                ∙ shut.1,
            Unique-delete (λ t. t.id) has_item db.items shut.2,
          ))
        shut

  run_op_keeps :
      (op : ServiceOp) (db : ServiceTables)
      → reopens i op ≡ false
      → IsShut i row items db
      → IsShut i row items (run_op op db)
  run_op_keeps (create_op actor new_id now title description o) db h =
      created_keeps actor new_id now title description o db
  run_op_keeps (update_op actor j c) db h = updated_keeps actor j c db h
  run_op_keeps (delete_op actor j) db h = deleted_keeps actor j db
  run_op_keeps (add_op actor new_id now j type reference label r) db h =
      added_keeps actor new_id now j type reference label r db
  run_op_keeps (save_op actor new_id now j session r) db h =
      saved_keeps actor new_id now j session r db
  run_op_keeps (remove_op actor j item) db h = removed_keeps actor j item db

  -- Where the IDs of items are unique: a closed investigation and its saved items stay as they are in
  -- any sequence of operations, by any actors, with none that asks to open it.
  pub closed_stays :
      (ops : List ServiceOp) (db : ServiceTables)
      → All (λ op. reopens i op ≡ false) ops
      → IsShut i row items db
      → IsShut i row items (run_ops ops db)
  unfolding run_ops
  closed_stays [] db h shut = shut
  closed_stays (op ∷ ops) db h shut =
      closed_stays ops (run_op op db) h.1 (run_op_keeps op db h.0 shut)
