-- ===== src/Investigations/Saved.antt =====
-- Items of investigations (domain/investigations/service.py): what is saved, once.
use signalscope.Shared.{
  ℕ, ◌≤◌, ◌≡◌, ◌∙◌, refl, ap, inl, inr, Bool, true, false, Option, none, some, List, [], ◌∷◌, ◌==◌,
  arith, ok, Bool-cases,
}
use signalscope.Shared.Text.{Text}
use signalscope.Shared.Rows.{find, delete, count}
use signalscope.Shared.Rows.Counts.{count_of_none, count-delete-le}
use signalscope.Organizations.Model.{User}
use signalscope.Investigations.Access.{Investigation, edit}
use signalscope.Investigations.Items.{
  InvestigationItemType, research_session_item, InvestigationItem, Records,
}
use signalscope.Investigations.Service.{
  ServiceTables, same_type, get, get_open, create, update_investigation,
}
use signalscope.Investigations.Saving.{
  is_reference, save_research_session, add_item, delete_investigation, remove_item,
}
use signalscope.Investigations.ServiceLaws.{
  created, updated, deleted, added, saving_opens, saved, removed,
}
use signalscope.Investigations.Operations.{
  ServiceOp, create_op, update_op, delete_op, add_op, save_op, remove_op, after_keeps, run_op,
  run_ops, items_of,
}

-- At most one item has a reference to a record, in one investigation.
abbrev pub IsSavedOnce : ServiceTables → Type 0
IsSavedOnce db =
    (i : ℕ) (type : InvestigationItemType) (reference : ℕ)
    → count (is_reference i type reference) db.items ≤ 1

same_type→eq : (a b : InvestigationItemType) → same_type a b ≡ true → a ≡ b
same_type→eq a b h = ground arith

-- A reference that no item has may be added.
added_once :
    (t : InvestigationItem) (i : ℕ) (type : InvestigationItemType) (reference : ℕ)
    (items : List InvestigationItem)
    → is_reference i type reference t ≡ true
    → find (is_reference i type reference) items ≡ none
    → ((j : ℕ) (other : InvestigationItemType) (k : ℕ) → count (is_reference j other k) items ≤ 1)
    → (j : ℕ) (other : InvestigationItemType) (k : ℕ)
    → count (is_reference j other k) (t ∷ items) ≤ 1
unfolding count
added_once t i type reference items is free once j other k =
    elim (Bool-cases (is_reference j other k t)) [
      | inr n ↦ rw n (once j other k)
      | inl y ↦
          let a : j ≡ i = ground arith in
          let b : k ≡ reference = ground arith in
          let c : other ≡ type = same_types t.item_type other type (ground arith) (ground arith) in
          let same : count (is_reference j other k) items
              ≡ count (is_reference i type reference) items =
            ap (λ x. count (is_reference x other k) items) a
            ∙ ap (λ x. count (is_reference i x k) items) c
            ∙ ap (λ x. count (is_reference i type x) items) b in
          rw y (omega (arith, same, count_of_none (is_reference i type reference) items free))
    ]
  where
    same_types :
        (s a b : InvestigationItemType) → same_type s a ≡ true → same_type s b ≡ true → a ≡ b
    same_types s a b h k = ground arith

module _ (actor : Option User) (new_id now i : ℕ) (r : Records) (db : ServiceTables) where
  add_item-IsSavedOnce :
      (type : InvestigationItemType) (reference : ℕ) (label : Option Text)
      (a : InvestigationItem × ServiceTables)
      → add_item actor new_id now i type reference label r db ≡ ok a
      → IsSavedOnce db
      → IsSavedOnce a.1
  add_item-IsSavedOnce type reference label a e once =
      let (row, f, within, free, new, snap, g, q, t) =
        added actor db new_id now i type reference label r e in
      rw t (added_once a.0 i type reference db.items (rw q (ground arith)) new once)

  save-IsSavedOnce :
      (session : ℕ) (a : InvestigationItem × Bool × ServiceTables)
      → save_research_session actor new_id now i session r db ≡ ok a
      → IsSavedOnce db
      → IsSavedOnce a.2
  save-IsSavedOnce session a e once = elim (saved actor db new_id now i session r e) [
    | inl (f, b, q) ↦ rw q once
    | inr (b, f) ↦ add_item-IsSavedOnce research_session_item session none (a.0, a.2) f once
  ]

  opened_again :
      (session : ℕ) (a : InvestigationItem × Bool × ServiceTables)
      → save_research_session actor new_id now i session r db ≡ ok a
      → (row : Investigation) × (get_open actor i edit a.2 ≡ ok row)
        × (find (is_reference i research_session_item session) a.2.items ≡ some a.0)
  unfolding find
  opened_again session a e = elim (saved actor db new_id now i session r e) [
    | inl (f, b, q) ↦
        let (row, o) = saving_opens actor db new_id now i session r e in (row, rw q o, rw q f)
    | inr (b, f) ↦
        let (row, o, within, free, new, snap, g, q, t) =
          added actor db new_id now i research_session_item session none r f in
        (row, rw t (unfold get_open get in o), rw (t, q) (ground arith))
  ]

  -- Saving a research session that was saved returns the item that was saved before, with its first
  -- snapshot, and changes nothing, whatever has become of the session since.
  pub save_again :
      (session later_id later : ℕ) (after_records : Records)
      (a : InvestigationItem × Bool × ServiceTables)
      → save_research_session actor new_id now i session r db ≡ ok a
      → save_research_session actor later_id later i session after_records a.2
        ≡ ok (a.0, false, a.2)
  unfolding save_research_session
  save_again session later_id later after_records a e =
      let (row, o, f) = opened_again session a e in rw (o, f) refl

fewer-IsSavedOnce :
    (p : InvestigationItem → Bool) (items : List InvestigationItem)
    → ((i : ℕ) (type : InvestigationItemType) (reference : ℕ)
        → count (is_reference i type reference) items ≤ 1)
    → (i : ℕ) (type : InvestigationItemType) (reference : ℕ)
    → count (is_reference i type reference) (delete p items) ≤ 1
fewer-IsSavedOnce p items once i type reference =
    omega (arith, once i type reference, count-delete-le p (is_reference i type reference) items)

run_op-IsSavedOnce :
    (op : ServiceOp) (db : ServiceTables) → IsSavedOnce db → IsSavedOnce (run_op op db)
unfolding run_op
run_op-IsSavedOnce (create_op actor new_id now title description o) db once =
    after_keeps IsSavedOnce (λ a. a.1) (create actor new_id now title description o db) db
      (λ a e. rw (created actor db new_id now title description o e).2 once) once
run_op-IsSavedOnce (update_op actor i c) db once =
    after_keeps IsSavedOnce (λ a. a.1) (update_investigation actor i c db) db
      (λ a e. rw (updated actor db i c e).4 once) once
run_op-IsSavedOnce (delete_op actor i) db once =
    after_keeps IsSavedOnce (λ a. a) (delete_investigation actor i db) db
      (λ a e. rw (deleted actor db i e).2 (fewer-IsSavedOnce (items_of i) db.items once)) once
run_op-IsSavedOnce (add_op actor new_id now i type reference label r) db once =
    after_keeps IsSavedOnce (λ a. a.1) (add_item actor new_id now i type reference label r db) db
      (λ a e. add_item-IsSavedOnce actor new_id now i r db type reference label a e once) once
run_op-IsSavedOnce (save_op actor new_id now i session r) db once =
    after_keeps IsSavedOnce (λ a. a.2) (save_research_session actor new_id now i session r db) db
      (λ a e. save-IsSavedOnce actor new_id now i r db session a e once) once
run_op-IsSavedOnce (remove_op actor i item) db once =
    after_keeps IsSavedOnce (λ a. a) (remove_item actor i item db) db
      (λ a e.
        rw (removed actor db i item e).5 (fewer-IsSavedOnce (λ t. t.id == item) db.items once))
      once

-- In any sequence of operations, a record stays saved at most once in one investigation.
pub run_ops-IsSavedOnce :
    (ops : List ServiceOp) (db : ServiceTables) → IsSavedOnce db → IsSavedOnce (run_ops ops db)
unfolding run_ops
run_ops-IsSavedOnce [] db once = once
run_ops-IsSavedOnce (op ∷ ops) db once =
    run_ops-IsSavedOnce ops (run_op op db) (run_op-IsSavedOnce op db once)
