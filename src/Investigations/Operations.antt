-- ===== src/Investigations/Operations.antt =====
-- The operations of domain/investigations/service.py that write, as data, and sequences of them.
use signalscope.Shared.{
  ℕ, ◌≡◌, refl, Bool, true, false, ◌&&◌, Option, some, List, [], ◌∷◌, ◌==◌, Result, ok, err,
}
use signalscope.Shared.Text.{Text}
use signalscope.Organizations.Model.{User}
use signalscope.Investigations.Access.{InvestigationStatus, open_status, InvestigationError}
use signalscope.Investigations.Items.{InvestigationItemType, InvestigationItem, Records}
use signalscope.Investigations.Service.{
  ServiceTables, create, InvestigationChange, update_investigation,
}
use signalscope.Investigations.Saving.{
  delete_investigation, add_item, save_research_session, remove_item,
}

pub data ServiceOp : Type 0 where
  create_op : Option User → ℕ → ℕ → Text → Option Text → Option ℕ → ServiceOp
  update_op : Option User → ℕ → InvestigationChange → ServiceOp
  delete_op : Option User → ℕ → ServiceOp
  add_op : Option User → ℕ → ℕ → ℕ → InvestigationItemType → ℕ → Option Text → Records → ServiceOp
  save_op : Option User → ℕ → ℕ → ℕ → ℕ → Records → ServiceOp
  remove_op : Option User → ℕ → ℕ → ServiceOp

abbrev pub after {ℓ} :
    {A : Type ℓ} → (A → ServiceTables) → Result InvestigationError A → ServiceTables → ServiceTables
after tables (ok a) db = tables a
after tables (err e) db = db

-- What a returned call keeps, the call keeps.
pub after_keeps {ℓ κ} :
    {A : Type ℓ} (P : ServiceTables → Type κ) (tables : A → ServiceTables)
    (r : Result InvestigationError A) (db : ServiceTables)
    → ((a : A) → r ≡ ok a → P (tables a))
    → P db
    → P (after tables r db)
after_keeps P tables (ok a) db keeps h = keeps a refl
after_keeps P tables (err e) db keeps h = h

-- An error leaves the tables as they were.
unfoldable pub run_op : ServiceOp → ServiceTables → ServiceTables
run_op (create_op actor new_id now title description o) db =
    after (λ a. a.1) (create actor new_id now title description o db) db
run_op (update_op actor i c) db = after (λ a. a.1) (update_investigation actor i c db) db
run_op (delete_op actor i) db = after (λ a. a) (delete_investigation actor i db) db
run_op (add_op actor new_id now i type reference label r) db =
    after (λ a. a.1) (add_item actor new_id now i type reference label r db) db
run_op (save_op actor new_id now i session r) db =
    after (λ a. a.2) (save_research_session actor new_id now i session r db) db
run_op (remove_op actor i item) db = after (λ a. a) (remove_item actor i item db) db

unfoldable pub run_ops : List ServiceOp → ServiceTables → ServiceTables
run_ops [] db = db
run_ops (op ∷ ops) db = run_ops ops (run_op op db)

abbrev pub asks_open : Option InvestigationStatus → Bool
asks_open (some open_status) = true
asks_open _ = false

-- The operation asks to open the investigation.
abbrev pub reopens : ℕ → ServiceOp → Bool
reopens i (update_op actor j c) = j == i && asks_open c.status
reopens i _ = false

abbrev pub items_of : ℕ → InvestigationItem → Bool
items_of i t = t.investigation_id == i
