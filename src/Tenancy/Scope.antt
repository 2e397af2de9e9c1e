-- ===== src/Tenancy/Scope.antt =====
-- domain/tenancy/scope.py: a scope, and its SQL conditions as tests on the content tables.
use signalscope.Shared.{ℕ, Bool, true, false, ◌&&◌, Option, none, some, ◌==◌, is_some}
use signalscope.Shared.Rows.{find}
use signalscope.Content.{Content, Source, Document, Chunk}

pub data ScopeKind : Type 0 where
  unrestricted organization legacy : ScopeKind

pub record ContentScope : Type 0 where
  pub kind : ScopeKind
  pub organization_id : Option ℕ

abbrev pub unrestricted_scope : ContentScope
unrestricted_scope = record { kind = unrestricted; organization_id = none }

abbrev pub organization_scope : ℕ → ContentScope
organization_scope i = record { kind = organization; organization_id = some i }

abbrev pub legacy_scope : ContentScope
legacy_scope = record { kind = legacy; organization_id = none }

unfoldable pub owned_by : Option ℕ → ContentScope
owned_by none = legacy_scope
owned_by (some i) = organization_scope i

-- `==` of Python on two values that may be None
abbrev pub same : Option ℕ → Option ℕ → Bool
same none none = true
same (some a) (some b) = a == b
same _ _ = false

abbrev pub is_none : Option ℕ → Bool
is_none none = true
is_none (some _) = false

abbrev pub allows_kind : ScopeKind → Option ℕ → Option ℕ → Bool
allows_kind unrestricted own i = true
allows_kind legacy own i = is_none i
allows_kind organization own i = same i own

unfoldable pub allows : ContentScope → Option ℕ → Bool
allows s i = allows_kind s.kind s.organization_id i

-- `column = value` in SQL, which is never true of NULL
abbrev pub sql_same : Option ℕ → Option ℕ → Bool
sql_same (some a) (some b) = a == b
sql_same _ _ = false

abbrev pub condition_kind : ScopeKind → Option ℕ → Option ℕ → Bool
condition_kind unrestricted own column = true
condition_kind legacy own column = is_none column
condition_kind organization own column = sql_same column own

unfoldable pub owner_condition : ContentScope → Option ℕ → Bool
owner_condition s column = condition_kind s.kind s.organization_id column

abbrev pub is_unrestricted : ScopeKind → Bool
is_unrestricted unrestricted = true
is_unrestricted _ = false

abbrev pub or_unrestricted : ScopeKind → Bool → Bool
or_unrestricted unrestricted b = true
or_unrestricted _ b = b

-- source_id IN (SELECT sources.id WHERE owner_condition)
unfoldable pub source_condition : Content → ContentScope → ℕ → Bool
source_condition c s i =
    or_unrestricted s.kind
      (is_some (find (λ (r : Source). r.id == i && owner_condition s r.organization_id) c.sources))

-- document_id IN (SELECT documents.id WHERE source_condition)
unfoldable pub document_condition : Content → ContentScope → ℕ → Bool
document_condition c s i =
    or_unrestricted s.kind
      (is_some (find (λ (r : Document). r.id == i && source_condition c s r.source_id) c.documents))

-- chunk_id IN (SELECT document_chunks.id WHERE document_condition)
unfoldable pub chunk_condition : Content → ContentScope → ℕ → Bool
chunk_condition c s i =
    or_unrestricted s.kind
      (is_some (find (λ (r : Chunk). r.id == i && document_condition c s r.document_id) c.chunks))
