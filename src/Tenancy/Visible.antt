-- ===== src/Tenancy/Visible.antt =====
-- What the SQL conditions of a scope select, in terms of the owner of the content.
use signalscope.Shared.{ℕ, ◌≡◌, refl, Bool, Option, none, some, ◌==◌}
use signalscope.Shared.Rows.{find}
use signalscope.Shared.Rows.Laws.{Unique, tested, find-and}
use signalscope.Content.{Content, Source, Document, get_source, get_document}
use signalscope.Tenancy.Scope.{
  ContentScope, ScopeKind, unrestricted, organization, legacy, unrestricted_scope,
  organization_scope, legacy_scope, allows, owner_condition, or_unrestricted, source_condition,
  document_condition,
}

-- The rows of the content tables have primary keys.
pub record HasKeys (c : Content) : Type 0 where
  pub sources : Unique (λ (s : Source). s.id) c.sources
  pub documents : Unique (λ (d : Document). d.id) c.documents

-- The scopes that the class methods make.
pub data Made : ContentScope → Type 0 where
  all_content : Made unrestricted_scope
  of_organization : (i : ℕ) → Made (organization_scope i)
  of_legacy : Made legacy_scope

-- SQL and Python agree on the owners that are in a scope.
owner_condition-eq-allows :
    (s : ContentScope) → Made s → (i : Option ℕ) → owner_condition s i ≡ allows s i
unfolding owner_condition allows
owner_condition-eq-allows _ all_content i = refl
owner_condition-eq-allows _ (of_organization k) none = refl
owner_condition-eq-allows _ (of_organization k) (some i) = refl
owner_condition-eq-allows _ of_legacy i = refl

-- A document that a scope may show, by its own row and the row of its source.
abbrev pub document_allowed : Content → ContentScope → Option Document → Bool
document_allowed c s =
    tested (λ d. tested (λ (r : Source). allows s r.organization_id) (get_source c d.source_id))

module _ (c : Content) (keys : HasKeys c) where
  abbrev source_allowed : ContentScope → Option Source → Bool
  source_allowed s = tested (λ r. allows s r.organization_id)

  source_condition-eq :
      (s : ContentScope) (i : ℕ)
      → Made s
      → source_condition c s i ≡ or_unrestricted s.kind (source_allowed s (get_source c i))
  unfolding source_condition get_source
  source_condition-eq s i made =
      rw
        (find-and (λ (r : Source). r.id) i (λ r. owner_condition s r.organization_id) c.sources
          keys.sources)
        (go (find (λ (r : Source). r.id == i) c.sources))
    where
      go :
          (o : Option Source)
          → or_unrestricted s.kind (tested (λ r. owner_condition s r.organization_id) o)
            ≡ or_unrestricted s.kind (source_allowed s o)
      go none = refl
      go (some r) = rw (owner_condition-eq-allows s made r.organization_id)

  -- Where IDs are unique, and for a scope that the code makes: a document is in the SQL condition of
  -- the scope exactly when its row and the row of its source are there and the scope allows the
  -- source's owner; every document is in that of the unrestricted one.
  pub document_condition-eq :
      (s : ContentScope) (i : ℕ)
      → Made s
      → document_condition c s i ≡ or_unrestricted s.kind (document_allowed c s (get_document c i))
  unfolding document_condition get_document
  document_condition-eq s i made =
      rw
        (find-and (λ (d : Document). d.id) i (λ d. source_condition c s d.source_id) c.documents
          keys.documents)
        (go (find (λ (d : Document). d.id == i) c.documents))
    where
      twice :
          (k : ScopeKind) (b : Bool) → or_unrestricted k (or_unrestricted k b) ≡ or_unrestricted k b
      twice unrestricted b = refl
      twice organization b = refl
      twice legacy b = refl

      go :
          (o : Option Document)
          → or_unrestricted s.kind (tested (λ d. source_condition c s d.source_id) o)
            ≡ or_unrestricted s.kind (document_allowed c s o)
      go none = refl
      go (some d) = rw (source_condition-eq s d.source_id made) (twice s.kind _)
