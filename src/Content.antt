-- ===== src/Content.antt =====
-- The rows that say who owns content: a chunk belongs to a document, a document to a source, and a
-- source to an organization, or to none (legacy content). Columns that only carry text are left out.
use signalscope.Shared.{ℕ, Option, none, some, List, ◌==◌}
use signalscope.Shared.Rows.{find}

pub record Source : Type 0 where
  pub id : ℕ
  pub organization_id : Option ℕ

pub record Document : Type 0 where
  pub id : ℕ
  pub source_id : ℕ

pub record Chunk : Type 0 where
  pub id : ℕ
  pub document_id : ℕ
  pub position : ℕ

pub record Content : Type 0 where
  pub sources : List Source
  pub documents : List Document
  pub chunks : List Chunk

unfoldable pub get_source : Content → ℕ → Option Source
get_source c i = find (λ s. s.id == i) c.sources

unfoldable pub get_document : Content → ℕ → Option Document
get_document c i = find (λ d. d.id == i) c.documents

unfoldable pub get_chunk : Content → ℕ → Option Chunk
get_chunk c i = find (λ k. k.id == i) c.chunks

-- SELECT sources.organization_id … WHERE sources.id = i, read as a scalar: NULL and no row are None.
unfoldable pub source_organization : Content → ℕ → Option ℕ
source_organization c i = elim (get_source c i) [ none ↦ none | some s ↦ s.organization_id ]

-- The same, joined to a document, and to a chunk.
unfoldable pub document_organization : Content → ℕ → Option ℕ
document_organization c i = elim (get_document c i) [
  | none ↦ none
  | some d ↦ source_organization c d.source_id
]

unfoldable pub chunk_organization : Content → ℕ → Option ℕ
chunk_organization c i = elim (get_chunk c i) [
  | none ↦ none
  | some k ↦ document_organization c k.document_id
]
