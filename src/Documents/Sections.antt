-- ===== src/Documents/Sections.antt =====
-- domain/documents/chunking.py: chunk_document, over the parts of parsing/types.py that it reads.
-- Of the values of metadata, texts, natural numbers and flags are modelled.
use signalscope.Shared.{
  ℕ, suc, ◌+◌, Bool, Option, none, some, List, [], ◌∷◌, ◌++◌, Result, ok, ◌>>=◌, length,
  if◌then◌else◌, String,
}
use text.Mathlib.Text.{◌==◌ as str_eq}
use signalscope.Shared.Text.{Text}
use signalscope.Documents.Chunking.{Sizes, TextChunk, ChunkError, chunk_text}

pub data MetadataValue : Type 0 where
  text_value : Text → MetadataValue
  number_value : ℕ → MetadataValue
  flag_value : Bool → MetadataValue

abbrev pub Metadata : Type 0
Metadata = List (String × MetadataValue)

pub record ParsedSection : Type 0 where
  pub text : Text
  pub kind : Text
  pub index : ℕ
  pub metadata : Metadata

pub record ParsedDocument : Type 0 where
  pub text : Text
  pub sections : List ParsedSection

abbrev pub section_separator : Text
section_separator = 10 ∷ 10 ∷ []

-- SECTION_SEPARATOR.join(s.text for s in sections)
unfoldable pub joined : List ParsedSection → Text
joined [] = []
joined (s ∷ []) = s.text
joined (s ∷ t ∷ sections) = s.text ++ (section_separator ++ joined (t ∷ sections))

-- The value of a key in a dict display, which a later one replaces.
unfoldable pub set_key : String → MetadataValue → Metadata → Metadata
set_key k v [] = (k, v) ∷ []
set_key k v ((l, w) ∷ entries) =
    if str_eq l k then (l, v) ∷ entries else (l, w) ∷ set_key k v entries

unfoldable pub section_metadata : ParsedSection → Metadata
section_metadata s =
    set_key "section_index" (number_value s.index)
      (set_key "section_kind" (text_value s.kind) s.metadata)

-- A chunk as it stands in the document, with where it came from.
pub record DocumentChunk : Type 0 where
  pub chunk : TextChunk
  pub metadata : Metadata

unfoldable pub placed : ℕ → ℕ → Metadata → List TextChunk → List DocumentChunk
placed section_start position metadata [] = []
placed section_start position metadata (c ∷ chunks) =
    record {
      chunk = record {
        position = position;
        text = c.text;
        start_char = section_start + c.start_char;
        end_char = section_start + c.end_char;
        text_hash = c.text_hash;
      };
      metadata = metadata;
    }
    ∷ placed section_start (suc position) metadata chunks

abbrev pub number_of : Option (List TextChunk) → ℕ
number_of none = 0
number_of (some chunks) = length chunks

abbrev pub placed_before :
    ℕ
    → ℕ
    → Metadata
    → Option (List TextChunk)
    → Option (List DocumentChunk)
    → Option (List DocumentChunk)
placed_before section_start position metadata (some chunks) (some rest) =
    some (placed section_start position metadata chunks ++ rest)
placed_before section_start position metadata _ rest = none

module _ (hash : Text → Text) (sizes : Sizes) where
  -- The loop over the sections, from the place where the next one starts in the text.
  unfoldable pub chunk_sections :
      ℕ → ℕ → List ParsedSection → Result ChunkError (Option (List DocumentChunk))
  chunk_sections section_start position [] = ok (some [])
  chunk_sections section_start position (s ∷ sections) = do
    chunks ← chunk_text hash s.text sizes
    rest ←
        chunk_sections (section_start + length s.text + length section_separator)
          (position + number_of chunks) sections
    ok (placed_before section_start position (section_metadata s) chunks rest)

  abbrev pub chunk_all : Text → List ParsedSection → Result ChunkError (Option (List DocumentChunk))
  chunk_all text [] = do
    chunks ← chunk_text hash text sizes
    ok (placed_before 0 0 [] chunks (some []))
  chunk_all text (s ∷ sections) = chunk_sections 0 0 (s ∷ sections)

  -- A document without sections is chunked as one text, without metadata.
  unfoldable pub chunk_document : ParsedDocument → Result ChunkError (Option (List DocumentChunk))
  chunk_document document = chunk_all document.text document.sections
