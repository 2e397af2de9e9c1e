-- ===== src/Documents/Tests.antt =====
-- The chunks of a short text, with small sizes.
use signalscope.Shared.{ℕ, ◌≡◌, refl, Option, none, some, List, [], ◌∷◌, arith, ok, map}
use signalscope.Shared.Text.{starts_with, Text, codes, is_space}
use signalscope.Documents.Scan.{last_from, first_from, skip, trim}
use signalscope.Documents.Chunking.{
  Sizes, TextChunk, space_at, slice, rfind, skip_whitespace, find_break, chunk_end, next_start,
  trim_end, make_chunk, chunks_from, chunk_text,
}
use signalscope.Documents.Chunks.{AreChunks, chunk_text-AreChunks}
use signalscope.Shared.{◌++◌, All}
use signalscope.Documents.Sections.{ParsedDocument, joined, DocumentChunk, chunk_document}
use signalscope.Documents.Offsets.{PointsInto, CountFrom, chunk_document-offsets}

abbrev words : Text
words = codes " one two three four "

abbrev small : Sizes
small = record { max_chars = 9; overlap_chars = 3; min_chars = 5 }

abbrev same_text : Text → Text
same_text t = t

chunk_text-AreChunks_example :
    (chunks : List TextChunk) × (chunk_text same_text words small ≡ ok (some chunks))
    × AreChunks same_text words small 0 0 chunks
chunk_text-AreChunks_example =
    chunk_text-AreChunks same_text words small (ground arith) (ground arith)

abbrev span : TextChunk → ℕ × ℕ
span c = (c.start_char, c.end_char)

abbrev spans : Option (List TextChunk) → List (ℕ × ℕ)
spans none = []
spans (some chunks) = map span chunks

words_run :
    spans (chunks_from same_text 30 words small 0 (skip_whitespace words 0))
    ≡ (1, 8) ∷ (5, 14) ∷ (11, 19) ∷ []
unfolding chunks_from skip_whitespace space_at is_space slice starts_with rfind last_from first_from
    skip trim find_break chunk_end next_start trim_end make_chunk
words_run = refl

-- Without any overlap a chunk can start at whitespace, and then be empty.
empty_chunk :
    spans (
      chunks_from same_text 4
        (codes "a b")
        (record { max_chars = 1; overlap_chars = 0; min_chars = 1 })
        0
        0)
    ≡ (0, 1) ∷ (1, 1) ∷ (2, 3) ∷ []
unfolding chunks_from space_at is_space slice starts_with rfind last_from first_from skip trim
    find_break chunk_end next_start trim_end make_chunk skip_whitespace
empty_chunk = refl

abbrev pages : ParsedDocument
pages = record {
  text = codes "one two" ++ (10 ∷ 10 ∷ codes "three four five");
  sections =
      record { text = codes "one two"; kind = codes "page"; index = 0; metadata = [] }
      ∷ record { text = codes "three four five"; kind = codes "page"; index = 1; metadata = [] }
      ∷ [];
}

pages_join : pages.text ≡ joined pages.sections
unfolding joined
pages_join = refl

chunk_document-offsets_example :
    (chunks : List DocumentChunk) × (chunk_document same_text small pages ≡ ok (some chunks))
    × All (PointsInto pages.text) chunks
    × CountFrom 0 chunks
chunk_document-offsets_example =
    chunk_document-offsets same_text small (ground arith) (ground arith) pages
      (λ s rest e. pages_join)
