-- ===== src/Documents/Chunking.antt =====
-- domain/documents/chunking.py: a text is split into overlapping chunks. The hash is an argument.
use signalscope.Shared.{
  ℕ, zero, suc, ◌+◌, ◌-◌, Bool, false, not, ◌&&◌, Option, none, some, List, [], ◌∷◌, ◌==◌, ltb, leb,
  max, if◌then◌else◌, Result, ok, ◌>>◌, raise_if, length, take, drop,
}
use signalscope.Shared.Text.{starts_with, Text, is_space}
use signalscope.Documents.Scan.{last_from, first_from, skip, trim}

pub record Sizes : Type 0 where
  pub max_chars : ℕ
  pub overlap_chars : ℕ
  pub min_chars : ℕ

abbrev pub default_sizes : Sizes
default_sizes = record { max_chars = 1200; overlap_chars = 200; min_chars = 600 }

pub record TextChunk : Type 0 where
  pub position : ℕ
  pub text : Text
  pub start_char : ℕ
  pub end_char : ℕ
  pub text_hash : Text

pub data ChunkError : Type 0 where
  bad_sizes : ChunkError

-- `text[index].isspace()`, which the source asks only of positions in the text
unfoldable pub space_at : Text → ℕ → Bool
space_at [] index = false
space_at (c ∷ cs) zero = is_space c
space_at (c ∷ cs) (suc index) = space_at cs index

-- `text[start:end]`
unfoldable pub slice : Text → ℕ → ℕ → Text
slice text start end = take (end - start) (drop start text)

-- `text.rfind(separator, low, high)`: the last place at which the separator lies between the two.
unfoldable pub rfind : Text → Text → ℕ → ℕ → Option ℕ
rfind text separator low high =
    last_from (λ i. starts_with separator (drop i text)) low (high + 1 - (low + length separator))

unfoldable pub skip_whitespace : Text → ℕ → ℕ
skip_whitespace text index = skip (space_at text) index (length text - index)

unfoldable pub trim_end : Text → ℕ → ℕ → ℕ
trim_end text start end = trim (space_at text) start end

abbrev pub preferred_breaks : List Text
preferred_breaks = (10 ∷ 10 ∷ []) ∷ (10 ∷ []) ∷ []

abbrev pub or_else : Option ℕ → ℕ → ℕ
or_else none n = n
or_else (some i) n = i

-- The loop over the separators, and then the one over the characters.
unfoldable pub find_break : Text → List Text → ℕ → ℕ → ℕ
find_break text [] lowest limit =
    or_else (last_from (space_at text) lowest (limit + 1 - lowest)) limit
find_break text (separator ∷ separators) lowest limit =
    or_else (rfind text separator lowest limit) (find_break text separators lowest limit)

unfoldable pub chunk_end : Text → Sizes → ℕ → ℕ
chunk_end text sizes start =
    let limit = start + sizes.max_chars in
    if leb (length text) limit
    then length text
    else find_break text preferred_breaks (start + sizes.min_chars) limit

abbrev pub skip_from : Text → Option ℕ → ℕ → ℕ
skip_from text none candidate = candidate
skip_from text (some index) candidate = skip_whitespace text index

unfoldable pub next_start : Text → ℕ → ℕ → ℕ → ℕ
next_start text start end overlap_chars =
    let candidate = max (end - overlap_chars) (start + 1) in
    if space_at text (candidate - 1)
    then skip_whitespace text candidate
    else skip_from text (first_from (space_at text) candidate (end - candidate)) candidate

abbrev pub prepend : TextChunk → Option (List TextChunk) → Option (List TextChunk)
prepend chunk none = none
prepend chunk (some chunks) = some (chunk ∷ chunks)

-- `not 0 <= overlap_chars < min_chars <= max_chars`
unfoldable pub sizes_are_bad : Sizes → Bool
sizes_are_bad sizes =
    not (ltb sizes.overlap_chars sizes.min_chars && leb sizes.min_chars sizes.max_chars)

module _ (hash : Text → Text) where
  unfoldable pub make_chunk : ℕ → Text → ℕ → ℕ → TextChunk
  make_chunk position text start end = record {
    position = position;
    text = slice text start end;
    start_char = start;
    end_char = end;
    text_hash = hash (slice text start end);
  }

  -- The loop of `chunk_text`, from the chunk with this number on. The fuel bounds its rounds, and
  -- there is no result where it runs out.
  unfoldable pub chunks_from : ℕ → Text → Sizes → ℕ → ℕ → Option (List TextChunk)
  chunks_from zero text sizes position start = none
  chunks_from (suc fuel) text sizes position start =
      let end = chunk_end text sizes start in
      let chunk = make_chunk position text start (trim_end text start end) in
      let rest =
        chunks_from fuel text sizes (suc position)
          (next_start text start end sizes.overlap_chars) in
      if ltb start (length text)
      then (if end == length text then some (chunk ∷ []) else prepend chunk rest)
      else some []

  unfoldable pub chunk_text : Text → Sizes → Result ChunkError (Option (List TextChunk))
  chunk_text text sizes = do
    raise_if (sizes_are_bad sizes) bad_sizes
    ok (chunks_from (suc (length text)) text sizes 0 (skip_whitespace text 0))
