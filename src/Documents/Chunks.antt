-- ===== src/Documents/Chunks.antt =====
-- The chunks that the rounds of chunk_text make (domain/documents/chunking.py).
use signalscope.Shared.{
  ℕ, zero, suc, ◌+◌, ◌-◌, ◌≤◌, ◌<◌, ◌≡◌, refl, inl, inr, true, false, some, List, [], ◌∷◌, arith,
  ◌==◌, ltb, length, All, In, here, there, Bool-cases, dec_lt, ok,
}
use signalscope.Shared.Text.{Text}
use signalscope.Documents.Scan.{trim, trim-bounds, trim-HoldsFrom, trim-stops, trim-pos}
use signalscope.Documents.Chunking.{
  Sizes, TextChunk, space_at, slice, skip_whitespace, trim_end, chunk_end, next_start,
  sizes_are_bad, make_chunk, chunks_from, chunk_text,
}
use signalscope.Documents.Steps.{
  AreGood, chunk_end-bounds, IsNext, next_start-IsNext, first-IsStart,
}

module _ (hash : Text → Text) (text : Text) (sizes : Sizes) where
  -- One chunk: a slice within the text, of at most the maximal size and not empty, that neither
  -- starts nor ends with whitespace.
  pub record IsChunk (c : TextChunk) : Type 0 where
    pub is_slice : c.text ≡ slice text c.start_char c.end_char
    pub hashed : c.text_hash ≡ hash c.text
    pub not_empty : c.start_char < c.end_char
    pub within : c.end_char ≤ length text
    pub fits : c.end_char ≤ c.start_char + sizes.max_chars
    pub clean_start : space_at text c.start_char ≡ false
    pub clean_end : space_at text (c.end_char - 1) ≡ false

  -- The chunks count on from `position`, and each starts after the one before it.
  abbrev pub InOrder : ℕ → ℕ → List TextChunk → Type 0
  InOrder position low [] = Unit
  InOrder position low (c ∷ chunks) =
      (c.position ≡ position)
      × (low ≤ c.start_char)
      × InOrder (suc position) (suc c.start_char) chunks

  InOrder-weaken :
      (position low low' : ℕ) (chunks : List TextChunk)
      → low' ≤ low
      → InOrder position low chunks
      → InOrder position low' chunks
  InOrder-weaken position low low' [] le h = tt
  InOrder-weaken position low low' (c ∷ chunks) le h = (h.0, omega (arith, h.1), h.2)

  -- Some chunk holds the position.
  abbrev pub IsCovered : ℕ → List TextChunk → Type 0
  IsCovered i chunks = (c : TextChunk) × In c chunks × (c.start_char ≤ i) × (i < c.end_char)

  -- Every position from `start` on that is no whitespace is in a chunk.
  abbrev pub Covers : ℕ → List TextChunk → Type 0
  Covers start chunks =
      (i : ℕ) → start ≤ i → i < length text → space_at text i ≡ false → IsCovered i chunks

  -- What is right of the chunks of a text from a position on.
  pub record AreChunks (position start : ℕ) (chunks : List TextChunk) : Type 0 where
    pub each : All IsChunk chunks
    pub order : InOrder position start chunks
    pub cover : Covers start chunks

  make_chunk-IsChunk :
      (position start end : ℕ)
      → start < end
      → end ≤ length text
      → end ≤ start + sizes.max_chars
      → space_at text start ≡ false
      → IsChunk (make_chunk hash position text start (trim_end text start end))
  unfolding make_chunk trim_end
  make_chunk-IsChunk position start end a b c clean =
      let (low, high) = trim-bounds (space_at text) start end (omega arith) in
      let pos = trim-pos (space_at text) start end a clean in
      record {
        is_slice = refl;
        hashed = refl;
        not_empty = pos;
        within = omega (arith, high);
        fits = omega (arith, high);
        clean_start = clean;
        clean_end = trim-stops (space_at text) start end pos;
      }

  -- A position before the end of a chunk is in it, or is whitespace that was trimmed.
  make_chunk-covers :
      (position start end i : ℕ) (rest : List TextChunk)
      → start ≤ i
      → i < end
      → space_at text i ≡ false
      → IsCovered i (make_chunk hash position text start (trim_end text start end) ∷ rest)
  unfolding make_chunk trim_end
  make_chunk-covers position start end i rest a b clean =
      elim (dec_lt i (trim (space_at text) start end)) [
        | yes p ↦ (make_chunk hash position text start (trim_end text start end), here refl, a, p)
        | no p ↦
            let space = trim-HoldsFrom (space_at text) start end i (omega arith) b in
            absurd (ground (arith, space, clean))
      ]

  step-AreChunks :
      (position start : ℕ) (rest : List TextChunk)
      → AreGood sizes
      → start < length text
      → space_at text start ≡ false
      → let end = chunk_end text sizes start in
        (next : ℕ)
        → IsNext text start end next
        → AreChunks (suc position) next rest
        → AreChunks position start
            (make_chunk hash position text start (trim_end text start end) ∷ rest)
  step-AreChunks position start rest good h clean next n after =
      let end = chunk_end text sizes start in
      let (a, b, c, _) = chunk_end-bounds text sizes start good h in
      record {
        each = (make_chunk-IsChunk position start end a b c clean, after.each);
        order =
            unfold make_chunk in
            (
              refl,
              omega arith,
              InOrder-weaken (suc position) next (suc start) rest n.after after.order,
            );
        cover = λ i p q r. elim (dec_lt i end) [
          | yes s ↦ make_chunk-covers position start end i rest p s r
          | no s ↦ elim (dec_lt i next) [
            | yes t ↦ let space = n.skipped i (omega arith) t in absurd (ground (arith, space, r))
            | no t ↦
                let (k, place, low, high) = after.cover i (omega arith) q r in
                (k, there place, low, high)
          ]
        ];
      }

  -- The last chunk, which reaches the end of the text.
  last-AreChunks :
      (position start : ℕ)
      → AreGood sizes
      → start < length text
      → space_at text start ≡ false
      → let end = chunk_end text sizes start in
        end ≡ length text
        → AreChunks position start
            (make_chunk hash position text start (trim_end text start end) ∷ [])
  last-AreChunks position start good h clean e =
      let end = chunk_end text sizes start in
      let (a, b, c, _) = chunk_end-bounds text sizes start good h in
      record {
        each = (make_chunk-IsChunk position start end a b c clean, tt);
        order = unfold make_chunk in (refl, omega arith, tt);
        cover = λ i p q r. make_chunk-covers position start end i [] p (omega (arith, e, q)) r;
      }

  -- With fuel for every position that is left, the loop ends, and its chunks are right.
  chunks_from-AreChunks :
      (fuel position start : ℕ)
      → AreGood sizes
      → 1 ≤ sizes.overlap_chars
      → start ≤ length text
      → length text < start + fuel
      → (start < length text → space_at text start ≡ false)
      → (chunks : List TextChunk) × (chunks_from hash fuel text sizes position start ≡ some chunks)
        × AreChunks position start chunks
  unfolding chunks_from
  chunks_from-AreChunks zero position start good o h f clean = absurd (omega arith)
  chunks_from-AreChunks (suc fuel) position start good o h f clean =
      elim (dec_lt start (length text)) [
        | no p ↦
            let stop : ltb start (length text) ≡ false = ground arith in
            (
              [],
              rw stop refl,
              record { each = tt; order = tt; cover = λ i a b c. absurd (omega arith) },
            )
        | yes p ↦
            let go : ltb start (length text) ≡ true = ground arith in
            let end = chunk_end text sizes start in
            let chunk = make_chunk hash position text start (trim_end text start end) in
            let (a, b, c, far) = chunk_end-bounds text sizes start good p in
            elim (Bool-cases (end == length text)) [
              | inl y ↦
                  let e : end ≡ length text = ground arith in
                  (chunk ∷ [], rw (go, y) refl, last-AreChunks position start good p (clean p) e)
              | inr n ↦
                  let low : start + sizes.min_chars ≤ end = ground (arith, far, n) in
                  let next = next_start text start end sizes.overlap_chars in
                  let is_next =
                    next_start-IsNext text start end sizes.overlap_chars o
                      (omega (arith, good.0, low)) b in
                  let (rest, found, right) =
                    chunks_from-AreChunks fuel (suc position) next good o is_next.within
                      (omega (arith, is_next.after)) is_next.stops in
                  (
                    chunk ∷ rest,
                    rw (go, n, found) refl,
                    step-AreChunks position start rest good p (clean p) next is_next right,
                  )
            ]
      ]

  -- For sizes with 1 <= overlap_chars < min_chars <= max_chars, every text has chunks: the loop ends.
  -- Each is a slice of the text of at most max_chars characters that is not empty and neither starts
  -- nor ends with whitespace, with the hash of its text; they count from 0, each starts after the one
  -- before, and every character that is not whitespace is in one of them.
  pub chunk_text-AreChunks :
      AreGood sizes
      → 1 ≤ sizes.overlap_chars
      → (chunks : List TextChunk) × (chunk_text hash text sizes ≡ ok (some chunks))
        × AreChunks 0 0 chunks
  unfolding chunk_text sizes_are_bad
  chunk_text-AreChunks good o =
      let start = skip_whitespace text 0 in
      let (inside, clean, before) = first-IsStart text in
      let passes : sizes_are_bad sizes ≡ false = ground (arith, good.0, good.1) in
      let (chunks, found, right) =
        chunks_from-AreChunks (suc (length text)) 0 start good o inside (omega arith) clean in
      (
        chunks,
        rw passes (rw found refl),
        record {
          each = right.each;
          order = InOrder-weaken 0 start 0 chunks (omega arith) right.order;
          cover = λ i a b c. elim (dec_lt i start) [
            | yes p ↦ let space = before i (omega arith) p in absurd (ground (arith, space, c))
            | no p ↦ right.cover i (omega arith) b c
          ];
        },
      )
