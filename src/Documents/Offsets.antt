-- ===== src/Documents/Offsets.antt =====
-- The offsets that chunk_document gives to chunks (domain/documents/chunking.py).
use signalscope.Shared.{
  ℕ, zero, suc, ◌+◌, ◌-◌, ◌≤◌, ◌<◌, ◌≡◌, refl, sym, ◌∙◌, ap, Option, some, List, [], ◌∷◌, ◌++◌,
  append_assoc, append-nil, arith, Result, ok, length, length-append, take, drop, All,
}
use signalscope.Shared.Text.{Text}
use signalscope.Documents.Chunking.{Sizes, TextChunk, ChunkError, slice, chunk_text}
use signalscope.Documents.Steps.{AreGood}
use signalscope.Documents.Chunks.{IsChunk, chunk_text-AreChunks}
use signalscope.Documents.Sections.{
  ParsedSection, ParsedDocument, joined, section_separator, section_metadata, DocumentChunk, placed,
  number_of, placed_before, chunk_sections, chunk_all, chunk_document,
}

drop-append : (pre text : Text) (n : ℕ) → drop (length pre + n) (pre ++ text) ≡ drop n text
drop-append [] text n = let same : 0 + n ≡ n = omega arith in rw same refl
drop-append (c ∷ pre) text n =
    let same : suc (length pre) + n ≡ suc (length pre + n) = omega arith in
    rw same (drop-append pre text n)

take-append : (text post : Text) (n : ℕ) → n ≤ length text → take n (text ++ post) ≡ take n text
take-append text post zero h = refl
take-append [] post (suc n) h = absurd (omega arith)
take-append (c ∷ text) post (suc n) h = ap (λ t. c ∷ t) (take-append text post n (omega arith))

drop-append_inside :
    (text post : Text) (n : ℕ) → n ≤ length text → drop n (text ++ post) ≡ drop n text ++ post
drop-append_inside text post zero h = refl
drop-append_inside [] post (suc n) h = absurd (omega arith)
drop-append_inside (c ∷ text) post (suc n) h = drop-append_inside text post n (omega arith)

length-drop : (text : Text) (n : ℕ) → length (drop n text) ≡ length text - n
length-drop text zero = omega arith
length-drop [] (suc n) = omega arith
length-drop (c ∷ text) (suc n) = omega (arith, length-drop text n)

-- A slice of a part of a text is the slice of the text that lies as much later as the part does.
slice-inside :
    (pre text post : Text) (a b : ℕ)
    → a ≤ b
    → b ≤ length text
    → slice (pre ++ (text ++ post)) (length pre + a) (length pre + b) ≡ slice text a b
unfolding slice
slice-inside pre text post a b le h =
    let same : length pre + b - (length pre + a) ≡ b - a = omega arith in
    rw (same, drop-append pre (text ++ post) a, drop-append_inside text post a (omega arith))
      (take-append (drop a text) post (b - a) (omega (arith, length-drop text a)))

-- A chunk lies in the text, is not empty and is what stands there.
abbrev pub PointsInto : Text → DocumentChunk → Type 0
PointsInto text d =
    (d.chunk.start_char < d.chunk.end_char)
    × (d.chunk.end_char ≤ length text)
    × (d.chunk.text ≡ slice text d.chunk.start_char d.chunk.end_char)

-- The chunks count on from `position`.
abbrev pub CountFrom : ℕ → List DocumentChunk → Type 0
CountFrom position [] = Unit
CountFrom position (d ∷ chunks) = (d.chunk.position ≡ position) × CountFrom (suc position) chunks

All-append :
    (P : DocumentChunk → Type 0) (xs ys : List DocumentChunk)
    → All P xs
    → All P ys
    → All P (xs ++ ys)
All-append P [] ys h k = k
All-append P (x ∷ xs) ys h k = (h.0, All-append P xs ys h.1 k)

module _ (hash : Text → Text) (sizes : Sizes) where
  placed-PointsInto :
      (pre text post : Text) (position : ℕ) (metadata : signalscope.Documents.Sections.Metadata)
      (chunks : List TextChunk)
      → All (IsChunk hash text sizes) chunks
      → All (PointsInto (pre ++ (text ++ post))) (placed (length pre) position metadata chunks)
  unfolding placed
  placed-PointsInto pre text post position metadata [] h = tt
  placed-PointsInto pre text post position metadata (c ∷ chunks) h = (
    (
      omega (arith, h.0.not_empty),
      omega (arith, h.0.within, length-append pre (text ++ post), length-append text post),
      h.0.is_slice
          ∙ sym (
              slice-inside pre text post c.start_char c.end_char (omega (arith, h.0.not_empty))
                h.0.within),
    ),
    placed-PointsInto pre text post (suc position) metadata chunks h.1,
  )

  placed-CountFrom :
      (start position : ℕ) (metadata : signalscope.Documents.Sections.Metadata)
      (chunks : List TextChunk) (rest : List DocumentChunk)
      → CountFrom (position + length chunks) rest
      → CountFrom position (placed start position metadata chunks ++ rest)
  unfolding placed
  placed-CountFrom start position metadata [] rest h =
      let same : position + 0 ≡ position = omega arith in rw same at h
  placed-CountFrom start position metadata (c ∷ chunks) rest h =
      let same : position + suc (length chunks) ≡ suc position + length chunks = omega arith in
      (refl, placed-CountFrom start (suc position) metadata chunks rest (rw same at h))

  module _ (good : AreGood sizes) (overlap : 1 ≤ sizes.overlap_chars) where
    -- The result is chunks of the text that count on.
    abbrev pub IsResult : Text → ℕ → Result ChunkError (Option (List DocumentChunk)) → Type 0
    IsResult text position r =
        (chunks : List DocumentChunk) × (r ≡ ok (some chunks))
        × All (PointsInto text) chunks
        × CountFrom position chunks

    chunk_sections-cons :
        (start position : ℕ) (s : ParsedSection) (sections : List ParsedSection)
        (chunks : List TextChunk) (rest : List DocumentChunk)
        → chunk_text hash s.text sizes ≡ ok (some chunks)
        → chunk_sections hash sizes
            (start + length s.text + length section_separator)
            (position + length chunks)
            sections
          ≡ ok (some rest)
        → chunk_sections hash sizes start position (s ∷ sections)
          ≡ ok (some (placed start position (section_metadata s) chunks ++ rest))
    unfolding chunk_sections
    chunk_sections-cons start position s sections chunks rest e f = rw (e, f) refl

    -- The chunks of one section before those of the others.
    section-IsResult :
        (pre post : Text) (position : ℕ) (s : ParsedSection) (sections : List ParsedSection)
        → ((n : ℕ)
            → IsResult (pre ++ (s.text ++ post)) n (
                chunk_sections hash sizes
                  (length pre + length s.text + length section_separator)
                  n
                  sections))
        → IsResult
            (pre ++ (s.text ++ post))
            position
            (chunk_sections hash sizes (length pre) position (s ∷ sections))
    section-IsResult pre post position s sections others =
        let (chunks, found, right) = chunk_text-AreChunks hash s.text sizes good overlap in
        let (rest, e, into, count) = others (position + length chunks) in
        (
          placed (length pre) position (section_metadata s) chunks ++ rest,
          chunk_sections-cons (length pre) position s sections chunks rest found e,
          All-append (PointsInto (pre ++ (s.text ++ post)))
              (placed (length pre) position (section_metadata s) chunks) rest
              (placed-PointsInto pre s.text post position (section_metadata s) chunks right.each)
              into,
          placed-CountFrom (length pre) position (section_metadata s) chunks rest count,
        )

    moved :
        (text text' : Text) (start start' position : ℕ) (sections : List ParsedSection)
        → text ≡ text'
        → start ≡ start'
        → IsResult text position (chunk_sections hash sizes start position sections)
        → IsResult text' position (chunk_sections hash sizes start' position sections)
    moved text text' start start' position sections e f h = rw (← e, ← f) h

    none-IsResult :
        (text : Text) (start position : ℕ)
        → IsResult text position (chunk_sections hash sizes start position [])
    unfolding chunk_sections
    none-IsResult text start position = ([], refl, tt, tt)

    chunk_sections-IsResult :
        (pre : Text) (position : ℕ) (sections : List ParsedSection)
        → IsResult
            (pre ++ joined sections)
            position
            (chunk_sections hash sizes (length pre) position sections)
    unfolding joined
    chunk_sections-IsResult pre position [] = none-IsResult (pre ++ []) (length pre) position
    chunk_sections-IsResult pre position (s ∷ []) =
        moved (pre ++ (s.text ++ [])) (pre ++ s.text) (length pre) (length pre) position (s ∷ [])
          (rw (append-nil s.text) refl) refl
          (section-IsResult pre [] position s [] (λ n.
            none-IsResult (pre ++ (s.text ++ []))
              (length pre + length s.text + length section_separator) n))
    chunk_sections-IsResult pre position (s ∷ t ∷ sections) =
        let rest = section_separator ++ joined (t ∷ sections) in
        let before = pre ++ (s.text ++ section_separator) in
        let same_text : before ++ joined (t ∷ sections) ≡ pre ++ (s.text ++ rest) =
          append_assoc pre (s.text ++ section_separator) (joined (t ∷ sections))
          ∙ ap (λ u. pre ++ u) (append_assoc s.text section_separator (joined (t ∷ sections))) in
        let same_start : length before ≡ length pre + length s.text + length section_separator =
          omega (
            arith,
            length-append pre (s.text ++ section_separator),
            length-append s.text section_separator,
          ) in
        section-IsResult pre rest position s (t ∷ sections) (λ n.
          moved (before ++ joined (t ∷ sections)) (pre ++ (s.text ++ rest)) (length before)
            (length pre + length s.text + length section_separator) n (t ∷ sections) same_text
            same_start (chunk_sections-IsResult before n (t ∷ sections)))

    -- For sizes with 1 <= overlap_chars < min_chars <= max_chars, a document that is well formed, its text being that of its sections joined if it has any, has
    -- chunks: each is the non-empty slice of the document's text that its offsets give, also where it
    -- comes from a section, and the chunks count from 0 through the whole document.
    pub chunk_document-offsets :
        (document : ParsedDocument)
        → ((s : ParsedSection) (rest : List ParsedSection)
            → document.sections ≡ s ∷ rest
            → document.text ≡ joined document.sections)
        → (chunks : List DocumentChunk) × (chunk_document hash sizes document ≡ ok (some chunks))
          × All (PointsInto document.text) chunks
          × CountFrom 0 chunks
    unfolding chunk_document
    chunk_document-offsets document whole = go document.text document.sections whole
      where
        go :
            (text : Text) (sections : List ParsedSection)
            → ((s : ParsedSection) (rest : List ParsedSection)
                → sections ≡ s ∷ rest
                → text ≡ joined sections)
            → (chunks : List DocumentChunk) × (chunk_all hash sizes text sections
                ≡ ok (some chunks))
              × All (PointsInto text) chunks
              × CountFrom 0 chunks
        go text [] w =
            let (chunks, found, right) = chunk_text-AreChunks hash text sizes good overlap in
            (
              placed 0 0 [] chunks ++ [],
              rw found refl,
              All-append (PointsInto text) (placed 0 0 [] chunks) []
                  (let h = placed-PointsInto [] text [] 0 [] chunks right.each in
                    rw (append-nil text) at h)
                  tt,
              placed-CountFrom 0 0 [] chunks [] tt,
            )
        go text (s ∷ sections) w =
            rw (w s sections refl) (chunk_sections-IsResult [] 0 (s ∷ sections))
