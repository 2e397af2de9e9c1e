-- ===== src/Documents/Steps.antt =====
-- Where one round of the chunking loop ends its chunk, and where the next round starts.
use signalscope.Shared.{
  ℕ, ◌+◌, ◌-◌, ◌≤◌, ◌<◌, ◌≡◌, refl, inl, inr, ◌⊎◌, false, List, [], ◌∷◌, arith, leb, max, length,
  drop, Bool-cases, Option-cases,
}
use signalscope.Shared.Text.{starts_with, Text}
use signalscope.Documents.Scan.{
  HoldsFrom, last_from, last_from-some, first_from, first_from-some, first_from-none, skip-bounds,
  skip-HoldsFrom, skip-stops,
}
use signalscope.Documents.Chunking.{
  Sizes, space_at, rfind, skip_whitespace, find_break, preferred_breaks, chunk_end, next_start,
}

-- `0 <= overlap_chars < min_chars <= max_chars`
abbrev pub AreGood : Sizes → Type 0
AreGood sizes = (sizes.overlap_chars < sizes.min_chars) × (sizes.min_chars ≤ sizes.max_chars)

module _ (text : Text) where
  find_break-bounds :
      (separators : List Text) (lowest limit : ℕ)
      → lowest ≤ limit
      → (lowest ≤ find_break text separators lowest limit)
        × (find_break text separators lowest limit ≤ limit)
  unfolding find_break rfind
  find_break-bounds [] lowest limit h =
      elim (Option-cases (last_from (space_at text) lowest (limit + 1 - lowest))) [
        | inl e ↦ rw e (omega arith, omega arith)
        | inr (i, e) ↦
            let (a, b, _) = last_from-some (space_at text) lowest (limit + 1 - lowest) e in
            rw e (a, omega arith)
      ]
  find_break-bounds (s ∷ separators) lowest limit h =
      let test = λ (i : ℕ). starts_with s (drop i text) in
      elim (Option-cases (last_from test lowest (limit + 1 - (lowest + length s)))) [
        | inl e ↦ rw e (find_break-bounds separators lowest limit h)
        | inr (i, e) ↦
            let (a, b, _) = last_from-some test lowest (limit + 1 - (lowest + length s)) e in
            rw e (a, omega arith)
      ]

  -- A chunk ends after its start, within its size, and at the end of the text or not before the
  -- minimal size.
  pub chunk_end-bounds :
      (sizes : Sizes) (start : ℕ)
      → AreGood sizes
      → start < length text
      → let end = chunk_end text sizes start in
        (start < end)
        × (end ≤ length text)
        × (end ≤ start + sizes.max_chars)
        × ((end ≡ length text) ⊎ (start + sizes.min_chars ≤ end))
  unfolding chunk_end
  chunk_end-bounds sizes start good h =
      elim (Bool-cases (leb (length text) (start + sizes.max_chars))) [
        | inl y ↦ rw y (h, omega arith, ground arith, inl refl)
        | inr n ↦
            let (low, high) =
              find_break-bounds preferred_breaks (start + sizes.min_chars) (start + sizes.max_chars)
                (omega (arith, good.1)) in
            rw n (omega (arith, good.0, low), ground (arith, high), high, inr low)
      ]

  skip_whitespace-bounds :
      (i : ℕ)
      → i ≤ length text
      → (i ≤ skip_whitespace text i) × (skip_whitespace text i ≤ length text)
  unfolding skip_whitespace
  skip_whitespace-bounds i h =
      let (a, b) = skip-bounds (space_at text) i (length text - i) in (a, omega (arith, b))

  skip_whitespace-HoldsFrom : (i : ℕ) → HoldsFrom (space_at text) i (skip_whitespace text i)
  unfolding skip_whitespace
  skip_whitespace-HoldsFrom i = skip-HoldsFrom (space_at text) i (length text - i)

  skip_whitespace-stops :
      (i : ℕ)
      → i ≤ length text
      → skip_whitespace text i < length text
      → space_at text (skip_whitespace text i) ≡ false
  unfolding skip_whitespace
  skip_whitespace-stops i h b = skip-stops (space_at text) i (length text - i) (omega arith)

  -- A good place for a chunk to start, after a chunk from `start` to `end`: it lies after the start,
  -- nothing but whitespace is left out, and it is no whitespace itself.
  pub record IsNext (start end next : ℕ) : Type 0 where
    pub after : start < next
    pub within : next ≤ length text
    pub skipped : HoldsFrom (space_at text) end next
    pub stops : next < length text → space_at text next ≡ false

  skipped-IsNext :
      (start end i : ℕ)
      → start < i
      → i ≤ end
      → end ≤ length text
      → IsNext start end (skip_whitespace text i)
  skipped-IsNext start end i a b c =
      let (low, high) = skip_whitespace-bounds i (omega arith) in
      record {
        after = omega (arith, low);
        within = high;
        skipped = λ j p q. skip_whitespace-HoldsFrom i j (omega arith) q;
        stops = λ q. skip_whitespace-stops i (omega arith) q;
      }

  pub next_start-IsNext :
      (start end overlap : ℕ)
      → 1 ≤ overlap
      → start + overlap < end
      → end ≤ length text
      → IsNext start end (next_start text start end overlap)
  unfolding next_start
  next_start-IsNext start end overlap some_overlap room h =
      let c = max (end - overlap) (start + 1) in
      elim (Bool-cases (space_at text (c - 1))) [
        | inl y ↦ rw y (skipped-IsNext start end c (omega arith) (omega arith) h)
        | inr n ↦ elim (Option-cases (first_from (space_at text) c (end - c))) [
          | inr (i, e) ↦
              let (a, b, _) = first_from-some (space_at text) c (end - c) e in
              rw (n, e) (skipped-IsNext start end i (omega (arith, a)) (omega (arith, b)) h)
          | inl e ↦
              rw (n, e)
                record {
                  after = omega arith;
                  within = omega arith;
                  skipped = λ j p q. absurd (omega arith);
                  stops = λ q.
                      first_from-none (space_at text) c (end - c) c e (omega arith) (omega arith);
                }
        ]
      ]

  -- Where the first chunk starts.
  pub first-IsStart :
      let first = skip_whitespace text 0 in
      (first ≤ length text)
      × (first < length text → space_at text first ≡ false)
      × HoldsFrom (space_at text) 0 first
  first-IsStart = (
    (skip_whitespace-bounds 0 (omega arith)).1,
    (λ q. skip_whitespace-stops 0 (omega arith) q),
    skip_whitespace-HoldsFrom 0,
  )
