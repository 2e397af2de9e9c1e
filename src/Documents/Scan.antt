-- ===== src/Documents/Scan.antt =====
-- The loops over the characters of a text that domain/documents/chunking.py runs, on a test of
-- positions, and what they find.
use signalscope.Shared.{
  ℕ, zero, suc, ◌+◌, ◌-◌, ◌≤◌, ◌<◌, ◌≡◌, inl, inr, Bool, true, false, ◌&&◌, Option, none, some,
  arith, ltb, if◌then◌else◌, Bool-cases, dec_le,
}

module _ (test : ℕ → Bool) where
  -- The positions from `low` to `high`, without the latter, that the test holds at.
  abbrev pub HoldsFrom : ℕ → ℕ → Type 0
  HoldsFrom low high = (j : ℕ) → low ≤ j → j < high → test j ≡ true

  -- The last of the `n` positions from `low` on that passes, looked for from the end.
  unfoldable pub last_from : ℕ → ℕ → Option ℕ
  last_from low zero = none
  last_from low (suc n) =
      let rest = last_from low n in if test (low + n) then some (low + n) else rest

  -- The first of them.
  unfoldable pub first_from : ℕ → ℕ → Option ℕ
  first_from low zero = none
  first_from low (suc n) = let rest = first_from (suc low) n in if test low then some low else rest

  -- `while i < len(text) and test(i): i += 1`, with `n` positions left
  unfoldable pub skip : ℕ → ℕ → ℕ
  skip i zero = i
  skip i (suc n) = let rest = skip (suc i) n in if test i then rest else i

  -- `while end > start and test(end - 1): end -= 1`
  unfoldable pub trim : ℕ → ℕ → ℕ
  trim start zero = zero
  trim start (suc e) =
      let rest = trim start e in if ltb start (suc e) && test e then rest else suc e

  pub last_from-some :
      (low n : ℕ) {i : ℕ} → last_from low n ≡ some i → (low ≤ i) × (i < low + n) × (test i ≡ true)
  unfolding last_from
  last_from-some low zero h = absurd (ground arith)
  last_from-some low (suc n) {i} h = elim (Bool-cases (test (low + n))) [
    | inl y ↦ let same : low + n ≡ i = ground arith in (omega arith, omega arith, rw (← same) y)
    | inr m ↦ let (a, b, c) = last_from-some low n (ground arith) in (a, omega arith, c)
  ]

  pub first_from-some :
      (low n : ℕ) {i : ℕ} → first_from low n ≡ some i → (low ≤ i) × (i < low + n) × (test i ≡ true)
  unfolding first_from
  first_from-some low zero h = absurd (ground arith)
  first_from-some low (suc n) {i} h = elim (Bool-cases (test low)) [
    | inl y ↦ let same : low ≡ i = ground arith in (omega arith, omega arith, rw (← same) y)
    | inr m ↦
        let (a, b, c) = first_from-some (suc low) n (ground arith) in (omega arith, omega arith, c)
  ]

  pub first_from-none :
      (low n j : ℕ) → first_from low n ≡ none → low ≤ j → j < low + n → test j ≡ false
  unfolding first_from
  first_from-none low zero j h a b = absurd (omega arith)
  first_from-none low (suc n) j h a b = elim (Bool-cases (test low)) [
    | inl y ↦ absurd (ground arith)
    | inr m ↦ elim (dec_le j low) [
      | yes p ↦ let same : low ≡ j = omega arith in rw (← same) m
      | no p ↦ first_from-none (suc low) n j (ground arith) (omega arith) (omega arith)
    ]
  ]

  pub skip-bounds : (i n : ℕ) → (i ≤ skip i n) × (skip i n ≤ i + n)
  unfolding skip
  skip-bounds i zero = (omega arith, omega arith)
  skip-bounds i (suc n) = ground (arith, skip-bounds (suc i) n)

  pub skip-HoldsFrom : (i n : ℕ) → HoldsFrom i (skip i n)
  unfolding skip
  skip-HoldsFrom i zero j a b = absurd (omega arith)
  skip-HoldsFrom i (suc n) j a b = elim (Bool-cases (test i)) [
    | inl y ↦ elim (dec_le j i) [
      | yes p ↦ let same : i ≡ j = omega arith in rw (← same) y
      | no p ↦ skip-HoldsFrom (suc i) n j (omega arith) (rw y at b)
    ]
    | inr m ↦ absurd (ground arith)
  ]

  pub skip-stops : (i n : ℕ) → skip i n < i + n → test (skip i n) ≡ false
  unfolding skip
  skip-stops i zero h = absurd (omega arith)
  skip-stops i (suc n) h = elim (Bool-cases (test i)) [
    | inl y ↦ rw y (skip-stops (suc i) n (ground arith))
    | inr m ↦ rw m m
  ]

  pub trim-bounds : (start e : ℕ) → start ≤ e → (start ≤ trim start e) × (trim start e ≤ e)
  unfolding trim
  trim-bounds start zero h = (omega arith, omega arith)
  trim-bounds start (suc e) h = ground (arith, trim-bounds start e)

  pub trim-HoldsFrom : (start e : ℕ) → HoldsFrom (trim start e) e
  unfolding trim
  trim-HoldsFrom start zero j a b = absurd (omega arith)
  trim-HoldsFrom start (suc e) j a b = elim (Bool-cases (ltb start (suc e) && test e)) [
    | inl y ↦ elim (dec_le e j) [
      | yes p ↦ let same : e ≡ j = omega arith in rw (← same) (ground arith)
      | no p ↦ trim-HoldsFrom start e j (rw y at a) (omega arith)
    ]
    | inr m ↦ absurd (ground arith)
  ]

  -- What is left does not end with a position that passes.
  pub trim-stops : (start e : ℕ) → start < trim start e → test (trim start e - 1) ≡ false
  unfolding trim
  trim-stops start zero h = absurd (omega arith)
  trim-stops start (suc e) h = elim (Bool-cases (ltb start (suc e) && test e)) [
    | inl y ↦ rw y (trim-stops start e (rw y at h))
    | inr m ↦ let same : suc e - 1 ≡ e = omega arith in rw m (rw same (ground arith))
  ]

  -- Something is left where the first position does not pass.
  pub trim-pos : (start e : ℕ) → start < e → test start ≡ false → start < trim start e
  unfolding trim
  trim-pos start zero h n = absurd (omega arith)
  trim-pos start (suc e) h n = elim (Bool-cases (ltb start (suc e) && test e)) [
    | inr m ↦ rw m h
    | inl y ↦ elim (dec_le e start) [
      | yes p ↦ let same : start ≡ e = omega arith in absurd (let t = rw same at n in ground arith)
      | no p ↦ rw y (trim-pos start e (omega arith) n)
    ]
  ]
