-- ===== src/Shared/Rows/Counts.antt =====
-- How changes of a table change the number of rows that fit.
use Prim.Native.Nat.{◌+◌, ◌≤◌}
use mathlib.Core.Path.{◌≡◌, refl}
use mathlib.Core.Logic.{inl, inr}
use mathlib.Core.Bool.{Bool, true, false}
use mathlib.Core.Option.{none, some}
use mathlib.Core.List.{List, [], ◌∷◌}
use native.Mathlib.Omega.{arith}
use signalscope.Shared.Tests.{Bool-cases}
use signalscope.Shared.Lists.{All, All-map}
use signalscope.Shared.Rows.{find, update, delete, count}

pub count-zero {ℓ} :
    {A : Type ℓ} (p : A → Bool) (rows : List A) → count p rows ≡ 0 → All (λ r. p r ≡ false) rows
unfolding count
count-zero p [] h = tt
count-zero p (r ∷ rows) h = elim (Bool-cases (p r)) [
  | inl e ↦ absurd (ground arith)
  | inr e ↦ (e, count-zero p rows (ground arith))
]

-- A key that was not found has no rows.
pub count_of_none {ℓ} :
    {A : Type ℓ} (p : A → Bool) (rows : List A) → find p rows ≡ none → count p rows ≡ 0
unfolding count find
count_of_none p [] h = refl
count_of_none p (r ∷ rows) h = elim (Bool-cases (p r)) [
  | inl e ↦ absurd (ground arith)
  | inr e ↦ rw e (count_of_none p rows (ground arith))
]

module _ {ℓ} {A : Type ℓ} (p q : A → Bool) where
  -- An update of rows takes at most so many rows away as it changes.
  pub count-le-update :
      (f : A → A) (rows : List A) → count q rows ≤ count q (update p f rows) + count p rows
  unfolding count update
  count-le-update f [] = omega arith
  count-le-update f (r ∷ rows) = ground (arith, count-le-update f rows)

  -- If the changed rows keep to fit, none is lost.
  pub count-update_mono :
      (f : A → A) (rows : List A)
      → All (λ r. p r ≡ true → q r ≡ true → q (f r) ≡ true) rows
      → count q rows ≤ count q (update p f rows)
  unfolding count update
  count-update_mono f [] h = omega arith
  count-update_mono f (r ∷ rows) h = elim (Bool-cases (p r)) [
    | inr e ↦ ground (arith, e, count-update_mono f rows h.1)
    | inl e ↦ ground (arith, e, h.0 e, count-update_mono f rows h.1)
  ]

  pub count-update_same :
      (f : A → A) (rows : List A)
      → All (λ r. p r ≡ true → q (f r) ≡ q r) rows
      → count q (update p f rows) ≡ count q rows
  unfolding count update
  count-update_same f [] h = refl
  count-update_same f (r ∷ rows) h = elim (Bool-cases (p r)) [
    | inl e ↦ rw (e, h.0 e, count-update_same f rows h.1)
    | inr e ↦ rw (e, count-update_same f rows h.1)
  ]

  pub count-le-delete : (rows : List A) → count q rows ≤ count q (delete p rows) + count p rows
  unfolding count delete
  count-le-delete [] = omega arith
  count-le-delete (r ∷ rows) = ground (arith, count-le-delete rows)

  pub count-delete-le : (rows : List A) → count q (delete p rows) ≤ count q rows
  unfolding count delete
  count-delete-le [] = omega arith
  count-delete-le (r ∷ rows) = ground (arith, count-delete-le rows)

  pub count-delete_same :
      (rows : List A)
      → All (λ r. p r ≡ true → q r ≡ false) rows
      → count q (delete p rows) ≡ count q rows
  unfolding count delete
  count-delete_same [] h = refl
  count-delete_same (r ∷ rows) h = elim (Bool-cases (p r)) [
    | inl e ↦ rw (e, h.0 e, count-delete_same rows h.1)
    | inr e ↦ rw (e, count-delete_same rows h.1)
  ]

  -- Where one row at most has the key, the row that was found speaks for all that have it.
  pub found_speaks :
      (rows : List A) {r : A}
      → count p rows ≤ 1
      → find p rows ≡ some r
      → q r ≡ false
      → All (λ s. p s ≡ true → q s ≡ false) rows
  unfolding count find
  found_speaks [] c e n = tt
  found_speaks (s ∷ rows) {r} c e n = elim (Bool-cases (p s)) [
    | inr m ↦ ((λ y. absurd (ground arith)), found_speaks rows (ground arith) (ground arith) n)
    | inl y ↦
        let same : s ≡ r = ground arith in
        (
          (λ _. rw same n),
          All-map (λ t absent y. absurd (ground arith)) rows (count-zero p rows (ground arith)),
        )
  ]

  -- An update that makes no row fit.
  pub count-update-le :
      (f : A → A) (rows : List A)
      → ((r : A) → q (f r) ≡ true → q r ≡ true)
      → count q (update p f rows) ≤ count q rows
  unfolding count update
  count-update-le f [] h = omega arith
  count-update-le f (r ∷ rows) h = elim (Bool-cases (p r)) [
    | inr e ↦ ground (arith, e, count-update-le f rows h)
    | inl e ↦ ground (arith, e, h r, count-update-le f rows h)
  ]

  -- Fewer rows fit a narrower test.
  pub count-le : (rows : List A) → ((r : A) → p r ≡ true → q r ≡ true) → count p rows ≤ count q rows
  unfolding count
  count-le [] h = omega arith
  count-le (r ∷ rows) h = ground (arith, h r, count-le rows h)

-- A test that implies one of two others.
pub count-le-sum {ℓ} :
    {A : Type ℓ} (p q s : A → Bool) (rows : List A)
    → ((r : A) → p r ≡ true → q r ≡ false → s r ≡ true)
    → count p rows ≤ count q rows + count s rows
unfolding count
count-le-sum p q s [] h = omega arith
count-le-sum p q s (r ∷ rows) h = ground (arith, h r, count-le-sum p q s rows h)

pub count_of_false {ℓ} :
    {A : Type ℓ} (p : A → Bool) (rows : List A) → ((r : A) → p r ≡ false) → count p rows ≡ 0
unfolding count
count_of_false p [] h = refl
count_of_false p (r ∷ rows) h = rw (h r) (count_of_false p rows h)
