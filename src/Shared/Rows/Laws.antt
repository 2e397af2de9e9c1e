-- ===== src/Shared/Rows/Laws.antt =====
-- What the SQL clauses keep.
use Prim.Native.Nat.{ℕ}
use mathlib.Core.Path.{◌≡◌, refl}
use mathlib.Core.Logic.{◌⊎◌, inl, inr}
use mathlib.Core.Bool.{Bool, true, false, ◌&&◌}
use mathlib.Core.Option.{Option, none, some}
use mathlib.Core.List.{List, [], ◌∷◌}
use native.Mathlib.Omega.{arith}
use signalscope.Shared.Tests.{if◌then◌else◌, Bool-cases, ◌==◌}
use signalscope.Shared.Lists.{All, All-map, In, here, there, length}
use signalscope.Shared.Results.{is_some}
use signalscope.Shared.Rows.{select, find, update, update_first, delete, count}

module _ {ℓ κ μ} {A : Type ℓ} {P : A → Type κ} {Q : A → Type μ} (p : A → Bool) (f : A → A) where
  -- A predicate after an update, from the rows that fit and from those that do not.
  pub All-update :
      (rows : List A)
      → ((r : A) → P r → p r ≡ true → Q (f r))
      → ((r : A) → P r → p r ≡ false → Q r)
      → All P rows
      → All Q (update p f rows)
  unfolding update
  All-update [] hit miss h = tt
  All-update (r ∷ rows) hit miss h = elim (Bool-cases (p r)) [
    | inl e ↦ rw e (hit r h.0 e, All-update rows hit miss h.1)
    | inr e ↦ rw e (miss r h.0 e, All-update rows hit miss h.1)
  ]

module _ {ℓ κ} {A : Type ℓ} (P : A → Type κ) (p : A → Bool) where
  pub All-update_first :
      (f : A → A) (rows : List A)
      → ((r : A) → P r → p r ≡ true → P (f r))
      → All P rows
      → All P (update_first p f rows)
  unfolding update_first
  All-update_first f [] hit h = tt
  All-update_first f (r ∷ rows) hit h = elim (Bool-cases (p r)) [
    | inl e ↦ rw e (hit r h.0 e, h.1)
    | inr e ↦ rw e (h.0, All-update_first f rows hit h.1)
  ]

  pub All-select : (rows : List A) → All P rows → All P (select p rows)
  unfolding select
  All-select [] h = tt
  All-select (r ∷ rows) h = elim (Bool-cases (p r)) [
    | inl e ↦ rw e (h.0, All-select rows h.1)
    | inr e ↦ rw e (All-select rows h.1)
  ]

  pub All-delete : (rows : List A) → All P rows → All P (delete p rows)
  unfolding delete
  All-delete [] h = tt
  All-delete (r ∷ rows) h = elim (Bool-cases (p r)) [
    | inl e ↦ rw e (All-delete rows h.1)
    | inr e ↦ rw e (h.0, All-delete rows h.1)
  ]

  -- A row that was found fits, and has what all rows have.
  pub find-All : (rows : List A) {r : A} → find p rows ≡ some r → All P rows → (p r ≡ true) × P r
  unfolding find
  find-All [] e h = cc
  find-All (s ∷ rows) {r} e h = elim (Bool-cases (p s)) [
    | inl y ↦ let q : s ≡ r = ground arith in rw (← q) (y, h.0)
    | inr n ↦ find-All rows (ground arith) h.1
  ]

pub In-nil {ℓ} : {A : Type ℓ} {a : A} → In a [] → ⊥
In-nil i = elim i [ ]

pub In-cons {ℓ} : {A : Type ℓ} {a x : A} {xs : List A} → In a (x ∷ xs) → (a ≡ x) ⊎ In a xs
In-cons (here q) = inl q
In-cons (there i) = inr i

module _ {ℓ} {A : Type ℓ} (p : A → Bool) where
  -- What is selected fits.
  pub select-All : (rows : List A) → All (λ r. p r ≡ true) (select p rows)
  unfolding select
  select-All [] = tt
  select-All (r ∷ rows) = elim (Bool-cases (p r)) [
    | inl e ↦ rw e (e, select-All rows)
    | inr e ↦ rw e (select-All rows)
  ]

  pub find-In : (rows : List A) {r : A} → find p rows ≡ some r → (p r ≡ true) × In r rows
  unfolding find
  find-In [] e = cc
  find-In (s ∷ rows) {r} e = elim (Bool-cases (p s)) [
    | inl y ↦ let q : r ≡ s = ground arith in (rw q y, here q)
    | inr n ↦ let (y, i) = find-In rows (ground arith) in (y, there i)
  ]

  pub find-none : (rows : List A) → find p rows ≡ none → All (λ r. p r ≡ false) rows
  unfolding find
  find-none [] e = tt
  find-none (s ∷ rows) e = elim (Bool-cases (p s)) [
    | inl y ↦ absurd (ground arith)
    | inr n ↦ (n, find-none rows (ground arith))
  ]

  pub find_absent : (rows : List A) → All (λ r. p r ≡ false) rows → find p rows ≡ none
  unfolding find
  find_absent [] h = refl
  find_absent (s ∷ rows) h = rw h.0 (find_absent rows h.1)

  -- Nothing fits, nothing changes.
  pub update_absent :
      (f : A → A) (rows : List A) → All (λ r. p r ≡ false) rows → update p f rows ≡ rows
  unfolding update
  update_absent f [] h = refl
  update_absent f (r ∷ rows) h = rw (h.0, update_absent f rows h.1)

  pub length-update : (f : A → A) (rows : List A) → length (update p f rows) ≡ length rows
  unfolding update
  length-update f [] = refl
  length-update f (r ∷ rows) = rw (length-update f rows)

  pub length-select : (rows : List A) → length (select p rows) ≡ count p rows
  unfolding select count
  length-select [] = refl
  length-select (r ∷ rows) = elim (Bool-cases (p r)) [
    | inl e ↦ rw (e, length-select rows)
    | inr e ↦ rw (e, length-select rows)
  ]

  pub In-select : (rows : List A) {r : A} → In r rows → p r ≡ true → In r (select p rows)
  unfolding select
  In-select [] i e = elim i [ ]
  In-select (s ∷ rows) {r} (here q) e = rw (rw q at e) (here q)
  In-select (s ∷ rows) (there i) e = elim (Bool-cases (p s)) [
    | inl y ↦ rw y (there (In-select rows i e))
    | inr n ↦ rw n (In-select rows i e)
  ]

  pub In-of_In-select : (rows : List A) {r : A} → In r (select p rows) → (p r ≡ true) × In r rows
  unfolding select
  In-of_In-select [] i = elim i [ ]
  In-of_In-select (s ∷ rows) {r} i = elim (Bool-cases (p s)) [
    | inl y ↦ elim (In-cons (rw y at i)) [
      | inl q ↦ (rw q y, here q)
      | inr j ↦ let (z, k) = In-of_In-select rows j in (z, there k)
    ]
    | inr n ↦ let (y, j) = In-of_In-select rows (rw n at i) in (y, there j)
  ]

pub All-In {ℓ κ} : {A : Type ℓ} (P : A → Type κ) {a : A} {xs : List A} → All P xs → In a xs → P a
All-In P h (here q) = rw q h.0
All-In P h (there i) = All-In P h.1 i

-- No two rows have one key.
abbrev pub Unique {ℓ} : {A : Type ℓ} → (A → ℕ) → List A → Type 0
Unique key [] = Unit
Unique key (r ∷ rows) = All (λ s. (key s == key r) ≡ false) rows × Unique key rows

-- With keys, to look for a row with a key and a test is to look for the key and then test.
abbrev pub tested {ℓ} : {A : Type ℓ} → (A → Bool) → Option A → Bool
tested q none = false
tested q (some r) = q r

module _ {ℓ} {A : Type ℓ} (key : A → ℕ) where
  keys_differ :
      (i : ℕ) (r : A) (q : A → Bool) (rows : List A)
      → (key r == i) ≡ true
      → All (λ s. (key s == key r) ≡ false) rows
      → All (λ s. (key s == i && q s) ≡ false) rows
  keys_differ i r q rows e = All-map (λ s d. ground arith) rows

  pub find-and :
      (i : ℕ) (q : A → Bool) (rows : List A)
      → Unique key rows
      → is_some (find (λ s. key s == i && q s) rows) ≡ tested q (find (λ s. key s == i) rows)
  unfolding find
  find-and i q [] u = refl
  find-and i q (r ∷ rows) u = elim (Bool-cases (key r == i)) [
    | inr n ↦ rw n (find-and i q rows u.1)
    | inl e ↦ elim (Bool-cases (q r)) [
      | inl y ↦ rw (e, y)
      | inr n ↦
          rw (e, n)
            (rw (find_absent (λ s. key s == i && q s) rows (keys_differ i r q rows e u.0)) refl)
    ]
  ]

-- The row of a key that updates keep, after an update of the rows that fit `q`.
abbrev pub if_fits {ℓ} : {A : Type ℓ} → (A → Bool) → (A → A) → A → A
if_fits q f r = if q r then f r else r

module _ {ℓ} {A : Type ℓ} (p q : A → Bool) (f : A → A) (keeps : (r : A) → p (f r) ≡ p r) where
  pub find-update :
      (rows : List A) {r : A}
      → find p rows ≡ some r
      → find p (update q f rows) ≡ some (if_fits q f r)
  unfolding find update
  find-update [] e = absurd (ground arith)
  find-update (s ∷ rows) {r} e = elim (Bool-cases (p s)) [
    | inl y ↦
        let same : s ≡ r = ground arith in
        elim (Bool-cases (q s)) [
          | inl t ↦ rw (t, keeps s, y, ← same, t) refl
          | inr t ↦ rw (t, y, ← same, t) refl
        ]
    | inr n ↦ elim (Bool-cases (q s)) [
      | inl t ↦ rw (t, keeps s, n) (find-update rows (rw n at e))
      | inr t ↦ rw (t, n) (find-update rows (rw n at e))
    ]
  ]

  pub find-update-none : (rows : List A) → find p rows ≡ none → find p (update q f rows) ≡ none
  unfolding find update
  find-update-none [] e = refl
  find-update-none (s ∷ rows) e = elim (Bool-cases (p s)) [
    | inl y ↦ absurd (ground arith)
    | inr n ↦ elim (Bool-cases (q s)) [
      | inl t ↦ rw (t, keeps s, n) (find-update-none rows (rw n at e))
      | inr t ↦ rw (t, n) (find-update-none rows (rw n at e))
    ]
  ]

-- A row that an update does not fit stays.
pub In-update_other {ℓ} :
    {A : Type ℓ} (p : A → Bool) (f : A → A) (rows : List A) {r : A}
    → In r rows
    → p r ≡ false
    → In r (update p f rows)
unfolding update
In-update_other p f [] i n = elim i [ ]
In-update_other p f (s ∷ rows) {r} (here q) n = rw (rw q at n) (here q)
In-update_other p f (s ∷ rows) (there i) n = there (In-update_other p f rows i n)
