-- ===== src/Shared/Rows/Picked.antt =====
-- Rows that are picked by a query and then written by their keys (id IN (SELECT …)).
use Prim.Native.Nat.{ℕ, zero, suc, ◌+◌}
use mathlib.Core.Path.{◌≡◌, refl, ap, ◌∙◌}
use mathlib.Core.Logic.{◌⊎◌, inl, inr}
use mathlib.Core.Bool.{Bool, true, false, ◌&&◌, ◌||◌}
use mathlib.Core.List.{List, [], ◌∷◌, map}
use native.Mathlib.Omega.{arith}
use signalscope.Shared.Tests.{◌==◌, Bool-cases}
use signalscope.Shared.Lists.{All, All-map, In, here, there, length, take}
use signalscope.Shared.Rows.{select, insert_by, order_by, delete, count}
use signalscope.Shared.Rows.Laws.{Unique, All-select, All-In, In-cons}
use signalscope.Shared.Rows.Counts.{count_of_false}
use signalscope.Shared.Rows.Order.{
  All-insert_by, All-order_by, All-take, IsOrder, Sorted, Sorted-head,
}

-- `key IN (keys)`
unfoldable pub in_keys : List ℕ → ℕ → Bool
in_keys [] k = false
in_keys (i ∷ keys) k = i == k || in_keys keys k

count-or {ℓ} :
    {A : Type ℓ} (p q : A → Bool) (rows : List A)
    → ((r : A) → p r ≡ true → q r ≡ false)
    → count (λ r. p r || q r) rows ≡ count p rows + count q rows
unfolding count
count-or p q [] h = omega arith
count-or p q (r ∷ rows) h = ground (arith, h r, count-or p q rows h)

-- The rows that fit, and those that do not.
pub count-split {ℓ} :
    {A : Type ℓ} (p q : A → Bool) (rows : List A)
    → count p (delete q rows) + count (λ r. q r && p r) rows ≡ count p rows
unfolding count delete
count-split p q [] = omega arith
count-split p q (r ∷ rows) = ground (arith, count-split p q rows)

pub count-eq {ℓ} :
    {A : Type ℓ} (p q : A → Bool) (rows : List A)
    → All (λ r. p r ≡ q r) rows
    → count p rows ≡ count q rows
unfolding count
count-eq p q [] h = refl
count-eq p q (r ∷ rows) h = rw (h.0, count-eq p q rows h.1) refl

module _ {ℓ} {A : Type ℓ} (key : A → ℕ) where
  pub Unique-select : (p : A → Bool) (rows : List A) → Unique key rows → Unique key (select p rows)
  unfolding select
  Unique-select p [] h = tt
  Unique-select p (r ∷ rows) h = elim (Bool-cases (p r)) [
    | inl e ↦ rw e (All-select (λ s. (key s == key r) ≡ false) p rows h.0, Unique-select p rows h.1)
    | inr e ↦ rw e (Unique-select p rows h.1)
  ]

  Unique-insert_by :
      (before : A → A → Bool) (r : A) (rows : List A)
      → All (λ s. (key s == key r) ≡ false) rows
      → Unique key rows
      → Unique key (insert_by before r rows)
  unfolding insert_by
  Unique-insert_by before r [] n h = (tt, tt)
  Unique-insert_by before r (s ∷ rows) n h = elim (Bool-cases (before r s)) [
    | inl e ↦ rw e (n, h)
    | inr e ↦ rw e (
      All-insert_by before (λ t. (key t == key s) ≡ false) r rows (ground (arith, n.0)) h.0,
      Unique-insert_by before r rows n.1 h.1,
    )
  ]

  pub Unique-order_by :
      (before : A → A → Bool) (rows : List A) → Unique key rows → Unique key (order_by before rows)
  unfolding order_by
  Unique-order_by before [] h = tt
  Unique-order_by before (r ∷ rows) h =
      Unique-insert_by before r (order_by before rows)
        (All-order_by before (λ s. (key s == key r) ≡ false) rows h.0)
        (Unique-order_by before rows h.1)

  pub Unique-take : (n : ℕ) (rows : List A) → Unique key rows → Unique key (take n rows)
  Unique-take zero rows h = tt
  Unique-take (suc n) [] h = tt
  Unique-take (suc n) (r ∷ rows) h =
      (All-take (λ x y. true) (λ s. (key s == key r) ≡ false) n rows h.0, Unique-take n rows h.1)

  none_with_key :
      (k : ℕ) (rows : List A)
      → All (λ s. (key s == k) ≡ false) rows
      → count (λ s. k == key s) rows ≡ 0
  unfolding count
  none_with_key k [] h = refl
  none_with_key k (r ∷ rows) h = ground (arith, h.0, none_with_key k rows h.1)

  one_with_key :
      (rows : List A) (r : A) → Unique key rows → In r rows → count (λ s. key r == key s) rows ≡ 1
  unfolding count
  one_with_key [] r u i = elim i [ ]
  one_with_key (s ∷ rows) r u i = elim (In-cons i) [
    | inl q ↦
        let same : key r ≡ key s = ap key q in
        let alone = none_with_key (key r) rows (All-map (λ t d. rw same d) rows u.0) in
        ground (arith, alone)
    | inr j ↦
        let differ = All-In (λ x. (key x == key s) ≡ false) u.0 j in
        ground (arith, differ, one_with_key rows r u.1 j)
  ]

  not_in_keys :
      (k : ℕ) (chosen : List A)
      → All (λ s. (key s == k) ≡ false) chosen
      → in_keys (map key chosen) k ≡ false
  unfolding in_keys
  not_in_keys k [] h = refl
  not_in_keys k (c ∷ chosen) h = ground (arith, h.0, not_in_keys k chosen h.1)

  -- As many rows have the keys of the picked ones as were picked.
  pub count-picked :
      (rows chosen : List A)
      → Unique key rows
      → Unique key chosen
      → All (λ c. In c rows) chosen
      → count (λ r. in_keys (map key chosen) (key r)) rows ≡ length chosen
  unfolding in_keys
  count-picked rows [] u v h = count_of_false (λ r. false) rows (λ r. refl)
  count-picked rows (c ∷ chosen) u v h =
      let apart : (r : A) → (key c == key r) ≡ true → in_keys (map key chosen) (key r) ≡ false =
        λ r y.
          let same : key c ≡ key r = ground arith in rw (← same) (not_in_keys (key c) chosen v.0) in
      let rest = count-picked rows chosen u v.1 h.1 in
      let one = one_with_key rows c u h.0 in
      let both =
        count-or (λ r. key c == key r) (λ r. in_keys (map key chosen) (key r)) rows apart in
      both ∙ omega (arith, rest, one)

-- Of ordered rows, the first ones: no row that is left out is before one of them.
pub take_first {ℓ} :
    {A : Type ℓ} (before : A → A → Bool) (o : IsOrder before) (n : ℕ) (rows : List A) (p r : A)
    → Sorted before rows
    → In p (take n rows)
    → In r rows
    → In r (take n rows) ⊎ (before r p ≡ false)
take_first before o zero rows p r s i j = elim i [ ]
take_first before o (suc n) [] p r s i j = elim i [ ]
take_first before o (suc n) (x ∷ rows) p r s i j = elim (In-cons i) [
  | inl q ↦ inr (rw q (Sorted-head before o x rows s j))
  | inr k ↦ elim (In-cons j) [
    | inl q ↦ inl (here q)
    | inr m ↦ elim (take_first before o n rows p r s.1 k m) [
      | inl a ↦ inl (there a)
      | inr b ↦ inr b
    ]
  ]
]

pub in_keys-In {ℓ} :
    {A : Type ℓ} (key : A → ℕ) (rows : List A) (k : ℕ)
    → in_keys (map key rows) k ≡ true
    → (p : A) × In p rows × (key p ≡ k)
unfolding in_keys
in_keys-In key [] k h = absurd (ground arith)
in_keys-In key (r ∷ rows) k h = elim (Bool-cases (key r == k)) [
  | inl y ↦ (r, here refl, ground arith)
  | inr n ↦ let (p, i, e) = in_keys-In key rows k (rw n at h) in (p, there i, e)
]

-- Rows that are not deleted stay.
pub In-delete {ℓ} :
    {A : Type ℓ} (p : A → Bool) (rows : List A) {r : A}
    → In r rows
    → p r ≡ false
    → In r (delete p rows)
unfolding delete
In-delete p [] i e = elim i [ ]
In-delete p (s ∷ rows) {r} i e = elim (In-cons i) [
  | inl q ↦ rw (rw q at e) (here q)
  | inr j ↦ elim (Bool-cases (p s)) [
    | inl y ↦ rw y (In-delete p rows j e)
    | inr n ↦ rw n (there (In-delete p rows j e))
  ]
]

pub In-of_In-delete {ℓ} :
    {A : Type ℓ} (p : A → Bool) (rows : List A) {r : A}
    → In r (delete p rows)
    → (p r ≡ false) × In r rows
unfolding delete
In-of_In-delete p [] i = elim i [ ]
In-of_In-delete p (s ∷ rows) {r} i = elim (Bool-cases (p s)) [
  | inl y ↦ let (n, j) = In-of_In-delete p rows (rw y at i) in (n, there j)
  | inr n ↦ elim (In-cons (rw n at i)) [
    | inl q ↦ (rw q n, here q)
    | inr j ↦ let (m, k) = In-of_In-delete p rows j in (m, there k)
  ]
]

pub in_keys_of_In {ℓ} :
    {A : Type ℓ} (key : A → ℕ) (rows : List A) {r : A}
    → In r rows
    → in_keys (map key rows) (key r) ≡ true
unfolding in_keys
in_keys_of_In key [] i = elim i [ ]
in_keys_of_In key (s ∷ rows) {r} i = elim (In-cons i) [
  | inl q ↦ rw q (ground arith)
  | inr j ↦ ground (arith, in_keys_of_In key rows j)
]
