-- ===== src/Shared/Rows/Order.antt =====
-- ORDER BY.
use mathlib.Core.Path.{◌≡◌, refl}
use mathlib.Core.Logic.{◌⊎◌, inl, inr}
use mathlib.Core.Bool.{Bool, true, false}
use mathlib.Core.List.{List, [], ◌∷◌}
use Prim.Native.Nat.{ℕ, zero, suc}
use native.Mathlib.Omega.{arith}
use signalscope.Shared.Tests.{Bool-cases}
use signalscope.Shared.Lists.{All, In, here, there, take, All-map, length}
use signalscope.Shared.Rows.{insert_by, order_by}
use signalscope.Shared.Rows.Laws.{In-cons, All-In}

-- A comparison that can sort: of two rows at most one comes first, and what is not before one
-- row is not before the rows that follow it.
pub record IsOrder {ℓ} {A : Type ℓ} (before : A → A → Bool) : Type ℓ where
  pub asymmetric : (a b : A) → before a b ≡ true → before b a ≡ false
  pub not_before_trans : (a b c : A) → before b a ≡ false → before c b ≡ false → before c a ≡ false

-- No row stands behind one that it is before.
abbrev pub Sorted {ℓ} : {A : Type ℓ} → (A → A → Bool) → List A → Type 0
Sorted before [] = Unit
Sorted before (x ∷ xs) = All (λ y. before y x ≡ false) xs × Sorted before xs

module _ {ℓ} {A : Type ℓ} (before : A → A → Bool) where
  module _ {κ} (P : A → Type κ) where
    pub All-insert_by : (r : A) (rows : List A) → P r → All P rows → All P (insert_by before r rows)
    unfolding insert_by
    All-insert_by r [] p h = (p, tt)
    All-insert_by r (s ∷ rows) p h = elim (Bool-cases (before r s)) [
      | inl e ↦ rw e (p, h)
      | inr e ↦ rw e (h.0, All-insert_by r rows p h.1)
    ]

    pub All-order_by : (rows : List A) → All P rows → All P (order_by before rows)
    unfolding order_by
    All-order_by [] h = tt
    All-order_by (r ∷ rows) h = All-insert_by r (order_by before rows) h.0 (All-order_by rows h.1)

    pub All-take : (n : ℕ) (rows : List A) → All P rows → All P (take n rows)
    All-take zero rows h = tt
    All-take (suc n) [] h = tt
    All-take (suc n) (r ∷ rows) h = (h.0, All-take n rows h.1)

  In-insert_by_self : (r : A) (rows : List A) → In r (insert_by before r rows)
  unfolding insert_by
  In-insert_by_self r [] = here refl
  In-insert_by_self r (s ∷ rows) = elim (Bool-cases (before r s)) [
    | inl e ↦ rw e (here refl)
    | inr e ↦ rw e (there (In-insert_by_self r rows))
  ]

  In-insert_by : (r : A) (rows : List A) {a : A} → In a rows → In a (insert_by before r rows)
  unfolding insert_by
  In-insert_by r [] i = elim i [ ]
  In-insert_by r (s ∷ rows) {a} i = elim (Bool-cases (before r s)) [
    | inl e ↦ rw e (there i)
    | inr e ↦ rw e (elim (In-cons i) [ inl q ↦ here q | inr j ↦ there (In-insert_by r rows j) ])
  ]

  pub In-order_by : (rows : List A) {a : A} → In a rows → In a (order_by before rows)
  unfolding order_by
  In-order_by [] i = elim i [ ]
  In-order_by (r ∷ rows) {a} i = elim (In-cons i) [
    | inl q ↦ rw q (In-insert_by_self r (order_by before rows))
    | inr j ↦ In-insert_by r (order_by before rows) (In-order_by rows j)
  ]

  In-of_In-insert_by :
      (r : A) (rows : List A) {a : A} → In a (insert_by before r rows) → (a ≡ r) ⊎ In a rows
  unfolding insert_by
  In-of_In-insert_by r [] i = In-cons i
  In-of_In-insert_by r (s ∷ rows) {a} i = elim (Bool-cases (before r s)) [
    | inl e ↦ In-cons (rw e at i)
    | inr e ↦ elim (In-cons (rw e at i)) [
      | inl q ↦ inr (here q)
      | inr j ↦ elim (In-of_In-insert_by r rows j) [ inl q ↦ inl q | inr k ↦ inr (there k) ]
    ]
  ]

  pub In-of_In-order_by : (rows : List A) {a : A} → In a (order_by before rows) → In a rows
  unfolding order_by
  In-of_In-order_by [] i = elim i [ ]
  In-of_In-order_by (r ∷ rows) {a} i = elim (In-of_In-insert_by r (order_by before rows) i) [
    | inl q ↦ here q
    | inr j ↦ there (In-of_In-order_by rows j)
  ]

  length-insert_by : (r : A) (rows : List A) → length (insert_by before r rows) ≡ suc (length rows)
  unfolding insert_by
  length-insert_by r [] = refl
  length-insert_by r (s ∷ rows) = elim (Bool-cases (before r s)) [
    | inl e ↦ rw e
    | inr e ↦ rw (e, length-insert_by r rows)
  ]

  pub length-order_by : (rows : List A) → length (order_by before rows) ≡ length rows
  unfolding order_by
  length-order_by [] = refl
  length-order_by (r ∷ rows) =
      omega (arith, length-insert_by r (order_by before rows), length-order_by rows)

pub In-of_In-take {ℓ} :
    {A : Type ℓ} (n : ℕ) (rows : List A) {a : A} → In a (take n rows) → In a rows
In-of_In-take zero rows i = elim i [ ]
In-of_In-take (suc n) [] i = elim i [ ]
In-of_In-take (suc n) (r ∷ rows) i = elim (In-cons i) [
  | inl q ↦ here q
  | inr j ↦ there (In-of_In-take n rows j)
]

module _ {ℓ} {A : Type ℓ} (before : A → A → Bool) (o : IsOrder before) where
  insert_by-Sorted :
      (r : A) (rows : List A) → Sorted before rows → Sorted before (insert_by before r rows)
  unfolding insert_by
  insert_by-Sorted r [] h = (tt, tt)
  insert_by-Sorted r (s ∷ rows) h = elim (Bool-cases (before r s)) [
    | inl e ↦ rw e (
      (
        o.asymmetric r s e,
        All-map (λ y n. o.not_before_trans r s y (o.asymmetric r s e) n) rows h.0,
      ),
      h,
    )
    | inr e ↦
        rw e
          (All-insert_by before (λ y. before y s ≡ false) r rows e h.0, insert_by-Sorted r rows h.1)
  ]

  pub order_by-Sorted : (rows : List A) → Sorted before (order_by before rows)
  unfolding order_by
  order_by-Sorted [] = tt
  order_by-Sorted (r ∷ rows) = insert_by-Sorted r (order_by before rows) (order_by-Sorted rows)

  -- The first row of an ordered list: none of the list is before it.
  pub Sorted-head :
      (r : A) (rows : List A) {a : A}
      → Sorted before (r ∷ rows)
      → In a (r ∷ rows)
      → before a r ≡ false
  Sorted-head r rows {a} h i = elim (In-cons i) [
    | inl q ↦ rw q (irreflexive r)
    | inr j ↦ All-In (λ y. before y r ≡ false) h.0 j
  ]
    where
      irreflexive : (x : A) → before x x ≡ false
      irreflexive x = elim (Bool-cases (before x x)) [ inl e ↦ o.asymmetric x x e | inr e ↦ e ]
