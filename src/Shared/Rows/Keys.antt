-- ===== src/Shared/Rows/Keys.antt =====
-- Tables in which no two rows have one key.
use Prim.Native.Nat.{ℕ}
use mathlib.Core.Path.{◌≡◌}
use mathlib.Core.Logic.{inl, inr}
use mathlib.Core.Bool.{Bool, true, false}
use mathlib.Core.Option.{none, some}
use mathlib.Core.List.{List, [], ◌∷◌}
use native.Mathlib.Omega.{arith}
use signalscope.Shared.Tests.{◌==◌, Bool-cases}
use signalscope.Shared.Lists.{All, All-map, In}
use signalscope.Shared.Rows.{find, update, delete}
use signalscope.Shared.Rows.Laws.{Unique, All-delete, All-update, All-In, In-cons, find-none}

module _ {ℓ} {A : Type ℓ} (key : A → ℕ) where
  -- A row is found by its key.
  pub find-Unique :
      (rows : List A) (r : A)
      → Unique key rows
      → In r rows
      → find (λ x. key x == key r) rows ≡ some r
  unfolding find
  find-Unique [] r u i = elim i [ ]
  find-Unique (s ∷ rows) r u i = elim (In-cons i) [
    | inl q ↦ rw q (ground arith)
    | inr j ↦
        let differ = All-In (λ x. (key x == key s) ≡ false) u.0 j in
        let apart : (key s == key r) ≡ false = ground arith in rw apart (find-Unique rows r u.1 j)
  ]

  pub Unique-delete : (p : A → Bool) (rows : List A) → Unique key rows → Unique key (delete p rows)
  unfolding delete
  Unique-delete p [] h = tt
  Unique-delete p (r ∷ rows) h = elim (Bool-cases (p r)) [
    | inl e ↦ rw e (Unique-delete p rows h.1)
    | inr e ↦ rw e (All-delete (λ s. (key s == key r) ≡ false) p rows h.0, Unique-delete p rows h.1)
  ]

  -- Rows that are changed keep their keys.
  pub Unique-update :
      (p : A → Bool) (f : A → A) (rows : List A)
      → ((r : A) → p r ≡ true → key (f r) ≡ key r)
      → Unique key rows
      → Unique key (update p f rows)
  unfolding update
  Unique-update p f [] keeps h = tt
  Unique-update p f (r ∷ rows) keeps h = elim (Bool-cases (p r)) [
    | inr e ↦ rw e (
      All-update {P = λ s. (key s == key r) ≡ false} p f rows (λ s d y. rw (keeps s y) d)
          (λ s d y. d) h.0,
      Unique-update p f rows keeps h.1,
    )
    | inl e ↦
        rw (e, keeps r e)
          (
            All-update {P = λ s. (key s == key r) ≡ false} p f rows (λ s d y. rw (keeps s y) d)
                (λ s d y. d) h.0,
            Unique-update p f rows keeps h.1,
          )
  ]

  pub Unique-cons :
      (r : A) (rows : List A)
      → find (λ x. key x == key r) rows ≡ none
      → Unique key rows
      → Unique key (r ∷ rows)
  Unique-cons r rows free h = (find-none (λ x. key x == key r) rows free, h)

  -- A row with the key of a found one has what the found one has.
  pub with_found_key :
      (P : A → Type 0) (k : ℕ) (rows : List A) (r : A)
      → Unique key rows
      → find (λ s. key s == k) rows ≡ some r
      → P r
      → All (λ s. (key s == k) ≡ true → P s) rows
  unfolding find
  with_found_key P k [] r u e h = tt
  with_found_key P k (s ∷ rows) r u e h = elim (Bool-cases (key s == k)) [
    | inr n ↦ ((λ y. absurd (ground arith)), with_found_key P k rows r u.1 (rw n at e) h)
    | inl y ↦
        let same : s ≡ r = ground arith in
        ((λ _. rw same h), All-map (λ t d z. absurd (ground arith)) rows u.0)
  ]
