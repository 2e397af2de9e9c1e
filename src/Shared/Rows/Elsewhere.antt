-- ===== src/Shared/Rows/Elsewhere.antt =====
-- A change of rows that a query does not read leaves what it reads as it was.
use mathlib.Core.Path.{◌≡◌, refl}
use mathlib.Core.Logic.{inl, inr}
use mathlib.Core.Bool.{Bool, true, false}
use mathlib.Core.Option.{some}
use mathlib.Core.List.{List, [], ◌∷◌}
use signalscope.Shared.Tests.{Bool-cases}
use signalscope.Shared.Lists.{All}
use signalscope.Shared.Rows.{select, find, update, delete}

module _ {ℓ} {A : Type ℓ} (p q : A → Bool) where
  pub find-delete_elsewhere :
      (rows : List A)
      → All (λ r. p r ≡ true → q r ≡ false) rows
      → find q (delete p rows) ≡ find q rows
  unfolding find delete
  find-delete_elsewhere [] h = refl
  find-delete_elsewhere (r ∷ rows) h = elim (Bool-cases (p r)) [
    | inl e ↦ rw (e, h.0 e, find-delete_elsewhere rows h.1)
    | inr e ↦ rw (e, find-delete_elsewhere rows h.1)
  ]

  pub find-update_elsewhere :
      (f : A → A) (rows : List A)
      → ((r : A) → p r ≡ true → (q r ≡ false) × (q (f r) ≡ false))
      → find q (update p f rows) ≡ find q rows
  unfolding find update
  find-update_elsewhere f [] h = refl
  find-update_elsewhere f (r ∷ rows) h = elim (Bool-cases (p r)) [
    | inl e ↦ rw (e, (h r e).0, (h r e).1, find-update_elsewhere f rows h)
    | inr e ↦ rw (e, find-update_elsewhere f rows h)
  ]

  pub select-delete_elsewhere :
      (rows : List A)
      → All (λ r. p r ≡ true → q r ≡ false) rows
      → select q (delete p rows) ≡ select q rows
  unfolding select delete
  select-delete_elsewhere [] h = refl
  select-delete_elsewhere (r ∷ rows) h = elim (Bool-cases (p r)) [
    | inl e ↦ rw (e, h.0 e, select-delete_elsewhere rows h.1)
    | inr e ↦ rw (e, select-delete_elsewhere rows h.1)
  ]

-- The row that is found after all rows with its key were set to one that has it too.
pub find-update_to {ℓ} :
    {A : Type ℓ} (p : A → Bool) (new : A) (rows : List A) (r : A)
    → find p rows ≡ some r
    → p new ≡ true
    → find p (update p (λ _. new) rows) ≡ some new
unfolding find update
find-update_to p new [] r e y = cc
find-update_to p new (s ∷ rows) r e y = elim (Bool-cases (p s)) [
  | inl h ↦ rw (h, y) refl
  | inr h ↦ rw (h, h) (find-update_to p new rows r (rw h at e) y)
]
