-- ===== src/Shared/Rows/Kept.antt =====
-- Rows with a key of which there is one at most, and guards that keep a row of a kind.
use Prim.Native.Nat.{◌≤◌}
use mathlib.Core.Path.{◌≡◌, refl}
use mathlib.Core.Logic.{inl, inr}
use mathlib.Core.Bool.{Bool, true, false, ◌&&◌}
use mathlib.Core.Option.{some}
use mathlib.Core.List.{List, [], ◌∷◌}
use native.Mathlib.Omega.{arith}
use signalscope.Shared.Tests.{Bool-cases}
use signalscope.Shared.Lists.{All, All-map}
use signalscope.Shared.Results.{is_some}
use signalscope.Shared.Rows.{find, update, delete, count}
use signalscope.Shared.Rows.Laws.{find_absent, tested}
use signalscope.Shared.Rows.Counts.{
  count-zero, count-le-update, count-update_mono, count-le-delete, count-delete_same,
}

module _ {A : Type 0} (p q : A → Bool) where
  -- The row that was found is the only one with its key.
  pub found_unique :
      (rows : List A) {r : A}
      → count p rows ≤ 1
      → find p rows ≡ some r
      → All (λ s. p s ≡ true → s ≡ r) rows
  unfolding count find
  found_unique [] c e = tt
  found_unique (s ∷ rows) {r} c e = elim (Bool-cases (p s)) [
    | inr m ↦ ((λ y. absurd (ground arith)), found_unique rows (ground arith) (ground arith))
    | inl y ↦ (
      (λ _. ground arith),
      All-map (λ t absent y. absurd (ground arith)) rows (count-zero p rows (ground arith)),
    )
  ]

  -- To look for a row with a key and a test is to look for the key and then test.
  pub find-key-and :
      (rows : List A)
      → count p rows ≤ 1
      → is_some (find (λ s. p s && q s) rows) ≡ tested q (find p rows)
  unfolding count find
  find-key-and [] c = refl
  find-key-and (s ∷ rows) c = elim (Bool-cases (p s)) [
    | inr m ↦ rw m (find-key-and rows (rw m at c))
    | inl y ↦ elim (Bool-cases (q s)) [
      | inl z ↦ rw (y, z) refl
      | inr z ↦
          let alone = count-zero p rows (ground arith) in
          rw (y, z)
            (rw
              (find_absent (λ t. p t && q t) rows (All-map (λ t absent. rw absent refl) rows alone))
              refl)
    ]
  ]

  module _ (rows : List A) {r : A} (one : count p rows ≤ 1) (found : find p rows ≡ some r)
      (some_left : 1 ≤ count q rows) where
    -- An update that takes the last row of a kind away is guarded by there being two.
    pub kept-update :
        (f : A → A)
        → (q r ≡ true → q (f r) ≡ false → 2 ≤ count q rows)
        → 1 ≤ count q (update p f rows)
    kept-update f guard =
        let only = found_unique rows one found in
        elim (Bool-cases (q r)) [
          | inr n ↦ omega (
            arith,
            some_left,
            count-update_mono p q f rows
                (All-map (λ s u y z. absurd (ground (arith, rw (u y) at z, n))) rows only),
          )
          | inl y ↦ elim (Bool-cases (q (f r))) [
            | inl z ↦ omega (
              arith,
              some_left,
              count-update_mono p q f rows (All-map (λ s u k _. rw (u k) z) rows only),
            )
            | inr n ↦ omega (arith, guard y n, count-le-update p q f rows, one)
          ]
        ]

    pub kept-delete : (q r ≡ true → 2 ≤ count q rows) → 1 ≤ count q (delete p rows)
    kept-delete guard =
        let only = found_unique rows one found in
        elim (Bool-cases (q r)) [
          | inr n ↦ omega (
            arith,
            some_left,
            count-delete_same p q rows (All-map (λ s u y. rw (u y) n) rows only),
          )
          | inl y ↦ omega (arith, guard y, count-le-delete p q rows, one)
        ]
