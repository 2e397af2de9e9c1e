-- ===== src/Restore/Mapped.antt =====
-- The mapping of users that a restore goes by (domain/organizations/restore_user_mapping.py, resolve).
use signalscope.Shared.{
  ℕ, ◌≡◌, refl, inl, inr, true, Option, List, [], ◌∷◌, ◌==◌, arith, All, In, here, there, ok,
  Bool-cases, Option-cases,
}
use signalscope.Shared.Text.{Text}
use signalscope.Shared.Rows.{find}
use signalscope.Shared.Rows.Laws.{Unique, find-none}
use signalscope.Organizations.Model.{User}
use signalscope.Restore.Users.{
  Archive, is_active_user, user_with_id, referenced_user_ids, target_of, resolve_each, resolve,
}

module _ (users : List User) (mappings : ℕ → Option ℕ) where
  -- A pair goes to an active user, the one that was asked for or the same one.
  abbrev pub IsResolved : ℕ × ℕ → Type 0
  IsResolved (i, t) =
      (t ≡ target_of mappings i) × (is_active_user (find (user_with_id t) users) ≡ true)

  -- No two pairs go to one user, and all go to active ones.
  abbrev pub IsSound : List (ℕ × ℕ) → Type 0
  IsSound resolved = All IsResolved resolved × Unique (λ (p : ℕ × ℕ). p.1) resolved

  resolve_each-IsSound :
      (ids : List ℕ) (resolved : List (ℕ × ℕ)) {m : List (ℕ × ℕ)}
      → resolve_each users mappings ids resolved ≡ ok m
      → IsSound resolved
      → IsSound m
        × ((p : ℕ × ℕ) → In p resolved → In p m)
        × All (λ i. In (i, target_of mappings i) m) ids
  unfolding resolve_each
  resolve_each-IsSound [] resolved {m} h sound =
      let same : resolved ≡ m = ground arith in rw (← same) (sound, (λ p i. i), tt)
  resolve_each-IsSound (i ∷ ids) resolved {m} h (each, distinct) =
      let t = target_of mappings i in
      elim (Option-cases (find (λ (p : ℕ × ℕ). p.1 == t) resolved)) [
        | inr (p, e) ↦ absurd (ground (arith, rw e at h))
        | inl e ↦ elim (Bool-cases (is_active_user (find (user_with_id t) users))) [
          | inr n ↦ absurd (ground (arith, rw (e, n) at h))
          | inl y ↦
              let (sound, kept, all) =
                resolve_each-IsSound ids ((i, t) ∷ resolved) (rw (e, y) at h)
                  (((refl, y), each), (find-none (λ (p : ℕ × ℕ). p.1 == t) resolved e, distinct)) in
              (sound, (λ p j. kept p (there j)), (kept (i, t) (here refl), all))
        ]
      ]

  -- If the users of an archive are resolved: each user that the archive refers to is mapped, to the
  -- user that was asked for or else to the one with the same ID, always to an active user, and no two
  -- are mapped to one.
  pub resolve-IsSound :
      (uuid_of : Text → Option ℕ) (archive : Archive) {ids : List ℕ} {m : List (ℕ × ℕ)}
      → referenced_user_ids uuid_of archive ≡ ok ids
      → resolve uuid_of users mappings archive ≡ ok m
      → IsSound m × All (λ i. In (i, target_of mappings i) m) ids
  unfolding resolve
  resolve-IsSound uuid_of archive {ids} {m} e h =
      let (sound, kept, all) = resolve_each-IsSound ids [] (rw e at h) (tt, tt) in (sound, all)
