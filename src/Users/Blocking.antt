-- ===== src/Users/Blocking.antt =====
-- Failed sign ins one after another (domain/users/login_throttle.py).
use signalscope.Shared.{
  ℕ, suc, ◌+◌, ◌≤◌, ◌<◌, ◌≡◌, refl, inl, inr, false, Option, none, some, List, [], ◌∷◌, arith, leb,
  if◌then◌else◌, Bool-cases, Option-cases, All, length,
}
use signalscope.Shared.Text.{Text, text_eq, text_eq_refl, text_eq→eq}
use signalscope.Shared.Rows.{find, update, delete}
use signalscope.Shared.Rows.Laws.{find-update, find-In}
use signalscope.Users.Throttle.{
  Throttle, ThrottlePolicy, has_identifier, is_blocked, is_over, next_count, reset_block,
  next_block, first_failure, next_failure, record_failure, clear,
}

module _ (policy : ThrottlePolicy) where
  -- One failure, as a change of the identifier's row.
  abbrev pub after_failure : Text → ℕ → Option Throttle → Throttle
  after_failure identifier now none = first_failure policy identifier now
  after_failure identifier now (some t) = next_failure policy now t

  pub find-record_failure :
      (identifier : Text) (now : ℕ) (rows : List Throttle)
      → find (has_identifier identifier) (record_failure policy identifier now rows)
        ≡ some (after_failure identifier now (find (has_identifier identifier) rows))
  unfolding record_failure
  find-record_failure identifier now rows =
      elim (Option-cases (find (has_identifier identifier) rows)) [
        | inl e ↦
            rw (record_failure, e) (unfold find first_failure in rw (text_eq_refl identifier) refl)
        | inr (t, e) ↦
            let (fits, _) = find-In (has_identifier identifier) rows e in
            rw
              (
                record_failure,
                e,
                find-update (has_identifier identifier) (has_identifier identifier)
                    (next_failure policy now) (λ r. unfold next_failure in refl) rows e,
                fits,
              )
              refl
      ]

  -- Failures one after another, the oldest first.
  unfoldable pub record_failures : Text → List ℕ → List Throttle → List Throttle
  record_failures identifier [] rows = rows
  record_failures identifier (now ∷ times) rows =
      record_failures identifier times (record_failure policy identifier now rows)

  abbrev pub last_of : ℕ → List ℕ → ℕ
  last_of t [] = t
  last_of t (u ∷ times) = last_of u times

  -- A row whose window began at `start`, with `n` failures of which the last was at `last`.
  abbrev Counted : ℕ → ℕ → ℕ → Throttle → Type 0
  Counted start n last t =
      (t.failure_count ≡ n)
      × (t.window_started_at ≡ start)
      × (t.blocked_until ≡ (if leb policy.max_failures n then some (last + policy.block) else none))

  next_failure-Counted :
      (start n last now : ℕ) (t : Throttle)
      → now < start + policy.window
      → Counted start n last t
      → Counted start (suc n) now (next_failure policy now t)
  unfolding next_failure next_block next_count is_over
  next_failure-Counted start n last now t inside (count, window, block) = ground arith

  first_failure-Counted :
      (identifier : Text) (now : ℕ)
      → 1 ≤ policy.max_failures
      → Counted now 1 now (first_failure policy identifier now)
  unfolding first_failure reset_block
  first_failure-Counted identifier now some_limit = (refl, refl, ground arith)

  record_failures-Counted :
      (identifier : Text) (start n last : ℕ) (times : List ℕ) (rows : List Throttle) (t : Throttle)
      → All (λ now. now < start + policy.window) times
      → find (has_identifier identifier) rows ≡ some t
      → Counted start n last t
      → (u : Throttle) × (find (has_identifier identifier) (record_failures identifier times rows)
          ≡ some u)
        × Counted start (length times + n) (last_of last times) u
  unfolding record_failures
  record_failures-Counted identifier start n last [] rows t inside e c =
      let same : n ≡ 0 + n = omega arith in (t, e, rw (← same) c)
  record_failures-Counted identifier start n last (now ∷ times) rows t inside e c =
      let (u, found, k) =
        record_failures-Counted identifier start (suc n) now times
          (record_failure policy identifier now rows) (next_failure policy now t) inside.1
          (rw (find-record_failure identifier now rows, e) refl)
          (next_failure-Counted start n last now t inside.0 c) in
      let same : length times + suc n ≡ suc (length times) + n = omega arith in
      (u, found, rw (← same) k)

  module _ (some_limit : 1 ≤ policy.max_failures) where
    -- For a limit of at least 1 and an identifier without a row: from its first failure on, and until the block would be over, an identifier whose
    -- failures all fall into the window is blocked exactly if they are as many as the limit says.
    pub blocked_iff_enough :
        (identifier : Text) (start : ℕ) (times : List ℕ) (now : ℕ) (rows : List Throttle)
        → find (has_identifier identifier) rows ≡ none
        → All (λ t. t < start + policy.window) times
        → now < last_of start times + policy.block
        → is_blocked identifier now (record_failures identifier (start ∷ times) rows)
          ≡ leb policy.max_failures (length times + 1)
    unfolding is_blocked record_failures
    blocked_iff_enough identifier start times now rows absent inside soon =
        let (u, found, (_, _, block)) =
          record_failures-Counted identifier start 1 start times
            (record_failure policy identifier start rows) (first_failure policy identifier start)
            inside (rw (find-record_failure identifier start rows, absent) refl)
            (first_failure-Counted identifier start some_limit) in
        rw found (simp block (ground arith))

-- Every identifier but the one that an operation names is as blocked as it was.
find-other :
    (identifier other : Text) (f : Throttle → Throttle) (rows : List Throttle)
    → ((t : Throttle) → (f t).identifier ≡ t.identifier)
    → text_eq identifier other ≡ false
    → find (has_identifier other) (update (has_identifier identifier) f rows)
      ≡ find (has_identifier other) rows
unfolding find update
find-other identifier other f [] keeps n = refl
find-other identifier other f (t ∷ rows) keeps n =
    elim (Bool-cases (text_eq t.identifier identifier)) [
      | inr m ↦ rw m (ground (arith, find-other identifier other f rows keeps n))
      | inl y ↦
          let same : t.identifier ≡ identifier = text_eq→eq t.identifier identifier y in
          simp (keeps t, same, text_eq_refl identifier, n)
            (find-other identifier other f rows keeps n)
    ]

find-delete_other :
    (identifier other : Text) (rows : List Throttle)
    → text_eq identifier other ≡ false
    → find (has_identifier other) (delete (has_identifier identifier) rows)
      ≡ find (has_identifier other) rows
unfolding find delete
find-delete_other identifier other [] n = refl
find-delete_other identifier other (t ∷ rows) n =
    elim (Bool-cases (text_eq t.identifier identifier)) [
      | inr m ↦ rw m (ground (arith, find-delete_other identifier other rows n))
      | inl y ↦
          let same : t.identifier ≡ identifier = text_eq→eq t.identifier identifier y in
          simp (same, text_eq_refl identifier, n) (find-delete_other identifier other rows n)
    ]

find-delete_same :
    (identifier : Text) (rows : List Throttle)
    → find (has_identifier identifier) (delete (has_identifier identifier) rows) ≡ none
unfolding find delete
find-delete_same identifier [] = refl
find-delete_same identifier (t ∷ rows) = ground (arith, find-delete_same identifier rows)

-- A failure of one identifier, or its being cleared, leaves every other identifier as blocked as it
-- was, and a cleared identifier is not blocked, whatever happened before.
throttle_is_per_identifier :
    (policy : ThrottlePolicy) (identifier : Text) (at now : ℕ) (rows : List Throttle)
    → ((other : Text)
        → text_eq identifier other ≡ false
        → (is_blocked other now (record_failure policy identifier at rows)
            ≡ is_blocked other now rows)
          × (is_blocked other now (clear identifier rows) ≡ is_blocked other now rows))
      × (is_blocked identifier now (clear identifier rows) ≡ false)
unfolding is_blocked clear record_failure
throttle_is_per_identifier policy identifier at now rows = (
  (λ other n. (failure other n, rw (find-delete_other identifier other rows n) refl)),
  rw (find-delete_same identifier rows) refl,
)
  where
    failure :
        (other : Text)
        → text_eq identifier other ≡ false
        → is_blocked other now (record_failure policy identifier at rows)
          ≡ is_blocked other now rows
    failure other n = elim (Option-cases (find (has_identifier identifier) rows)) [
      | inl e ↦ rw (record_failure, e) (unfold find first_failure in rw n refl)
      | inr (t, e) ↦
          rw (record_failure, e)
            (rw
              (find-other identifier other (next_failure policy at) rows
                (λ u. unfold next_failure in refl) n)
              refl)
    ]
