-- ===== src/Retention/Emptied.antt =====
-- The preview of a clean up, and clean ups in a row (domain/retention/service.py).
use signalscope.Shared.{
  ℕ, ◌*◌, ◌≤◌, ◌≡◌, ◌∙◌, refl, ap, inl, inr, Bool, false, Option, none, some, List, [], ◌∷◌, ◌==◌,
  arith, min, All, ok, err, length, Result-cases,
}
use signalscope.Shared.Rows.{find, delete, count}
use signalscope.Shared.Rows.Laws.{find-none, find_absent, All-delete}
use signalscope.Shared.Rows.Keys.{Unique-delete}
use signalscope.Organizations.Model.{User}
use signalscope.Retention.Service.{
  RetentionTables, SecurityAuditEvent, AuditCleanupResult, AuditRetentionPreview, check_view,
  check_change, get_policy_row, days_of, cutoff_at, is_eligible, oldest, is_picked, record_row,
  preview, cleanup, preview_days,
}
use signalscope.Retention.Laws.{HasIds, cleaned, cleanup_exact}

-- Where the IDs of events are unique: a clean up deletes what a preview at the same time counted, up to
-- the limit, and both go by the same policy and the same cutoff.
pub preview_is_deleted :
    (viewer actor : Option User) (new_id now o limit : ℕ) (db : RetentionTables)
    {v : AuditRetentionPreview} {a : AuditCleanupResult × RetentionTables}
    → HasIds db.events
    → preview viewer now o db ≡ ok v
    → cleanup actor new_id now o limit db ≡ ok a
    → (v.retention_days ≡ some a.0.retention_days)
      × (v.cutoff ≡ some a.0.cutoff)
      × (a.0.deleted_count ≡ min limit v.eligible_count)
unfolding preview
preview_is_deleted viewer actor new_id now o limit db {v} {a} ids h k =
    let (positive, may, days, set, q) = cleaned actor new_id now o limit db k in
    let exact = (cleanup_exact actor new_id now o limit db ids k).0 in
    elim (Result-cases (check_view viewer o db)) [
      | inr (x, e) ↦ absurd (ground arith)
      | inl (t, e) ↦
          let shown : preview_days now o (some days) db.events ≡ v =
            ground (arith, rw (set, e) at h) in
          let same : a.0.retention_days ≡ days =
            ap (λ (x : AuditCleanupResult × RetentionTables). x.0.retention_days) q in
          let when : a.0.cutoff ≡ cutoff_at now days =
            ap (λ (x : AuditCleanupResult × RetentionTables). x.0.cutoff) q in
          rw (← shown) (rw same refl, rw when refl, rw when at exact)
    ]

-- Clean ups in a row at one time, until one is refused
unfoldable pub run_cleanups : Option User → ℕ → ℕ → ℕ → List ℕ → RetentionTables → RetentionTables
run_cleanups actor now o limit [] db = db
run_cleanups actor now o limit (i ∷ ids) db = elim (cleanup actor i now o limit db) [
  | ok (result, db') ↦ run_cleanups actor now o limit ids db'
  | err e ↦ db
]

-- IDs that are new to the table, and different
abbrev pub AreFresh : List ℕ → List SecurityAuditEvent → Type 0
AreFresh [] events = Unit
AreFresh (i ∷ ids) events =
    (find (λ (r : SecurityAuditEvent). r.id == i) events ≡ none)
    × All (λ j. (i == j) ≡ false) ids
    × AreFresh ids events

module _ (actor : Option User) (now o limit d : ℕ) (positive : 1 ≤ limit) where
  -- The actor may clean up, and the organization has a policy.
  abbrev MayClean : RetentionTables → Type 0
  MayClean db = (check_change actor o db ≡ ok tt) × (days_of (get_policy_row o db) ≡ some d)

  cleans :
      (i : ℕ) (db : RetentionTables)
      → MayClean db
      → (a : AuditCleanupResult × RetentionTables) × (cleanup actor i now o limit db ≡ ok a)
        × (a.0.cutoff ≡ cutoff_at now d)
  unfolding cleanup
  cleans i db (may, set) = elim (Result-cases (cleanup actor i now o limit db)) [
    | inr (x, e) ↦ absurd (ground arith)
    | inl (a, e) ↦
        let (pos, m, days, also, q) = cleaned actor i now o limit db e in
        let same : days ≡ d = ground (arith, rw set at also) in
        (
          a,
          e,
          ap (λ (x : AuditCleanupResult × RetentionTables). x.0.cutoff) q ∙ ap (cutoff_at now) same,
        )
  ]

  fresh_after :
      (i : ℕ) (ids : List ℕ) (gone : SecurityAuditEvent → Bool) (events : List SecurityAuditEvent)
      (new : SecurityAuditEvent)
      → new.id ≡ i
      → All (λ j. (i == j) ≡ false) ids
      → AreFresh ids events
      → AreFresh ids (new ∷ delete gone events)
  unfolding find
  fresh_after i [] gone events new is apart fresh = tt
  fresh_after i (j ∷ ids) gone events new is (n, apart) (free, others, fresh) =
      let same =
        find_absent (λ (r : SecurityAuditEvent). r.id == j) (delete gone events)
          (All-delete (λ r. (r.id == j) ≡ false) gone events
            (find-none (λ (r : SecurityAuditEvent). r.id == j) events free)) in
      (rw is (rw (n, same) refl), others, fresh_after i ids gone events new is apart fresh)

  -- With a positive limit, unique IDs of events and fresh ones for those that are recorded, an actor who
  -- may clean up, and a policy: clean ups in a row at one time, with so many events in all as are
  -- eligible, leave no eligible event.
  pub cleanups_finish :
      (ids : List ℕ) (db : RetentionTables)
      → MayClean db
      → HasIds db.events
      → AreFresh ids db.events
      → count (is_eligible o (cutoff_at now d)) db.events ≤ length ids * limit
      → count (is_eligible o (cutoff_at now d)) (run_cleanups actor now o limit ids db).events ≡ 0
  unfolding run_cleanups
  cleanups_finish [] db may keys fresh enough = omega (arith, enough)
  cleanups_finish (i ∷ ids) db may keys (free, apart, fresh) enough =
      let (a, returned, when) = cleans i db may in
      let (deleted, left, others, order) = cleanup_exact actor i now o limit db keys returned in
      let (pos, m, days, set, q) = cleaned actor i now o limit db returned in
      let gone = is_picked (oldest o (cutoff_at now days) limit db.events) in
      rw (run_cleanups, returned)
        (cleanups_finish ids a.1 (rw q (unfold check_change check_view get_policy_row in may))
          (rw q (
            unfold record_row in
            (
              All-delete (λ r. (r.id == i) ≡ false) gone db.events
                  (find-none (λ (r : SecurityAuditEvent). r.id == i) db.events free),
              Unique-delete (λ r. r.id) gone db.events keys,
            )))
          (rw q (unfold record_row in fresh_after i ids gone db.events _ refl apart fresh))
          (omega (arith, rw when at left, rw when at deleted, enough)))
