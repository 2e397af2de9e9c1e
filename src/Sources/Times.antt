-- ===== src/Sources/Times.antt =====
-- The times at which a source is ingested, and the columns of its schedule (domain/sources/scheduling.py).
use signalscope.Shared.{
  ℕ, ◌+◌, ◌-◌, ◌*◌, ◌/◌, ◌%◌, ◌≤◌, ◌<◌, ◌≡◌, refl, inl, inr, Bool, true, false, not, Option, none,
  some, List, arith, dec_le, ltb, Result, ok, Bool-cases, Option-cases, All, All-zip, is_some,
}
use native.Mathlib.Nat.{div-add-mod', mod-lt, mul-le-mul_right}
use signalscope.Shared.Rows.{find, update, count}
use signalscope.Shared.Rows.Counts.{found_speaks}
use signalscope.Shared.Rows.Laws.{All-update}
use signalscope.Core.Leases.{Time}
use signalscope.Sources.Scheduling.{
  ScheduledSource, ScheduleError, is_schedulable, check_interval_minutes, minutes_long, missed,
  next_ingestion_time, advance_by, advance_schedule, has_id, start_or_now, enabled, disabled,
  enable, disable, max_ingestion_interval_minutes,
}

-- A multiple of `d` that passes `x`, of which `m` is the whole quotient, is of more than `m`.
quotient-lt : (m k d r x : ℕ) → m * d + r ≡ x → r < d → x < k * d → m + 1 ≤ k
quotient-lt m k d r x e a b = elim (dec_le (m + 1) k) [
  | yes p ↦ p
  | no p ↦ absurd (omega (arith, mul-le-mul_right d (let low : k ≤ m = omega arith in low)))
]

missed-first :
    (scheduled_at d now : ℕ)
    → 1 ≤ d
    → let m = missed scheduled_at d now in
      (now < scheduled_at + (m + 1) * d)
      × ((n : ℕ) → 1 ≤ n → now < scheduled_at + n * d → m + 1 ≤ n)
unfolding missed
missed-first scheduled_at d now pos = elim (Bool-cases (ltb now scheduled_at)) [
  | inl y ↦ rw y (ground arith, λ n a b. omega arith)
  | inr n ↦
      let x = now - scheduled_at in
      let late : scheduled_at ≤ now = ground arith in
      let e : x / d * d + x % d ≡ x = div-add-mod' x d in
      let r : x % d < d = mod-lt x pos in
      rw n (omega (arith, e, r), λ k a b. quotient-lt (x / d) k d (x % d) x e r (omega arith))
]

-- The next time is a scheduled one, after the one that it is counted from: it lies whole intervals
-- after it, and after `now`; and of all times that lie whole intervals after the old one, at least
-- one, it is the first after `now`.
pub next_ingestion_time-first :
    (scheduled_at minutes now : ℕ)
    → 1 ≤ minutes
    → let next = next_ingestion_time scheduled_at minutes now in
      (now < next)
      × ((n : ℕ) × (1 ≤ n) × (next ≡ scheduled_at + n * minutes_long minutes))
      × ((n : ℕ)
          → 1 ≤ n
          → now < scheduled_at + n * minutes_long minutes
          → next ≤ scheduled_at + n * minutes_long minutes)
unfolding next_ingestion_time
next_ingestion_time-first scheduled_at minutes now some_minutes =
    let d = minutes_long minutes in
    let (past, least) = missed-first scheduled_at d now (omega arith) in
    (
      past,
      (missed scheduled_at d now + 1, omega arith, refl),
      λ n a b. omega (arith, mul-le-mul_right d (least n a b)),
    )

abbrev pub InRange : Option ℕ → Type 0
InRange none = Unit
InRange (some minutes) = (1 ≤ minutes) × (minutes ≤ max_ingestion_interval_minutes)

-- An enabled source has an interval and a next time and is of a type that can be scheduled; a
-- disabled one has no next time; an interval is from one minute to a week.
abbrev pub IsScheduled : ScheduledSource → Type 0
IsScheduled s =
    (s.ingestion_enabled ≡ true
      → (is_some s.ingestion_interval_minutes ≡ true)
        × (is_some s.next_ingestion_at ≡ true)
        × (is_schedulable s.type ≡ true))
    × (s.ingestion_enabled ≡ false → s.next_ingestion_at ≡ none)
    × InRange s.ingestion_interval_minutes

enabled-IsScheduled :
    (minutes : ℕ) (at : Time) (s : ScheduledSource)
    → is_schedulable s.type ≡ true
    → InRange (some minutes)
    → IsScheduled (enabled minutes at s)
unfolding enabled
enabled-IsScheduled minutes at s fits range =
    ((λ _. (refl, refl, fits)), (λ f. absurd (ground arith)), range)

disabled-IsScheduled : (s : ScheduledSource) → IsScheduled s → IsScheduled (disabled s)
unfolding disabled
disabled-IsScheduled s p = ((λ f. absurd (ground arith)), (λ _. refl), p.2)

fits_too : (b : Bool) → not b ≡ false → b ≡ true
fits_too b h = ground arith

enable-IsScheduled :
    (i minutes : ℕ) (start_at : Option Time) (now : Time) (sources : List ScheduledSource)
    {sources' : List ScheduledSource}
    → enable i minutes start_at now sources ≡ ok sources'
    → count (has_id i) sources ≤ 1
    → All IsScheduled sources
    → All IsScheduled sources'
unfolding enable check_interval_minutes
enable-IsScheduled i minutes start_at now sources {sources'} h same all =
    elim (Option-cases (find (has_id i) sources)) [
      | inl e ↦ absurd (ground arith)
      | inr (found, e) ↦
          let fits : is_schedulable found.type ≡ true = ground arith in
          let range : InRange (some minutes) = ground arith in
          let written : sources'
              ≡ update (has_id i) (enabled minutes (start_or_now start_at now)) sources =
            ground arith in
          rw written (
            All-update
              {P = λ s. IsScheduled s × (has_id i s ≡ true → not (is_schedulable s.type) ≡ false)}
              (has_id i) (enabled minutes (start_or_now start_at now)) sources
              (λ s p y.
                enabled-IsScheduled minutes (start_or_now start_at now) s
                  (fits_too (is_schedulable s.type) (p.1 y)) range)
              (λ s p n. p.0)
              (All-zip
                {S = λ s. IsScheduled s × (has_id i s ≡ true → not (is_schedulable s.type) ≡ false)}
                (λ s p q. (p, q)) sources all
                (found_speaks (has_id i) (λ s. not (is_schedulable s.type)) sources same e
                  (ground (arith, fits)))))
    ]

disable-IsScheduled :
    (i : ℕ) (sources : List ScheduledSource) {sources' : List ScheduledSource}
    → disable i sources ≡ ok sources'
    → All IsScheduled sources
    → All IsScheduled sources'
unfolding disable
disable-IsScheduled i sources {sources'} h all = elim (Option-cases (find (has_id i) sources)) [
  | inl e ↦ absurd (ground arith)
  | inr (found, e) ↦
      let written : sources' ≡ update (has_id i) disabled sources = ground arith in
      rw written (
        All-update (has_id i) disabled sources (λ s p y. disabled-IsScheduled s p) (λ s p n. p) all)
]

pub data ScheduleOp : Type 0 where
  turn_on : ℕ → ℕ → Option Time → Time → ScheduleOp
  turn_off : ℕ → ScheduleOp

abbrev pub apply : ScheduleOp → List ScheduledSource → Result ScheduleError (List ScheduledSource)
apply (turn_on i minutes start_at now) sources = enable i minutes start_at now sources
apply (turn_off i) sources = disable i sources

-- Turning the schedule of a source on or off, when it succeeds and at most one row has an ID, keeps
-- every source as the scheduler needs it: an enabled one has an interval and a next time and is of a
-- type that can be scheduled, a disabled one has no next time, and an interval is from one minute to
-- a week.
switching-IsScheduled :
    (op : ScheduleOp) (sources : List ScheduledSource) {sources' : List ScheduledSource}
    → apply op sources ≡ ok sources'
    → ((i : ℕ) → count (has_id i) sources ≤ 1)
    → All IsScheduled sources
    → All IsScheduled sources'
switching-IsScheduled (turn_on i minutes start_at now) sources h one all =
    enable-IsScheduled i minutes start_at now sources h (one i) all
switching-IsScheduled (turn_off i) sources h one all = disable-IsScheduled i sources h all

-- The scheduler can always move on an enabled source: the next time is then after `now`, nothing
-- else of the row changes, and the row stays as a scheduled source must be.
advance_schedule-IsScheduled :
    (now : Time) (s : ScheduledSource)
    → IsScheduled s
    → s.ingestion_enabled ≡ true
    → (at : Time) × (now < at)
      × (advance_schedule now s ≡ ok (record s { next_ingestion_at = some at }))
      × IsScheduled (record s { next_ingestion_at = some at })
unfolding advance_schedule advance_by
advance_schedule-IsScheduled now s h on = elim (Option-cases s.ingestion_interval_minutes) [
  | inl e ↦ absurd (let (a, _, _) = h.0 on in ground (arith, a, e))
  | inr (minutes, e) ↦ elim (Option-cases s.next_ingestion_at) [
    | inl f ↦ absurd (let (_, b, _) = h.0 on in ground (arith, b, f))
    | inr (at, f) ↦
        let (pos, _) = simp e at h.2 in
        let (later, _, _) = next_ingestion_time-first at minutes now pos in
        (
          next_ingestion_time at minutes now,
          later,
          simp (e, f) refl,
          (
            (λ y. let (a, _, c) = h.0 y in (a, refl, c)),
            (λ n. absurd (ground (arith, on, n))),
            h.2,
          ),
        )
  ]
]
