-- ===== src/Sources/Tests.antt =====
-- The schedule of a feed that is read every hour.
use signalscope.Shared.{ℕ, ◌+◌, ◌*◌, ◌≤◌, ◌<◌, ◌≡◌, refl, true, none, some, [], ◌∷◌, arith, ok}
use signalscope.Shared.Rows.{find, update}
use signalscope.Sources.Scheduling.{
  ScheduledSource, rss, is_schedulable, check_interval_minutes, next_ingestion_time, minutes_long,
  enable, enabled,
}
use signalscope.Sources.Times.{IsScheduled, turn_on, apply, next_ingestion_time-first}

abbrev hour : ℕ
hour = 60

-- The source is three and a half hours late.
next_ingestion_time-first_example :
    let next = next_ingestion_time 1000 hour 12600001000 in
    (12600001000 < next)
    × ((n : ℕ) × (1 ≤ n) × (next ≡ 1000 + n * minutes_long hour))
    × ((n : ℕ)
        → 1 ≤ n
        → 12600001000 < 1000 + n * minutes_long hour
        → next ≤ 1000 + n * minutes_long hour)
next_ingestion_time-first_example = next_ingestion_time-first 1000 hour 12600001000 (ground arith)

abbrev feed : ScheduledSource
feed = record {
  id = 4;
  type = rss;
  ingestion_enabled = true;
  ingestion_interval_minutes = some hour;
  next_ingestion_at = some 1000;
}

feed-IsScheduled : IsScheduled feed
unfolding is_schedulable
feed-IsScheduled =
    ((λ _. (refl, refl, refl)), (λ f. absurd (ground arith)), (ground arith, ground arith))

switched : apply (turn_on 4 30 none 2000) (feed ∷ []) ≡ ok (enabled 30 2000 feed ∷ [])
unfolding enable check_interval_minutes find update is_schedulable
switched = refl
