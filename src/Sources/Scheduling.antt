-- ===== src/Sources/Scheduling.antt =====
-- domain/sources/scheduling.py, with the columns of domain/sources/model.py that it writes. Times
-- are microseconds; they carry their zone, so the test for a start without one has nothing to refuse.
use signalscope.Shared.{
  ℕ, ◌+◌, ◌-◌, ◌*◌, ◌/◌, Bool, true, false, not, ◌&&◌, Option, none, some, List, ◌==◌, ltb, leb,
  if◌then◌else◌, Result, ok, err, ◌>>=◌, ◌>>◌, raise_if, some_or_raise,
}
use signalscope.Shared.Rows.{find, update}
use signalscope.Core.Leases.{Time}

pub data SourceType : Type 0 where
  web rss upload api : SourceType

-- `type in SCHEDULABLE_TYPES`
unfoldable pub is_schedulable : SourceType → Bool
is_schedulable web = true
is_schedulable rss = true
is_schedulable _ = false

abbrev pub max_ingestion_interval_minutes : ℕ
max_ingestion_interval_minutes = 10080

pub record ScheduledSource : Type 0 where
  pub id : ℕ
  pub type : SourceType
  pub ingestion_enabled : Bool
  pub ingestion_interval_minutes : Option ℕ
  pub next_ingestion_at : Option Time

pub data ScheduleError : Type 0 where
  interval_out_of_range no_schedule source_not_found not_schedulable : ScheduleError

unfoldable pub check_interval_minutes : ℕ → Result ScheduleError (Unit {0})
check_interval_minutes minutes =
    raise_if (not (leb 1 minutes && leb minutes max_ingestion_interval_minutes))
      interval_out_of_range

abbrev pub minutes_long : ℕ → Time
minutes_long minutes = minutes * 60000000

-- `max((now - scheduled_at) // interval, 0)`: a difference below zero has a negative quotient.
unfoldable pub missed : Time → Time → Time → ℕ
missed scheduled_at interval now =
    if ltb now scheduled_at then 0 else (now - scheduled_at) / interval

unfoldable pub next_ingestion_time : Time → ℕ → Time → Time
next_ingestion_time scheduled_at minutes now =
    scheduled_at + (missed scheduled_at (minutes_long minutes) now + 1) * minutes_long minutes

unfoldable pub advance_by :
    Option ℕ → Option Time → Time → ScheduledSource → Result ScheduleError ScheduledSource
advance_by (some minutes) (some at) now source =
    ok (record source { next_ingestion_at = some (next_ingestion_time at minutes now) })
advance_by _ _ now source = err no_schedule

unfoldable pub advance_schedule : Time → ScheduledSource → Result ScheduleError ScheduledSource
advance_schedule now source =
    advance_by source.ingestion_interval_minutes source.next_ingestion_at now source

abbrev pub has_id : ℕ → ScheduledSource → Bool
has_id i s = s.id == i

abbrev pub start_or_now : Option Time → Time → Time
start_or_now none now = now
start_or_now (some at) now = at

unfoldable pub enabled : ℕ → Time → ScheduledSource → ScheduledSource
enabled minutes at source = record source {
  ingestion_enabled = true;
  ingestion_interval_minutes = some minutes;
  next_ingestion_at = some at;
}

unfoldable pub disabled : ScheduledSource → ScheduledSource
disabled source = record source { ingestion_enabled = false; next_ingestion_at = none }

unfoldable pub enable :
    ℕ → ℕ → Option Time → Time → List ScheduledSource → Result ScheduleError (List ScheduledSource)
enable source_id minutes start_at now sources = do
  check_interval_minutes minutes
  source ← some_or_raise (find (has_id source_id) sources) source_not_found
  raise_if (not (is_schedulable source.type)) not_schedulable
  ok (update (has_id source_id) (enabled minutes (start_or_now start_at now)) sources)

unfoldable pub disable : ℕ → List ScheduledSource → Result ScheduleError (List ScheduledSource)
disable source_id sources = do
  source ← some_or_raise (find (has_id source_id) sources) source_not_found
  ok (update (has_id source_id) disabled sources)
