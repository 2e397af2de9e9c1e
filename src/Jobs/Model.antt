-- ===== src/Jobs/Model.antt =====
-- The columns that every job table has (domain/processing/model.py and its sisters), and the
-- attempt history (domain/operations/attempt.py). IDs and tokens are numbers.
use signalscope.Shared.{ℕ, Bool, true, false, Option, none, some, List, leb, ◌==◌}
use signalscope.Shared.Text.{Text}
use signalscope.Core.Leases.{Time}

abbrev pub Uuid : Type 0
Uuid = ℕ

pub data JobStatus : Type 0 where
  pending running completed failed : JobStatus

abbrev pub is_pending : JobStatus → Bool
is_pending pending = true
is_pending _ = false

abbrev pub is_running : JobStatus → Bool
is_running running = true
is_running _ = false

-- `resource` holds the columns that name the work: a document and its file, a chunk and a model,
-- or a source and a run.
pub record Job (R : Type 0) : Type 0 where
  pub id : Uuid
  pub resource : R
  pub status : JobStatus
  pub available_at : Time
  pub created_at : Time
  pub claimed_at : Option Time
  pub heartbeat_at : Option Time
  pub lease_expires_at : Option Time
  pub lease_token : Option Uuid
  pub finished_at : Option Time
  pub attempt_count : ℕ
  pub last_error : Option Text

pub data AttemptQueue : Type 0 where
  ingestion processing embedding entity event claim : AttemptQueue

unfoldable pub queue_code : AttemptQueue → ℕ
queue_code ingestion = 0
queue_code processing = 1
queue_code embedding = 2
queue_code entity = 3
queue_code event = 4
queue_code claim = 5

pub data AttemptOutcome : Type 0 where
  running succeeded failed recovered : AttemptOutcome

abbrev pub is_open : AttemptOutcome → Bool
is_open AttemptOutcome.running = true
is_open _ = false

pub data ResourceType : Type 0 where
  source document chunk : ResourceType

pub record Attempt : Type 0 where
  pub organization_id : Uuid
  pub queue_name : AttemptQueue
  pub job_id : Uuid
  pub attempt_number : ℕ
  pub resource_type : ResourceType
  pub resource_id : Uuid
  pub started_at : Time
  pub finished_at : Option Time
  pub outcome : AttemptOutcome
  pub safe_error : Option Text

-- A queue's table and the history that it writes to.
pub record Tables (R : Type 0) : Type 0 where
  pub jobs : List (Job R)
  pub attempts : List Attempt

-- `column = value` in SQL: never true of NULL.
abbrev pub eq_value : Option ℕ → ℕ → Bool
eq_value none v = false
eq_value (some x) v = x == v

-- `column <= value` in SQL: never true of NULL.
abbrev pub le_value : Option ℕ → ℕ → Bool
le_value none v = false
le_value (some x) v = leb x v

-- A nullable column as a sort key; every row that is sorted by it has a value.
abbrev pub sort_key : Option ℕ → ℕ
sort_key none = 0
sort_key (some x) = x
