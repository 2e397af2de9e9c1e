-- ===== src/Jobs/Attempts.antt =====
-- domain/operations/attempts.py
use signalscope.Shared.{Bool, ◌&&◌, Option, none, some, List, ◌∷◌, ◌==◌, ℕ}
use signalscope.Shared.Text.{Text}
use signalscope.Shared.Rows.{update_first}
use signalscope.Core.Leases.{Time}
use signalscope.Core.Errors.{short_error_message}
use signalscope.Jobs.Model.{
  Uuid, AttemptQueue, queue_code, AttemptOutcome, is_open, ResourceType, Attempt,
}

-- The row that a claim adds.
abbrev pub open_attempt : Uuid → AttemptQueue → Uuid → ℕ → ResourceType → Uuid → Time → Attempt
open_attempt organization queue job_id number type resource now = record {
  organization_id = organization;
  queue_name = queue;
  job_id = job_id;
  attempt_number = number;
  resource_type = type;
  resource_id = resource;
  started_at = now;
  finished_at = none;
  outcome = AttemptOutcome.running;
  safe_error = none;
}

-- `start_attempt`: only work of an organization is recorded.
unfoldable pub start_attempt :
    Option Uuid → AttemptQueue → Uuid → ℕ → ResourceType → Uuid → Time → List Attempt → List Attempt
start_attempt none queue job_id number type resource now rows = rows
start_attempt (some organization) queue job_id number type resource now rows =
    open_attempt organization queue job_id number type resource now ∷ rows

abbrev pub short_error : Option Text → Option Text
short_error none = none
short_error (some e) = some (short_error_message e)

-- The condition of the query in `finish_attempt`.
unfoldable pub is_open_attempt : AttemptQueue → Uuid → ℕ → Attempt → Bool
is_open_attempt queue job_id number a =
    queue_code a.queue_name == queue_code queue
    && a.job_id == job_id
    && a.attempt_number == number
    && is_open a.outcome

-- `finish_attempt`: the open attempt with this number, if the history has it.
unfoldable pub finish_attempt :
    AttemptQueue → Uuid → ℕ → AttemptOutcome → Time → Option Text → List Attempt → List Attempt
finish_attempt queue job_id number outcome now error =
    update_first (is_open_attempt queue job_id number)
      (λ a. record a { outcome = outcome; finished_at = some now; safe_error = short_error error })
