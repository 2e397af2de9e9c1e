-- ===== src/Jobs/Queue.antt =====
-- The operations that the job repositories have in common, over one queue.
use signalscope.Shared.{
  ℕ, ◌+◌, Bool, not, ◌&&◌, ◌||◌, Option, none, some, List, [], ◌∷◌, map, ltb, leb, ◌==◌,
  if◌then◌else◌, take, Result, ok, ◌>>=◌, ◌>>◌, raise_if, some_or_raise, is_some,
}
use signalscope.Shared.Text.{Text, codes}
use signalscope.Shared.Rows.{select, find, update, order_by}
use signalscope.Core.Leases.{Time, LeasePolicy, expires_at}
use signalscope.Core.Errors.{short_error_message}
use signalscope.Jobs.Model.{
  Uuid, JobStatus, pending, running, completed, failed, is_pending, is_running, Job, AttemptQueue,
  AttemptOutcome, ResourceType, Tables, eq_value, le_value, sort_key,
}
use signalscope.Jobs.Attempts.{start_attempt, finish_attempt}

pub data JobError : Type 0 where
  job_not_found job_not_held limit_too_small : JobError
  invalid_status_change : JobStatus → JobStatus → JobError

-- What the history records of the work: its organization, and the resource that the job names.
pub record Work : Type 0 where
  pub organization : Option Uuid
  pub resource_type : ResourceType
  pub resource_id : Uuid

abbrev pub outcome_of : JobStatus → AttemptOutcome
outcome_of completed = AttemptOutcome.succeeded
outcome_of _ = AttemptOutcome.failed

module _ {R : Type 0} where
  abbrev pub has_id : Uuid → Job R → Bool
  has_id i j = j.id == i

  unfoldable pub get : Uuid → Tables R → Option (Job R)
  get i db = find (has_id i) db.jobs

  -- The row of a job object is written back as it stands.
  unfoldable pub save : Job R → List (Job R) → List (Job R)
  save j = update (has_id j.id) (λ _. j)

  -- The WHERE clause of `claim_next`; rows that another transaction has locked are skipped.
  unfoldable pub is_claimable : (R → Bool) → (Uuid → Bool) → Time → Job R → Bool
  is_claimable accepts locked now j =
      is_pending j.status && leb j.available_at now && accepts j.resource && not (locked j.id)

  -- ORDER BY available_at, created_at, id
  unfoldable pub claim_before : Job R → Job R → Bool
  claim_before a b =
      ltb a.available_at b.available_at
      || (a.available_at == b.available_at
          && (ltb a.created_at b.created_at || (a.created_at == b.created_at && ltb a.id b.id)))

  -- The columns that a claim sets (`_start`). The chunk queues also clear the finish time.
  unfoldable pub start : Bool → LeasePolicy → Time → Uuid → Job R → Job R
  start clears lease now token j = record j {
    status = running;
    claimed_at = some now;
    heartbeat_at = some now;
    lease_expires_at = some (expires_at lease now);
    lease_token = some token;
    finished_at = if clears then none else j.finished_at;
    attempt_count = j.attempt_count + 1;
  }

  -- The claim of one job that was selected, with its attempt.
  unfoldable pub claim_job :
      AttemptQueue → (R → Work) → Time → (Job R → Job R) → Job R → Tables R → Tables R
  claim_job queue work now begin j db =
      let started = begin j in
      let w = work started.resource in
      record {
        jobs = save started db.jobs;
        attempts =
            start_attempt w.organization queue started.id started.attempt_count w.resource_type
              w.resource_id now db.attempts;
      }

  -- The jobs that a claim selects, in order.
  unfoldable pub claimable_jobs : (R → Bool) → (Uuid → Bool) → Time → Tables R → List (Job R)
  claimable_jobs accepts locked now db =
      order_by claim_before (select (is_claimable accepts locked now) db.jobs)

  -- `claim_next`: the first of them is claimed.
  unfoldable pub claim_first :
      AttemptQueue
      → (R → Work)
      → Time
      → (Job R → Job R)
      → List (Job R)
      → Tables R
      → Tables R × Option (Job R)
  claim_first queue work now begin [] db = (db, none)
  claim_first queue work now begin (j ∷ _) db =
      (claim_job queue work now begin j db, some (begin j))

  -- The condition under which a heartbeat, or the end of a job, is accepted.
  unfoldable pub is_held : Uuid → Uuid → Job R → Bool
  is_held job_id token j = j.id == job_id && is_running j.status && eq_value j.lease_token token

  -- The columns that a heartbeat sets.
  unfoldable pub extended : LeasePolicy → Time → Job R → Job R
  extended lease now j = record j {
    heartbeat_at = some now;
    lease_expires_at = some (expires_at lease now);
  }

  unfoldable pub heartbeat : Uuid → Uuid → Time → LeasePolicy → Tables R → Tables R × Bool
  heartbeat job_id token now lease db = (
    record db { jobs = update (is_held job_id token) (extended lease now) db.jobs },
    is_some (find (is_held job_id token) db.jobs),
  )

  unfoldable pub is_stale : (Uuid → Bool) → Time → Job R → Bool
  is_stale locked now j =
      is_running j.status && le_value j.lease_expires_at now && not (locked j.id)

  -- ORDER BY lease_expires_at, id
  unfoldable pub stale_before : Job R → Job R → Bool
  stale_before a b =
      ltb (sort_key a.lease_expires_at) (sort_key b.lease_expires_at)
      || (sort_key a.lease_expires_at == sort_key b.lease_expires_at && ltb a.id b.id)

  -- The columns that a recovery sets.
  unfoldable pub release : Time → Job R → Job R
  release now j = record j {
    status = pending;
    available_at = now;
    claimed_at = none;
    heartbeat_at = none;
    lease_expires_at = none;
    lease_token = none;
  }

  unfoldable pub recover_job : AttemptQueue → Time → Job R → Tables R → Tables R
  recover_job queue now j db = record {
    jobs = save (release now j) db.jobs;
    attempts =
        finish_attempt queue j.id j.attempt_count AttemptOutcome.recovered now
          (some (codes "Worker lease expired.")) db.attempts;
  }

  unfoldable pub recover_jobs : AttemptQueue → Time → List (Job R) → Tables R → Tables R
  recover_jobs queue now [] db = db
  recover_jobs queue now (j ∷ js) db = recover_jobs queue now js (recover_job queue now j db)

  -- The stale jobs that one recovery takes.
  unfoldable pub stale_jobs : (Uuid → Bool) → Time → ℕ → Tables R → List (Job R)
  stale_jobs locked now limit db =
      take limit (order_by stale_before (select (is_stale locked now) db.jobs))

  unfoldable pub recover_stale :
      AttemptQueue → (Uuid → Bool) → Time → ℕ → Tables R → Result JobError (Tables R × List (Job R))
  recover_stale queue locked now limit db = do
    raise_if (ltb limit 1) limit_too_small
    let stale = stale_jobs locked now limit db
    ok (recover_jobs queue now stale db, map (release now) stale)

  -- The columns that the end of a job sets.
  unfoldable pub finished : JobStatus → Time → Option Text → Job R → Job R
  finished status now last_error j = record j {
    status = status;
    finished_at = some now;
    last_error = last_error;
    lease_expires_at = none;
    lease_token = none;
  }

  -- `_finish`, once the job was found
  unfoldable pub finish_found :
      AttemptQueue
      → Uuid
      → JobStatus
      → Time
      → Option Text
      → Job R
      → Tables R
      → Result JobError (Tables R × Job R)
  finish_found queue token status now last_error j db = do
    raise_if (not (is_running j.status)) (invalid_status_change j.status status)
    raise_if (not (eq_value j.lease_token token)) job_not_held
    let done = finished status now last_error j
    ok (
      record {
        jobs = save done db.jobs;
        attempts =
            finish_attempt queue j.id j.attempt_count (outcome_of status) now last_error
              db.attempts;
      },
      done,
    )

  -- `_finish`
  unfoldable pub finish :
      AttemptQueue
      → Uuid
      → Uuid
      → JobStatus
      → Time
      → Option Text
      → Tables R
      → Result JobError (Tables R × Job R)
  finish queue job_id token status now last_error db = do
    j ← some_or_raise (get job_id db) job_not_found
    finish_found queue token status now last_error j db

  unfoldable pub mark_completed :
      AttemptQueue → Uuid → Uuid → Time → Tables R → Result JobError (Tables R × Job R)
  mark_completed queue job_id token now = finish queue job_id token completed now none

  unfoldable pub mark_failed :
      AttemptQueue → Uuid → Uuid → Time → Text → Tables R → Result JobError (Tables R × Job R)
  mark_failed queue job_id token now error =
      finish queue job_id token failed now (some (short_error_message error))

  -- `_clear` of the failed-job recovery, with the status that its callers set.
  unfoldable pub requeued : Time → Job R → Job R
  requeued now j = record j {
    status = pending;
    available_at = now;
    claimed_at = none;
    heartbeat_at = none;
    lease_expires_at = none;
    lease_token = none;
    finished_at = none;
    last_error = none;
  }
