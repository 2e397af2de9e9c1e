-- ===== src/Jobs/Run.antt =====
-- Ways in which the workers, the importers and the operators change one queue, as operations, and runs of
-- operations in any order. An operation that raises changes nothing. `requeue` is the UPDATE of `_requeue`
-- in the queues of domain/entities, domain/events, domain/claims and domain/search, which may put completed
-- jobs back; `remove` deletes jobs, as `delete_for_document` and the deletion of their chunks do. A batch
-- of claims (Queues/Batch) is none of them.
use signalscope.Shared.{
  ℕ, Bool, true, false, not, ◌&&◌, ◌||◌, Option, none, some, List, [], ◌∷◌, if◌then◌else◌, Result,
  ok, err,
}
use signalscope.Shared.Text.{Text}
use signalscope.Shared.Rows.{update, delete}
use signalscope.Core.Leases.{Time, LeasePolicy}
use signalscope.Jobs.Model.{
  Uuid, JobStatus, failed, is_pending, is_running, Job, AttemptQueue, Tables,
}
use signalscope.Jobs.Queue.{
  JobError, Work, save, get, start, claimable_jobs, claim_first, heartbeat, recover_stale,
  mark_completed, mark_failed, requeued,
}

pub data Op (R : Type 0) : Type 0 where
  add : Job R → Op R
  claim : Bool → (R → Bool) → (Uuid → Bool) → Time → LeasePolicy → Uuid → Op R
  beat : Uuid → Uuid → Time → LeasePolicy → Op R
  recover : (Uuid → Bool) → Time → ℕ → Op R
  complete : Uuid → Uuid → Time → Op R
  fail : Uuid → Uuid → Time → Text → Op R
  retry : Uuid → Time → (R → R) → Op R
  requeue : (Job R → Bool) → Time → Op R
  remove : (Job R → Bool) → Op R

abbrev pub tables_or : {R A : Type 0} → Tables R → Result JobError (Tables R × A) → Tables R
tables_or db (ok (db', _)) = db'
tables_or db (err _) = db

abbrev pub is_failed : JobStatus → Bool
is_failed failed = true
is_failed _ = false

-- `ACTIVE_STATUSES`
abbrev pub is_active : JobStatus → Bool
is_active status = is_pending status || is_running status

module _ {R : Type 0} where
  -- The job that a retry saves: an ingestion job gets a new run, the others keep their columns.
  unfoldable pub retried : Time → (R → R) → Job R → Job R
  retried now renew j = record (requeued now j) { resource = renew j.resource }

  -- A failed job goes back into its queue; any other is left alone.
  unfoldable pub retry_found : Time → (R → R) → Option (Job R) → Tables R → Tables R
  retry_found now renew none db = db
  retry_found now renew (some j) db =
      if is_failed j.status then record db { jobs = save (retried now renew j) db.jobs } else db

  -- The WHERE of `_requeue`: the rows that the call chooses, if they are not active
  unfoldable pub may_requeue : (Job R → Bool) → Job R → Bool
  may_requeue chosen j = chosen j && not (is_active j.status)

module _ {R : Type 0} (queue : AttemptQueue) (work : R → Work) where
  unfoldable pub run : Op R → Tables R → Tables R
  run (add j) db = record db { jobs = j ∷ db.jobs }
  run (claim clears accepts locked now lease token) db =
      (claim_first queue work now (start clears lease now token)
        (claimable_jobs accepts locked now db) db).0
  run (beat job_id token now lease) db = (heartbeat job_id token now lease db).0
  run (recover locked now limit) db = tables_or db (recover_stale queue locked now limit db)
  run (complete job_id token now) db = tables_or db (mark_completed queue job_id token now db)
  run (fail job_id token now error) db = tables_or db (mark_failed queue job_id token now error db)
  run (retry job_id now renew) db = retry_found now renew (get job_id db) db
  run (requeue chosen now) db = record db {
    jobs = update (may_requeue chosen) (requeued now) db.jobs;
  }
  run (remove which) db = record db { jobs = delete which db.jobs }

  unfoldable pub run_all : List (Op R) → Tables R → Tables R
  run_all [] db = db
  run_all (op ∷ ops) db = run_all ops (run op db)
