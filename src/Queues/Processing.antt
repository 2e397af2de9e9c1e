-- ===== src/Queues/Processing.antt =====
-- domain/processing/job_repository.py
use signalscope.Shared.{ℕ, Bool, true, false, Option, List, ◌∷◌, ◌==◌, Result}
use signalscope.Shared.Text.{Text}
use signalscope.Shared.Rows.{select, delete}
use signalscope.Core.Leases.{Time, LeasePolicy}
use signalscope.Content.{Content, document_organization}
use signalscope.Jobs.Model.{Uuid, Job, processing, document, Tables}
use signalscope.Jobs.Queue
use signalscope.Jobs.Queue.{JobError, Work, start, claimable_jobs, claim_first}

pub record ProcessingResource : Type 0 where
  pub document_id : Uuid
  pub asset_id : Uuid

abbrev pub ProcessingJob : Type 0
ProcessingJob = Job ProcessingResource

abbrev pub ProcessingTables : Type 0
ProcessingTables = Tables ProcessingResource

unfoldable pub add : ProcessingJob → ProcessingTables → ProcessingTables
add j db = record db { jobs = j ∷ db.jobs }

unfoldable pub get : Uuid → ProcessingTables → Option ProcessingJob
get = Queue.get

unfoldable pub lock_for_document : Uuid → ProcessingTables → List ProcessingJob
lock_for_document document_id db = select (λ j. j.resource.document_id == document_id) db.jobs

unfoldable pub delete_for_document : Uuid → ProcessingTables → ProcessingTables
delete_for_document document_id db = record db {
  jobs = delete (λ j. j.resource.document_id == document_id) db.jobs;
}

-- The organization is that of the source of the job's document.
unfoldable pub processing_work : Content → ProcessingResource → Work
processing_work content r = record {
  organization = document_organization content r.document_id;
  resource_type = document;
  resource_id = r.document_id;
}

-- `locked` tells the rows that other transactions have locked, `token` is the new `uuid4`.
unfoldable pub claim_next :
    Content
    → (Uuid → Bool)
    → Time
    → LeasePolicy
    → Uuid
    → ProcessingTables
    → ProcessingTables × Option ProcessingJob
claim_next content locked now lease token db =
    claim_first processing (processing_work content) now (start false lease now token)
      (claimable_jobs (λ _. true) locked now db) db

unfoldable pub heartbeat :
    Uuid → Uuid → Time → LeasePolicy → ProcessingTables → ProcessingTables × Bool
heartbeat = Queue.heartbeat

unfoldable pub recover_stale :
    (Uuid → Bool)
    → Time
    → ℕ
    → ProcessingTables
    → Result JobError (ProcessingTables × List ProcessingJob)
recover_stale = Queue.recover_stale processing

unfoldable pub mark_completed :
    Uuid → Uuid → Time → ProcessingTables → Result JobError (ProcessingTables × ProcessingJob)
mark_completed = Queue.mark_completed processing

unfoldable pub mark_failed :
    Uuid
    → Uuid
    → Time
    → Text
    → ProcessingTables
    → Result JobError (ProcessingTables × ProcessingJob)
mark_failed = Queue.mark_failed processing
