-- ===== src/Queues/Ingestion.antt =====
-- domain/ingestion/job_repository.py
use signalscope.Shared.{ℕ, Bool, true, false, Option, List, ◌∷◌, Result}
use signalscope.Shared.Text.{Text}
use signalscope.Core.Leases.{Time, LeasePolicy}
use signalscope.Content.{Content, source_organization}
use signalscope.Jobs.Model.{Uuid, Job, ingestion, source, Tables}
use signalscope.Jobs.Queue
use signalscope.Jobs.Queue.{JobError, Work, start, claimable_jobs, claim_first}

pub record IngestionResource : Type 0 where
  pub source_id : Uuid
  pub run_id : Uuid

abbrev pub IngestionJob : Type 0
IngestionJob = Job IngestionResource

abbrev pub IngestionTables : Type 0
IngestionTables = Tables IngestionResource

unfoldable pub add : IngestionJob → IngestionTables → IngestionTables
add j db = record db { jobs = j ∷ db.jobs }

unfoldable pub get : Uuid → IngestionTables → Option IngestionJob
get = Queue.get

unfoldable pub ingestion_work : Content → IngestionResource → Work
ingestion_work content r = record {
  organization = source_organization content r.source_id;
  resource_type = source;
  resource_id = r.source_id;
}

unfoldable pub claim_next :
    Content
    → (Uuid → Bool)
    → Time
    → LeasePolicy
    → Uuid
    → IngestionTables
    → IngestionTables × Option IngestionJob
claim_next content locked now lease token db =
    claim_first ingestion (ingestion_work content) now (start false lease now token)
      (claimable_jobs (λ _. true) locked now db) db

unfoldable pub heartbeat :
    Uuid → Uuid → Time → LeasePolicy → IngestionTables → IngestionTables × Bool
heartbeat = Queue.heartbeat

unfoldable pub recover_stale :
    (Uuid → Bool)
    → Time
    → ℕ
    → IngestionTables
    → Result JobError (IngestionTables × List IngestionJob)
recover_stale = Queue.recover_stale ingestion

unfoldable pub mark_completed :
    Uuid → Uuid → Time → IngestionTables → Result JobError (IngestionTables × IngestionJob)
mark_completed = Queue.mark_completed ingestion

unfoldable pub mark_failed :
    Uuid → Uuid → Time → Text → IngestionTables → Result JobError (IngestionTables × IngestionJob)
mark_failed = Queue.mark_failed ingestion
