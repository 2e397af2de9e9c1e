-- ===== src/Queues/Chunks.antt =====
-- The queues of work on chunks, whose repositories differ in the name of the queue alone:
-- domain/claims/job_repository.py, domain/entities/job_repository.py, domain/events/job_repository.py.
use signalscope.Shared.{
  ℕ, Bool, true, false, ◌&&◌, ◌||◌, Option, none, List, [], ◌∷◌, String, Result,
}
use text.Mathlib.Text.{◌==◌ as str_eq}
use signalscope.Shared.Text.{Text}
use signalscope.Core.Leases.{Time, LeasePolicy}
use signalscope.Content.{Content, chunk_organization}
use signalscope.Jobs.Model.{Uuid, Job, AttemptQueue, chunk, Tables}
use signalscope.Jobs.Queue
use signalscope.Jobs.Queue.{JobError, Work, start, claimable_jobs, claim_first}

pub record ChunkResource : Type 0 where
  pub chunk_id : Uuid
  pub provider : String
  pub model : String

abbrev pub ChunkJob : Type 0
ChunkJob = Job ChunkResource

abbrev pub ChunkTables : Type 0
ChunkTables = Tables ChunkResource

-- tuple_(provider, model).in_(models)
unfoldable pub is_for_models : List (String × String) → ChunkResource → Bool
is_for_models [] r = false
is_for_models ((provider, model) ∷ models) r =
    (str_eq r.provider provider && str_eq r.model model) || is_for_models models r

-- `start_chunk_attempt`
unfoldable pub chunk_work : Content → ChunkResource → Work
chunk_work content r = record {
  organization = chunk_organization content r.chunk_id;
  resource_type = chunk;
  resource_id = r.chunk_id;
}

unfoldable pub add : ChunkJob → ChunkTables → ChunkTables
add j db = record db { jobs = j ∷ db.jobs }

unfoldable pub get : Uuid → ChunkTables → Option ChunkJob
get = Queue.get

module _ (queue : AttemptQueue) where
  -- With no models there is nothing to claim, and no query is made.
  unfoldable pub claim_next :
      Content
      → List (String × String)
      → (Uuid → Bool)
      → Time
      → LeasePolicy
      → Uuid
      → ChunkTables
      → ChunkTables × Option ChunkJob
  claim_next content [] locked now lease token db = (db, none)
  claim_next content (m ∷ models) locked now lease token db =
      claim_first queue (chunk_work content) now (start true lease now token)
        (claimable_jobs (is_for_models (m ∷ models)) locked now db) db

  unfoldable pub heartbeat : Uuid → Uuid → Time → LeasePolicy → ChunkTables → ChunkTables × Bool
  heartbeat = Queue.heartbeat

  unfoldable pub recover_stale :
      (Uuid → Bool) → Time → ℕ → ChunkTables → Result JobError (ChunkTables × List ChunkJob)
  recover_stale = Queue.recover_stale queue

  unfoldable pub mark_completed :
      Uuid → Uuid → Time → ChunkTables → Result JobError (ChunkTables × ChunkJob)
  mark_completed = Queue.mark_completed queue

  unfoldable pub mark_failed :
      Uuid → Uuid → Time → Text → ChunkTables → Result JobError (ChunkTables × ChunkJob)
  mark_failed = Queue.mark_failed queue
