-- ===== src/Queues/Backlog.antt =====
-- domain/claims/queue.py: jobs are queued for the chunks that a model has not read. `evidence` is the
-- query for claim evidence of a chunk by the model, and `meanwhile` is what other transactions commit
-- between the query and the writes.
use signalscope.Shared.{
  ℕ, suc, ◌+◌, ◌-◌, Bool, true, false, ◌&&◌, ◌||◌, Option, none, some, List, [], ◌∷◌, String, ◌==◌,
  length, map, if◌then◌else◌, is_some,
}
use signalscope.Shared.Rows.{find, select, update, count}
use signalscope.Core.Leases.{Time}
use signalscope.Content.{Content, Chunk}
use signalscope.Jobs.Model.{Uuid, JobStatus, pending, running, completed, failed}
use signalscope.Jobs.Queue.{requeued}
use signalscope.Jobs.Run.{is_failed}
use signalscope.Queues.Chunks.{ChunkJob, ChunkTables}
use signalscope.Queues.Batch.{is_for_model}

pub record QueueResult : Type 0 where
  pub chunks_seen : ℕ
  pub jobs_created : ℕ
  pub already_queued : ℕ
  pub already_extracted : ℕ

abbrev pub nothing_queued : QueueResult
nothing_queued = record {
  chunks_seen = 0;
  jobs_created = 0;
  already_queued = 0;
  already_extracted = 0;
}

-- What the loop over the rows makes of a chunk.
pub data Standing : Type 0 where
  queued extracted new failed_before : Standing

abbrev pub is_standing : Standing → Standing → Bool
is_standing queued queued = true
is_standing extracted extracted = true
is_standing new new = true
is_standing failed_before failed_before = true
is_standing _ _ = false

unfoldable pub standing : Option JobStatus → Bool → Standing
standing (some pending) evidence = queued
standing (some running) evidence = queued
standing (some completed) evidence = extracted
standing none evidence = if evidence then extracted else new
standing (some failed) evidence = if evidence then extracted else failed_before

abbrev pub has_id : ℕ → List ℕ → Bool
has_id i [] = false
has_id i (j ∷ js) = i == j || has_id i js

abbrev pub status_of : Option ChunkJob → Option JobStatus
status_of none = none
status_of (some j) = some j.status

abbrev pub chunk_id_of : Chunk → Uuid
chunk_id_of k = k.id

module _ (evidence : Uuid → Bool) (provider model : String) where
  -- (chunk_id, provider, model) is unique.
  unfoldable pub is_job_of : Uuid → ChunkJob → Bool
  is_job_of chunk_id j = j.resource.chunk_id == chunk_id && is_for_model provider model j.resource

  unfoldable pub standing_of : ChunkTables → Uuid → Standing
  standing_of db chunk_id =
      standing (status_of (find (is_job_of chunk_id) db.jobs)) (evidence chunk_id)

  unfoldable pub pending_job : (Uuid → Uuid) → Time → Time → Uuid → ChunkJob
  pending_job new_id created now chunk_id = record {
    id = new_id chunk_id;
    resource = record { chunk_id = chunk_id; provider = provider; model = model };
    status = pending;
    available_at = now;
    created_at = created;
    claimed_at = none;
    heartbeat_at = none;
    lease_expires_at = none;
    lease_token = none;
    finished_at = none;
    attempt_count = 0;
    last_error = none;
  }

  -- `_add`: INSERT … ON CONFLICT (chunk_id, provider, model) DO NOTHING, and the rows it made
  unfoldable pub add_jobs :
      (Uuid → Uuid) → Time → Time → List Uuid → List ChunkJob → List ChunkJob × ℕ
  add_jobs new_id created now [] jobs = (jobs, 0)
  add_jobs new_id created now (c ∷ cs) jobs =
      let taken = is_some (find (is_job_of c) jobs) in
      let (rest, n) =
        add_jobs new_id created now cs
          (if taken then jobs else pending_job new_id created now c ∷ jobs) in
      (rest, if taken then n else suc n)

  unfoldable pub is_failed_job_of : List Uuid → ChunkJob → Bool
  is_failed_job_of chunks j =
      has_id j.resource.chunk_id chunks
      && is_for_model provider model j.resource
      && is_failed j.status

  -- `_requeue`, and the rows it changed
  unfoldable pub requeue_jobs : Time → List Uuid → List ChunkJob → List ChunkJob × ℕ
  requeue_jobs now chunks jobs =
      (update (is_failed_job_of chunks) (requeued now) jobs, count (is_failed_job_of chunks) jobs)

  abbrev pub with_standing : Standing → ChunkTables → List Uuid → List Uuid
  with_standing s db = select (λ c. is_standing (standing_of db c) s)

  -- The rows of the query: the chunks that exist, of those that were asked for.
  abbrev pub chunks_of : Content → List Uuid → List Uuid
  chunks_of content ids = map chunk_id_of (select (λ k. has_id k.id ids) content.chunks)

  unfoldable pub queue_rows :
      (ChunkTables → ChunkTables)
      → (Uuid → Uuid)
      → Time
      → Time
      → List Uuid
      → ChunkTables
      → ChunkTables × QueueResult
  queue_rows meanwhile new_id created now rows db =
      let fresh = with_standing new db rows in
      let broken = with_standing failed_before db rows in
      let after = meanwhile db in
      let (jobs, n) = add_jobs new_id created now fresh after.jobs in
      let (jobs', m) = requeue_jobs now broken jobs in
      (
        record after { jobs = jobs' },
        record {
          chunks_seen = length rows;
          jobs_created = n + m;
          already_queued =
              length (with_standing queued db rows) + length fresh + length broken - (n + m);
          already_extracted = length (with_standing extracted db rows);
        },
      )

  unfoldable pub queue_chunks :
      (ChunkTables → ChunkTables)
      → Content
      → (Uuid → Uuid)
      → Time
      → Time
      → List Uuid
      → ChunkTables
      → ChunkTables × QueueResult
  queue_chunks meanwhile content new_id created now [] db = (db, nothing_queued)
  queue_chunks meanwhile content new_id created now (c ∷ ids) db =
      queue_rows meanwhile new_id created now (chunks_of content (c ∷ ids)) db
